-- ===== src/Tests/Caches.antt =====
-- The transparency of the cache on a run of the server: a file is opened, closed and copied.
use hvac_checkpoint.Common.{◌≡◌, refl, Bool, some, [], ◌∷◌, ◌++◌}
use hvac_checkpoint.Common.Int.{pos, int_eq, to_int32}
use hvac_checkpoint.Common.Maps.{lookup, insert, erase, index}
use hvac_checkpoint.Common.Text.{Text, text_eq, codes, c_str}
use hvac_checkpoint.Server.{Server, start, HgCalls, responds}
use hvac_checkpoint.Server.Files.{open_rpc_handler, close_rpc_handler, redirect, queue_path}
use hvac_checkpoint.Server.Mover.{take_queue, move_file, filename, filename_from}
use hvac_checkpoint.Server.Cache.Transparent.{
  Step, Reach, opens, closes, takes, moves, starts, steps, redirect-content,
}
use hvac_checkpoint.Tests.Disk.{disk, disk-FileLaws, Files, copy_to, fresh}

abbrev calls : HgCalls
calls = record {
  get_input = 0;
  allocated = Bool.true;
  info = Bool.true;
  bulk_create = 0;
  transfer = λ n. 0;
  addr_to_string = some 0;
}

abbrev path : Text
path = codes "/data/a"

abbrev nvmepath : Text
nvmepath = codes "/bb/XXXXXX"

abbrev files : Files
files = (path, 1 ∷ 2 ∷ 3 ∷ []) ∷ []

abbrev opened : Server Files
opened = record (start files) { fd_to_path = (pos 3, path) ∷ [] }

abbrev closed : Server Files
closed = record (start files) { data_queue = path ∷ [] }

abbrev taken : Server Files
taken = record (start files) { local_list = path ∷ [] }

abbrev copied : Server Files
copied = move_file disk nvmepath path (start files)

run : Reach disk disk-FileLaws nvmepath copied
unfolding open_rpc_handler close_rpc_handler redirect queue_path take_queue lookup insert erase
    index to_int32
run =
    let opening : Step disk disk-FileLaws nvmepath (start files) opened =
      opens calls (record { path = path; client_rank = pos 0; localfd = pos 5 })
        (record { server = opened; events = responds (pos 3) ∷ []; ret = 0 }) refl refl in
    let closing : Step disk disk-FileLaws nvmepath opened closed =
      closes calls (record { fd = pos 3; client_rank = pos 0 })
        (record { server = closed; events = []; ret = 0 }) refl refl in
    let taking : Step disk disk-FileLaws nvmepath closed taken = takes refl in
    let moving : Step disk disk-FileLaws nvmepath taken copied = moves path [] refl refl in
    steps (steps (steps (steps (starts files) opening) closing) taking) moving

-- The copy is in the cache, so the theorem is about two different files.
copied_cached : redirect path copied.path_cache_map ≡ fresh files ++ codes "/a"
unfolding redirect move_file lookup insert copy_to filename filename_from c_str
copied_cached = refl

redirect-content_example :
    disk-FileLaws.content (redirect path copied.path_cache_map) copied.fs
    ≡ disk-FileLaws.content path copied.fs
redirect-content_example = redirect-content disk disk-FileLaws nvmepath path copied run
