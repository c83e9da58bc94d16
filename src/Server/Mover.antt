-- ===== src/Server/Mover.antt =====
-- hvac_data_mover.cpp: the data mover thread, which copies queued files to node-local storage.
pub mod Laws
pub mod Thread
use hvac_checkpoint.Common.{
  ℕ, Bool, true, false, Option, some, none, List, [], ◌∷◌, ◌++◌, if◌then◌else◌, ◌==◌,
}
use hvac_checkpoint.Common.Maps.{Map, insert}
use hvac_checkpoint.Common.Text.{Text, text_eq, codes, c_str}
use hvac_checkpoint.Common.Run.{Run, ok, fault, Fault, undefined, blocked}
use hvac_checkpoint.Posix.{Posix}
use hvac_checkpoint.Server.{Server}

-- What stands behind the last slash, after `seen`.
unfoldable pub filename_from : Text → Text → Text
filename_from seen [] = seen
filename_from seen (c ∷ s) = filename_from (if c == b'/' then [] else seen ++ c ∷ []) s

-- `fs::path(p).filename()`
unfoldable pub filename : Text → Text
filename path = filename_from [] path

-- `string(getenv("BBPATH")) + "/XXXXXX"`; without the variable a null pointer is read.
unfoldable pub nvme_path : Option Text → Run Text
nvme_path none = fault undefined
nvme_path (some bbpath) = ok (bbpath ++ codes "/XXXXXX")

module _ (os : Posix) where
  -- The first half of a round: wait for work, and take over the whole queue. The list before it
  -- is empty, since the second half has emptied it.
  unfoldable pub take_queue : Server os.Fs → Run (Server os.Fs)
  take_queue s = elim s.data_queue [
    | [] ↦ fault blocked
    | p ∷ ps ↦ ok (record s { data_queue = []; local_list = s.local_list ++ p ∷ ps })
  ]

  -- One file: a fresh directory, the copy, and on success the entry in the cache. The log line of a
  -- failed copy is left out; where it is given a `std::string` for `%s`, it prints the bytes of the object.
  unfoldable pub move_file : Text → Text → Server os.Fs → Server os.Fs
  move_file nvmepath path s =
      let (dirpath, fs) = os.make_temp_dir (c_str nvmepath) s.fs in
      let target = dirpath ++ (codes "/" ++ filename (c_str path)) in
      let (copied, fs') = os.copy_file path target fs in
      if copied
      then record s { fs = fs'; path_cache_map = insert path target s.path_cache_map }
      else record s { fs = fs' }

  -- The second half: every path of the list, front first.
  unfoldable pub move_list : Text → List Text → Server os.Fs → Server os.Fs
  move_list nvmepath [] s = s
  move_list nvmepath (path ∷ paths) s =
      move_list nvmepath paths (move_file nvmepath path (record s { local_list = paths }))

  -- One round of `hvac_data_mover_fn`.
  unfoldable pub move_round : Text → Server os.Fs → Run (Server os.Fs)
  move_round nvmepath s = elim (take_queue s) [
    | fault e ↦ fault e
    | ok taken ↦ ok (move_list nvmepath taken.local_list taken)
  ]
