-- ===== src/Tests/Servers.antt =====
-- The theorems on the handlers and the data mover, on the file system of the tests.
use hvac_checkpoint.Common.{◌≡◌, ◌⊎◌, refl, true, some, none, [], ◌∷◌, arith, if◌then◌else◌, ltb}
use hvac_checkpoint.Common.Int.{ℤ, pos, minus_one, int_eq, int_beq, to_int32}
use hvac_checkpoint.Common.Maps.{lookup}
use hvac_checkpoint.Common.Text.{Text, text_eq, codes}
use hvac_checkpoint.Common.Run.{ok, fault, blocked}
use hvac_checkpoint.Server.{Server, start, HgCalls, Handled, responds, pushes}
use hvac_checkpoint.Server.Read.{RpcIn, rpc_handler, log_path}
use hvac_checkpoint.Server.Read.Laws.{IsSetUp, rpc_handler_pushes}
use hvac_checkpoint.Server.Files.{open_rpc_handler, close_rpc_handler}
use hvac_checkpoint.Server.Files.Laws.{queued, close-open}
use hvac_checkpoint.Server.Mover.{move_round}
use hvac_checkpoint.Server.Mover.Laws.{Moved, move_round-Moved}
use hvac_checkpoint.Tests.Disk.{disk, disk-ReadLaws, Files, read_from}

-- Every call into Mercury succeeds but a transfer beyond 8 bytes.
abbrev pub calls : HgCalls
calls = record {
  get_input = 0;
  allocated = true;
  info = true;
  bulk_create = 0;
  transfer = λ n. if ltb 8 n then 1 else 0;
  addr_to_string = some 0;
}

pub calls-IsSetUp : IsSetUp calls
calls-IsSetUp = record { got_input = refl; allocated = refl; info = refl; registered = refl }

abbrev path : Text
path = codes "/data/a"

-- A server with one file, which is open under the descriptor 3.
abbrev pub serving : Server Files
serving = record (start ((path, 1 ∷ 2 ∷ 3 ∷ []) ∷ [])) { fd_to_path = (pos 3, path) ∷ [] }

abbrev pub request : ℤ → ℤ → RpcIn
request fd offset = record {
  input_val = pos 8;
  accessfd = fd;
  localfd = pos 5;
  offset = offset;
  client_rank = pos 0;
}

rpc_handler_pushes_example :
    rpc_handler disk calls (request (pos 3) minus_one) serving
    ≡ ok (record {
      server = log_path (pos 3) serving;
      events = pushes 3 (1 ∷ 2 ∷ 3 ∷ []) ∷ [];
      ret = 0;
    })
unfolding read_from
rpc_handler_pushes_example =
    rpc_handler_pushes disk disk-ReadLaws calls (request (pos 3) minus_one) serving calls-IsSetUp 3
      refl (omega arith) refl

close-open_example :
    (opened closed : Handled Files) × (open_rpc_handler disk calls
        (record { path = path; client_rank = pos 0; localfd = pos 5 })
        serving
      ≡ ok opened)
    × (opened.events ≡ responds (to_int32 (pos 3)) ∷ [])
    × (close_rpc_handler disk calls
          (record { fd = to_int32 (pos 3); client_rank = pos 0 })
          opened.server
        ≡ ok closed)
    × (closed.server.data_queue ≡ queued path [] [])
    × ((j : ℤ)
        → lookup j closed.server.fd_to_path
          ≡ (if int_beq (to_int32 (pos 3)) j then none else lookup j serving.fd_to_path))
close-open_example =
    close-open disk calls (record { path = path; client_rank = pos 0; localfd = pos 5 }) (pos 0)
      serving 0 refl refl

-- Two files wait for the data mover, one of which does not exist.
abbrev waiting : Server Files
waiting = record serving { data_queue = path ∷ codes "/data/b" ∷ [] }

move_round-Moved_example :
    ((waiting.data_queue ≡ []) × (move_round disk (codes "/bb/XXXXXX") waiting ≡ fault blocked))
    ⊎ ((t : Server Files) × (move_round disk (codes "/bb/XXXXXX") waiting ≡ ok t)
        × (t.data_queue ≡ [])
        × Moved disk
            (codes "/bb/XXXXXX")
            waiting.data_queue
            (record waiting { data_queue = []; local_list = waiting.data_queue })
            t)
move_round-Moved_example = move_round-Moved disk (codes "/bb/XXXXXX") waiting refl
