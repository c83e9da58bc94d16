-- ===== src/Tests/Clients.antt =====
-- The theorems on the client, with one server that answers every call, and with one whose reads fail.
use hvac_checkpoint.Common.{
  zero, suc, ◌%◌, ◌^◌, ◌==◌, ℕ, ◌<◌, ◌≡◌, ◌⊎◌, ◌++◌, refl, true, false, some, none, List, [], ◌∷◌,
  arith, if◌then◌else◌, nat_eq,
}
use hvac_checkpoint.Common.Int.{ℤ, pos, minus_one, int_eq, int_beq, to_int32}
use hvac_checkpoint.Common.Maps.{lookup, insert, erase, index}
use hvac_checkpoint.Common.Text.{Text, codes}
use hvac_checkpoint.Common.Run.{ok, fault, blocked, ◌>>=◌}
use hvac_checkpoint.Ports.{
  lookup_addr, find_address, search_file, scan_entry, scan_signed, scan_digits, skip_space,
  skip_digits, take_word, drop_word, entry_of,
}
use hvac_checkpoint.Client.{Client, Env, Rpc, answered, loaded, initialize_hash_ring}
use hvac_checkpoint.Client.Calls.{
  remote_open, remote_fetch, remote_release, server_address, finish_open, open_cb, client_block,
  finish_read, read_cb, read_block,
}
use hvac_checkpoint.Client.Remote.{
  hashed_host, ring_host, check_failure, host_elem, untrack_failed, remote_read, remote_pread,
  remote_close, remove_fd,
}
use hvac_checkpoint.Client.Track.{
  tracked_path, wants_tracking, parent_path, before_last_slash, init_mercury, track_file,
}
use hvac_checkpoint.Client.Invariant.{IsConsistent}
use hvac_checkpoint.Client.Closing.{HasAddresses, remove_fd_returns}
use hvac_checkpoint.Client.Operations.{HasServerCount}
use hvac_checkpoint.Client.Reach.{
  Reach, tracks, loads, steps, track_file_lem, Reach-IsConsistent, Reach-check_failure,
}
use hvac_checkpoint.Client.Calls.{seek_reset, seek_block}
use hvac_checkpoint.Client.Seeks.{deliver, seek_block-deliver}
use hvac_checkpoint.Tests.{hash, ring_program}

-- The answer to every read is `r` with the bytes `bytes`.
abbrev servers : ℤ → List ℕ → Rpc
servers r bytes = record {
  World = Unit {0};
  open_rpc = λ address inp w. (answered (pos 3), w);
  read_rpc = λ address inp w. (answered (r, bytes), w);
  close_rpc = λ address inp w. some w;
  seek_rpc = λ address inp w. (answered (pos 0), w);
}

abbrev pub healthy : Rpc
healthy = servers (pos 2) (1 ∷ 2 ∷ [])

abbrev pub broken : Rpc
broken = servers minus_one []

abbrev pub env : Env
env = record {
  server_count = 1;
  data_dir = some (codes "/data");
  client_rank = pos 0;
  hash = hash;
  ports = codes "0 tcp://a:1" ++ b'\n' ∷ [];
  canonical = λ p. some p;
  current_path = codes "/";
}

pub env-HasServerCount : HasServerCount env
env-HasServerCount = (omega arith, omega arith)

abbrev pub path : Text
path = codes "/data/a"

unfoldable pub client_program : Unit {0}
unfolding ring_program index insert lookup erase to_int32 lookup_addr find_address search_file
    scan_entry scan_signed scan_digits skip_space skip_digits take_word drop_word entry_of loaded
    remote_open remote_fetch remote_release server_address finish_open open_cb client_block
    finish_read read_cb read_block hashed_host ring_host check_failure host_elem untrack_failed
    remote_read remote_pread remote_close remove_fd tracked_path wants_tracking parent_path
    before_last_slash init_mercury track_file initialize_hash_ring
client_program = tt

abbrev fresh : Client (Unit {0})
fresh = loaded env tt

-- The client after the file has been opened under the descriptor 5.
abbrev pub tracking : Client (Unit {0})
tracking = record (init_mercury env (record fresh { fd_map = (pos 5, path) ∷ [] })) {
  fd_redir_map = (pos 5, pos 3) ∷ [];
  address_cache = (pos 0, codes "tcp://a:1") ∷ [];
}

opened : track_file healthy env path 0 (pos 5) fresh ≡ ok (true, tracking)
unfolding client_program
opened = refl

pub run : Reach healthy env tracking
run = steps (loads tt) (tracks path 0 (pos 5) true opened)

Reach-IsConsistent_example : IsConsistent env tracking
Reach-IsConsistent_example = Reach-IsConsistent healthy env env-HasServerCount run

Reach-check_failure_example :
    (hostname : Text) × (n : ℕ) × (n < 1)
    × (ring_host env path tracking ≡ ok (hostname, pos n))
    × (check_failure env hostname (pos n) tracking ≡ ok (false, tracking))
Reach-check_failure_example = Reach-check_failure healthy env env-HasServerCount path tracking run

track_file_lem_example :
    IsConsistent env tracking
    × (((true ≡ false) × (tracking ≡ fresh))
        ⊎ ((true ≡ true)
            × (real : Text) × (wants_tracking env path 0 ≡ some real)
            × (tracking.fd_map ≡ insert (pos 5) real fresh.fd_map)))
track_file_lem_example =
    track_file_lem healthy env path 0 (pos 5) fresh tracking true
      (Reach-IsConsistent healthy env env-HasServerCount (loads tt)) opened

pub tracked_here : lookup (pos 5) tracking.fd_map ≡ some path
unfolding client_program
tracked_here = refl

listed : HasAddresses env
unfolding client_program
listed zero lt = (codes "tcp://a:1", refl)
listed (suc n) lt = absurd (omega arith)

remove_fd_returns_example :
    (c' : Client (Unit {0})) × (remove_fd healthy env (pos 5) tracking ≡ ok (true, c'))
    × ((j : ℤ)
        → lookup j c'.fd_map ≡ (if int_beq (pos 5) j then none else lookup j tracking.fd_map))
    × ((j : ℤ)
        → lookup j c'.fd_redir_map
          ≡ (if int_beq (pos 5) j then none else lookup j tracking.fd_redir_map))
    × IsConsistent env c'
remove_fd_returns_example =
    remove_fd_returns healthy env env-HasServerCount (pos 5) path tracking listed
      (λ address inp w. (w, refl)) Reach-IsConsistent_example tracked_here

wanted : wants_tracking env path 0 ≡ some path
unfolding client_program
wanted = refl

seek_block-deliver_example :
    (deliver (pos 4 ∷ pos 8 ∷ []) seek_reset >>= seek_block)
    ≡ (if 2 % 2 ^ 8 == 1 then ok (pos 8) else fault blocked)
seek_block-deliver_example = seek_block-deliver (pos 4 ∷ pos 8 ∷ [])

address_found :
    server_address env (to_int32 (pos (hash path % 1))) tracking ≡ ok (codes "tcp://a:1", tracking)
unfolding client_program
address_found = refl

pub redirected_here : lookup (pos 5) tracking.fd_redir_map ≡ some (pos 3)
unfolding client_program
redirected_here = refl
