-- ===== src/Tests/Processes.antt =====
-- The theorems on the wrappers and on processes with servers.
use hvac_checkpoint.Common.{ℕ, ◌+◌, ◌%◌, ◌≡◌, refl, true, false, some, none, [], ◌∷◌, arith}
use hvac_checkpoint.Common.Int.{ℤ, pos, minus_one, int_eq, to_int32}
use hvac_checkpoint.Common.Maps.{lookup}
use hvac_checkpoint.Common.Text.{codes}
use hvac_checkpoint.Common.Run.{ok, fault, undefined}
use hvac_checkpoint.Server.{start}
use hvac_checkpoint.Server.Files.{redirect}
use hvac_checkpoint.Client.{loaded}
use hvac_checkpoint.Client.Remote.{get_path, hashed_host, ring_host, remote_pread}
use hvac_checkpoint.Client.Reach.{Reach-IsConsistent}
use hvac_checkpoint.Client.Track.{wants_tracking}
use hvac_checkpoint.Ports.{lookup_addr}
use hvac_checkpoint.Cluster.{Cluster, cluster}
use hvac_checkpoint.Cluster.Process.{CanServe, read-open_file}
use hvac_checkpoint.Wrappers.{Libc, Process, open_file, close_file, read, pread, lseek, lseek64}
use hvac_checkpoint.Wrappers.Plain.{HasSymbols, moved, untracked_plain}
use hvac_checkpoint.Wrappers.Fallback.{IsRefused, read_fails_freed, pread_fails_freed}
use hvac_checkpoint.Wrappers.Reuse.{pread-open_file_stale}
use hvac_checkpoint.Tests.Heads.{heads, heads-ReadLaws, heads-FileLaws, heads-OpenLaws}
use hvac_checkpoint.Tests.Servers.{calls, calls-IsSetUp}
use hvac_checkpoint.Tests.Clients.{
  env, env-HasServerCount, path, run, client_program, tracking, broken, healthy,
}

-- A C library with one local file, whose state is the position in it: an open answers the descriptor
-- 5, and a read finds one byte, the position.
abbrev pub libc : Libc
libc = record {
  Local = ℕ;
  maps = λ func. true;
  real_fopen = λ path mode at. (some (pos 5), at);
  real_fopen64 = λ path mode at. (some (pos 5), at);
  real_open = λ path flags mode at. (pos 5, at);
  real_close = λ fd at. (pos 0, at);
  real_read = λ fd n at. (pos 1, at ∷ [], at + 1);
  real_read64 = λ fd n at. (pos 1, at ∷ [], at + 1);
  real_pread = λ fd n offset at. (pos 1, 7 ∷ [], at);
  real_readv = λ fd sizes at. (pos 0, [], at);
  real_write = λ fd bytes at. (minus_one, at);
  real_lseek = λ fd offset whence at. (offset, at);
  real_lseek64 = λ fd offset whence at. (offset, at);
}

pub libc-HasSymbols : HasSymbols libc
libc-HasSymbols func = refl

-- A process with the file of `tracking` open, and its local position at 40.
abbrev pub running : Process ℕ (Unit {0})
running = record { local = 40; client = tracking; disable_redirect = false; logging = false }

abbrev switched_off : Process ℕ (Unit {0})
switched_off = record running { disable_redirect = true }

untracked_plain_example :
    ((count : ℕ)
      → read libc healthy env (pos 9) count running
        ≡ ok (to_int32 (pos 1), 40 ∷ [], moved running 41))
    × ((count : ℕ) (offset : ℤ)
        → pread libc healthy env (pos 9) count offset running ≡ ok (pos 1, 7 ∷ [], running))
    × ((offset whence : ℤ)
        → lseek libc healthy env (pos 9) offset whence running ≡ ok (offset, running))
    × ((offset whence : ℤ)
        → lseek64 libc healthy env (pos 9) offset whence running ≡ ok (offset, running))
    × (close_file libc healthy env (pos 9) running ≡ ok (pos 0, running))
unfolding client_program
untracked_plain_example = untracked_plain libc healthy env libc-HasSymbols running (pos 9) refl

tracked_path_here : lookup (pos 5) tracking.fd_map ≡ some path
unfolding client_program
tracked_path_here = refl

-- The server of `broken` answers every read with -1.
refused : (offset : ℤ) → IsRefused broken env (pos 0) (pos 5) 8 offset tracking
unfolding client_program
refused offset = record {
  address = codes "tcp://a:1";
  known = tracking;
  found = refl;
  bytes = [];
  refused = refl;
}

hashed_here : hashed_host env path ≡ ok (pos 0)
unfolding client_program
hashed_here = refl

routed_here : ring_host env path tracking ≡ ok (codes "server1", pos 0)
unfolding client_program
routed_here = refl

read_fails_freed_example : read libc broken env (pos 5) 8 running ≡ fault undefined
read_fails_freed_example =
    read_fails_freed libc broken env libc-HasSymbols (pos 5) (pos 0) 8 path running
      tracked_path_here hashed_here (refused minus_one)

pread_fails_freed_example : pread libc broken env (pos 5) 8 (pos 0) running ≡ fault undefined
pread_fails_freed_example =
    pread_fails_freed libc broken env libc-HasSymbols env-HasServerCount (pos 5) (pos 0) 8 (pos 0)
      path (codes "server1") running (Reach-IsConsistent healthy env env-HasServerCount run)
      tracked_path_here routed_here (refused (pos 0))

pread_served :
    remote_pread healthy env (pos 5) 2 (pos 0) tracking ≡ ok (pos 2, 1 ∷ 2 ∷ [], tracking)
unfolding client_program
pread_served = refl

unwanted : wants_tracking env (codes "/tmp/b") 0 ≡ none
unfolding client_program
unwanted = refl

pread-open_file_stale_example :
    (p₁ p₂ : Process ℕ (Unit {0})) × (open_file libc healthy env (codes "/tmp/b") 0 (pos 0) running
      ≡ ok (pos 5, p₁))
    × (get_path (pos 5) p₁.client ≡ some path)
    × (pread libc healthy env (pos 5) 2 (pos 0) p₁ ≡ ok (pos 2, 1 ∷ 2 ∷ [], p₂))
    × (p₂.local ≡ 40)
pread-open_file_stale_example =
    pread-open_file_stale libc healthy env libc-HasSymbols running (codes "/tmp/b") path 0 2 2
      (pos 0) (pos 5) (pos 0) (1 ∷ 2 ∷ []) 40 tracking refl unwanted refl tracked_path_here
      pread_served

-- The servers of the handlers, each with the file of four bytes; and a process before it opens it.
abbrev serving : Cluster heads
serving address = start (record { files = (path, 4 ∷ 5 ∷ 6 ∷ 7 ∷ []) ∷ []; opened = [] })

abbrev starting : Process ℕ (Cluster heads)
starting = record {
  local = 40;
  client = loaded env serving;
  disable_redirect = false;
  logging = false;
}

can_serve :
    CanServe heads heads-FileLaws calls serving (codes "tcp://a:1") path (4 ∷ 5 ∷ 6 ∷ 7 ∷ []) 3 3
unfolding client_program redirect heads-FileLaws
can_serve = record {
  set_up = calls-IsSetUp;
  faithful = λ p copy e. absurd (cc e);
  has_content = refl;
  descriptor = 3;
  fs = record { files = (path, 4 ∷ 5 ∷ 6 ∷ 7 ∷ []) ∷ []; opened = 4 ∷ 5 ∷ 6 ∷ 7 ∷ [] };
  opened = refl;
  small_descriptor = omega arith;
  found = refl;
  small_count = omega arith;
  small_found = omega arith;
  transferred = refl;
}

wanted_here : wants_tracking env path 0 ≡ some path
unfolding client_program
wanted_here = refl

address_listed :
    (lookup_addr
      (to_int32 (pos (env.hash path % env.server_count)))
      env.ports
      starting.client.address_cache).0
    ≡ some (codes "tcp://a:1")
unfolding client_program
address_listed = refl

read-open_file_example :
    (p₁ p₂ : Process ℕ (Cluster heads)) × (open_file libc
        (cluster heads calls)
        env
        path
        0
        (pos 0)
        starting
      ≡ ok (pos 5, p₁))
    × (read libc (cluster heads calls) env (pos 5) 3 p₁ ≡ ok (pos 3, 4 ∷ 5 ∷ 6 ∷ [], p₂))
    × (p₂.local ≡ 40)
unfolding client_program heads-FileLaws
read-open_file_example =
    read-open_file libc heads heads-ReadLaws heads-FileLaws heads-OpenLaws calls env libc-HasSymbols
      path path (codes "tcp://a:1") (pos 5) (pos 0) 0 3 3 (4 ∷ 5 ∷ 6 ∷ 7 ∷ []) starting 40 refl refl
      (λ e. absurd (cc e)) wanted_here (omega arith) address_listed can_serve
