-- ===== src/Tests/Pieces.antt =====
-- Processes that read files piece by piece.
use hvac_checkpoint.Common.{
  ℕ, ◌%◌, ◌≡◌, refl, ◌≢◌, ap, true, false, some, List, [], ◌∷◌, ◌++◌, arith,
}
use hvac_checkpoint.Common.Int.{pos, to_int32}
use hvac_checkpoint.Common.Text.{Text, codes, text_beq}
use hvac_checkpoint.Common.Run.{ok}
use hvac_checkpoint.Server.{start}
use hvac_checkpoint.Server.Files.{redirect}
use hvac_checkpoint.Client.{Client, Env, loaded}
use hvac_checkpoint.Ring.Servers.{server_ring}
use hvac_checkpoint.Tests.{hash}
use hvac_checkpoint.Client.Track.{wants_tracking}
use hvac_checkpoint.Ports.{lookup_addr}
use hvac_checkpoint.Cluster.{Cluster, cluster}
use hvac_checkpoint.Cluster.Stream.Whole.{ReadsToEnd, open_file-ReadsToEnd}
use hvac_checkpoint.Cluster.{read_answer, answer_of}
use hvac_checkpoint.Cluster.Stream.{Stands}
use hvac_checkpoint.Cluster.Stream.Seeks.{remote_lseek-Stands}
use hvac_checkpoint.Cluster.Stream.Reads.{after_read}
use hvac_checkpoint.Cluster.Stream.Apart.{
  OpenFile, stops, reads_first, reads_second, ReadsBoth-HasLeft, HasLeft,
}
use hvac_checkpoint.Server.Read.{
  rpc_handler, serve_read, start_transfer, filled, rpc_handler_bulk_cb,
}
use hvac_checkpoint.Client.Remote.{remote_read, ring_host, remote_lseek}
use hvac_checkpoint.Wrappers.{Process, open_file}
use hvac_checkpoint.Tests.Streams.{
  positions, positions-ReadLaws, positions-FileLaws, positions-StreamLaws, quiet, nothing_fails,
}
use hvac_checkpoint.Tests.Clients.{env, path, client_program}
use hvac_checkpoint.Tests.Processes.{libc, libc-HasSymbols}

abbrev four_bytes : List ℕ
four_bytes = 4 ∷ 5 ∷ 6 ∷ 7 ∷ []

-- Servers that have the file of four bytes, and a process before it opens it.
abbrev holding : Cluster positions
holding address = start (record { files = (path, four_bytes) ∷ []; next = 3; left = [] })

abbrev before_open : Process ℕ (Cluster positions)
before_open = record {
  local = 40;
  client = loaded env holding;
  disable_redirect = false;
  logging = false;
}

wanted_here : wants_tracking env path 0 ≡ some path
unfolding client_program
wanted_here = refl

address_listed :
    (lookup_addr
      (to_int32 (pos (env.hash path % env.server_count)))
      env.ports
      before_open.client.address_cache).0
    ≡ some (codes "tcp://a:1")
unfolding client_program
address_listed = refl

open_file-ReadsToEnd_example :
    (p₁ p₂ : Process ℕ (Cluster positions)) × (open_file libc
        (cluster positions quiet)
        env
        path
        0
        (pos 0)
        before_open
      ≡ ok (pos 5, p₁))
    × ReadsToEnd libc (cluster positions quiet) env (pos 5) 3 p₁ four_bytes p₂
    × (p₂.local ≡ 40)
unfolding client_program redirect positions-FileLaws
open_file-ReadsToEnd_example =
    open_file-ReadsToEnd libc positions positions-ReadLaws positions-FileLaws positions-StreamLaws
      quiet env libc-HasSymbols nothing_fails (omega arith) path path (codes "tcp://a:1") (pos 5)
      (pos 0) 0 3 3 four_bytes
      (record { files = (path, four_bytes) ∷ []; next = 4; left = (3, four_bytes) ∷ [] })
      before_open 40 refl refl (λ e. absurd (cc e)) wanted_here address_listed
      (λ p copy e. absurd (cc e)) refl refl (omega arith) (omega arith) (omega arith)

-- A client with two open files, whose server has them under the descriptors 3 and 4.
abbrev other_path : Text
other_path = codes "/data/b"

abbrev two_open : Cluster positions
two_open address = start (record {
  files = (path, four_bytes) ∷ (other_path, 8 ∷ 9 ∷ []) ∷ [];
  next = 5;
  left = (3, four_bytes) ∷ (4, 8 ∷ 9 ∷ []) ∷ [];
})

abbrev reading : Client (Cluster positions)
reading = record (loaded env two_open) {
  fd_map = (pos 5, path) ∷ (pos 6, other_path) ∷ [];
  fd_redir_map = (pos 5, pos 3) ∷ (pos 6, pos 4) ∷ [];
  address_cache = (pos 0, codes "tcp://a:1") ∷ [];
}

abbrev first_file : OpenFile
first_file = record { fd = pos 5; real = path; address = codes "tcp://a:1"; remote = 3 }

abbrev second_file : OpenFile
second_file = record { fd = pos 6; real = other_path; address = codes "tcp://a:1"; remote = 4 }

abbrev after : OpenFile → ℕ → Client (Cluster positions) → Client (Cluster positions)
after f count c =
    after_read positions positions-ReadLaws positions-FileLaws positions-StreamLaws quiet env
      nothing_fails (omega arith) f.real f.address f.remote count c

first_read :
    remote_read (cluster positions quiet) env (pos 5) 3 reading
    ≡ ok (pos 3, 4 ∷ 5 ∷ 6 ∷ [], after first_file 3 reading)
unfolding client_program redirect positions-FileLaws rpc_handler serve_read start_transfer filled
    rpc_handler_bulk_cb read_answer answer_of after_read
first_read = refl

abbrev once : Client (Cluster positions)
once = after first_file 3 reading

second_read :
    remote_read (cluster positions quiet) env (pos 6) 3 once
    ≡ ok (pos 2, 8 ∷ 9 ∷ [], after second_file 3 once)
unfolding client_program redirect positions-FileLaws rpc_handler serve_read start_transfer filled
    rpc_handler_bulk_cb read_answer answer_of after_read
second_read = refl

abbrev twice : Client (Cluster positions)
twice = after second_file 3 once

third_read :
    remote_read (cluster positions quiet) env (pos 5) 3 twice
    ≡ ok (pos 1, 7 ∷ [], after first_file 3 twice)
unfolding client_program redirect positions-FileLaws rpc_handler serve_read start_transfer filled
    rpc_handler_bulk_cb read_answer answer_of after_read
third_read = refl

ReadsBoth-HasLeft_example :
    (rest rest' : List ℕ) × ((4 ∷ 5 ∷ 6 ∷ 7 ∷ []) ++ rest ≡ four_bytes)
    × ((8 ∷ 9 ∷ []) ++ rest' ≡ 8 ∷ 9 ∷ [])
    × HasLeft positions positions-ReadLaws positions-FileLaws positions-StreamLaws quiet env
        nothing_fails
        (omega arith)
        first_file
        rest
        (after first_file 3 twice)
    × HasLeft positions positions-ReadLaws positions-FileLaws positions-StreamLaws quiet env
        nothing_fails
        (omega arith)
        second_file
        rest'
        (after first_file 3 twice)
unfolding client_program positions-StreamLaws
ReadsBoth-HasLeft_example =
    ReadsBoth-HasLeft positions positions-ReadLaws positions-FileLaws positions-StreamLaws quiet env
      nothing_fails (omega arith) first_file second_file four_bytes (8 ∷ 9 ∷ []) four_bytes
      (8 ∷ 9 ∷ []) reading (after first_file 3 twice) (λ here same. absurd (omega (arith, same)))
      (record { tracked = refl; redirected = refl; known = refl; left_there = refl })
      (record { tracked = refl; redirected = refl; known = refl; left_there = refl })
      (reads_first 3 (pos 3) (4 ∷ 5 ∷ 6 ∷ []) (omega arith) (omega arith) first_read (
        reads_second 3 (pos 2) (8 ∷ 9 ∷ []) (omega arith) (omega arith) second_read
          (reads_first 3 (pos 1) (7 ∷ []) (omega arith) (omega arith) third_read (stops _))))

-- Two servers: the reads of a file go to the second, its seeks to the first.
abbrev wide : Env
wide = record env {
  server_count = 2;
  ports = codes "0 tcp://a:1" ++ (b'\n' ∷ (codes "1 tcp://b:1" ++ b'\n' ∷ []));
}

abbrev far_path : Text
far_path = codes "/data/b"

abbrev split : Client (Cluster positions)
split = record reading {
  fd_map = (pos 5, far_path) ∷ [];
  ring = server_ring hash 2 2;
  address_cache = (pos 0, codes "tcp://a:1") ∷ (pos 1, codes "tcp://b:1") ∷ [];
}

far_host : to_int32 (pos (hash far_path % 2)) ≡ pos 1
unfolding client_program
far_host = refl

seek_host : ring_host wide far_path split ≡ ok (codes "server1", pos 0)
unfolding client_program
seek_host = refl

addresses_differ : codes "tcp://b:1" ≢ codes "tcp://a:1"
addresses_differ e =
    let same : true ≡ false = ap (λ t. text_beq t (codes "tcp://b:1")) e in absurd (cc same)

remote_lseek-Stands_example :
    (c' : Client (Cluster positions)) × (remote_lseek
        (cluster positions quiet)
        wide
        (pos 5)
        (pos 2)
        (pos 0)
        split
      ≡ ok (pos 2, c'))
    × Stands positions positions-FileLaws positions-StreamLaws wide
        (pos 5)
        far_path
        (codes "tcp://b:1")
        3
        four_bytes
        c'
unfolding client_program positions-StreamLaws
remote_lseek-Stands_example =
    remote_lseek-Stands positions quiet positions-FileLaws positions-StreamLaws wide (pos 5)
      far_path (codes "tcp://b:1") (codes "tcp://a:1") (codes "server1") 3 0 (pos 2) (pos 0)
      four_bytes split refl
      (record { tracked = refl; redirected = refl; known = refl; left_there = refl }) seek_host refl
      (λ same. absurd (addresses_differ same))
