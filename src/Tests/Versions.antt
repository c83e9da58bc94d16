-- ===== src/Tests/Versions.antt =====
-- The theorems that compare the earlier version with the later one.
use hvac_checkpoint.Common.{
  ℕ, some, List, length, nat_eq, ◌%◌, ◌-◌, ◌^◌, ◌≡◌, ◌≢◌, ◌⊎◌, refl, true, false, [], ◌∷◌, arith,
}
use hvac_checkpoint.Common.Int.{ℤ, pos, minus_one}
use hvac_checkpoint.Common.Text.{codes}
use hvac_checkpoint.Common.Maps.{lookup}
use hvac_checkpoint.Common.Run.{ok, fault, assertion, exited, ◌>>=◌}
use hvac_checkpoint.Earlier.{reset}
use hvac_checkpoint.Earlier.Calls
use hvac_checkpoint.Earlier.Overlap.{Answers, Once, deliver, wait, deliver_shared, reads_overlap}
use hvac_checkpoint.Server.{Handled, responds, bulk_freed, buffer_freed, state_freed}
use hvac_checkpoint.Server.Read
use hvac_checkpoint.Client.{answered}
use hvac_checkpoint.Client.Remote.{ring_host, hashed_host, remote_pread, remote_read}
use hvac_checkpoint.Client.Reach.{Reach-IsConsistent}
use hvac_checkpoint.Wrappers.{Process, read}
use hvac_checkpoint.Earlier
use hvac_checkpoint.Earlier.Wrappers
use hvac_checkpoint.Earlier.Wrappers.Compared.{forget_process, read-earlier}
use hvac_checkpoint.Tests.Processes.{libc, libc-HasSymbols, running}
use hvac_checkpoint.Earlier.Remote
use hvac_checkpoint.Earlier.Handlers
use hvac_checkpoint.Earlier.Handlers.{earlier_read, pread_fails, rpc_handler-earlier}
use hvac_checkpoint.Earlier.Agrees.{IsPrompt, AnswersInTime, upgraded, forget, remote_pread-earlier}
use hvac_checkpoint.Tests.Disk.{disk, disk-ReadLaws, Files}
use hvac_checkpoint.Tests.Servers.{calls, calls-IsSetUp, request, serving}
use hvac_checkpoint.Tests.Clients.{
  env, env-HasServerCount, healthy, path, tracking, run, tracked_here, client_program,
}

transfer_refused : calls.transfer (2 ^ 64 - 1) ≢ 0
transfer_refused = ground arith

-- A `pread` of the descriptor -1.
rpc_handler-earlier_example :
    ((pread_fails disk (request minus_one (pos 0)) serving ≡ false)
      × (Read.rpc_handler disk calls (request minus_one (pos 0)) serving
          ≡ Handlers.rpc_handler disk calls (earlier_read (request minus_one (pos 0))) serving))
    ⊎ ((pread_fails disk (request minus_one (pos 0)) serving ≡ true)
        × (h : Handled Files) × (Read.rpc_handler disk calls (request minus_one (pos 0)) serving
            ≡ ok h)
        × (h.events ≡ bulk_freed ∷ buffer_freed ∷ responds minus_one ∷ state_freed ∷ [])
        × (Handlers.rpc_handler disk calls (earlier_read (request minus_one (pos 0))) serving
            ≡ fault assertion))
rpc_handler-earlier_example =
    rpc_handler-earlier disk disk-ReadLaws calls (request minus_one (pos 0)) serving calls-IsSetUp
      transfer_refused

-- Earlier servers that answer every call.
abbrev old : Earlier.Rpc
old = record {
  World = Unit {0};
  open_rpc = λ address inp w. (answered (pos 3), w);
  read_rpc = λ address inp w. (answered (pos 2, 1 ∷ 2 ∷ []), w);
  close_rpc = λ address inp w. some w;
  seek_rpc = λ address inp w. (answered (pos 0), w);
}

in_time : AnswersInTime old
unfolding IsPrompt
in_time address inp w a e = cc e

routed : ring_host env path tracking ≡ ok (codes "server1", pos 0)
unfolding client_program
routed = refl

hashed : hashed_host env path ≡ ok (pos 0)
unfolding client_program
hashed = refl

pread_now :
    remote_pread (upgraded old) env (pos 5) 8 (pos 0) tracking ≡ ok (pos 2, 1 ∷ 2 ∷ [], tracking)
unfolding client_program
pread_now = refl

remote_pread-earlier_example :
    Remote.remote_pread old env (pos 5) 8 (pos 0) (forget tracking)
    ≡ ok (pos 2, 1 ∷ 2 ∷ [], forget tracking)
remote_pread-earlier_example =
    remote_pread-earlier old env in_time env-HasServerCount (pos 5) 8 (pos 0) (pos 0) path
      (codes "server1") tracking (pos 2, 1 ∷ 2 ∷ [], tracking)
      (Reach-IsConsistent healthy env env-HasServerCount run) tracked_here routed hashed pread_now
      (λ e. absurd (cc e))

read_now : remote_read (upgraded old) env (pos 5) 8 tracking ≡ ok (pos 2, 1 ∷ 2 ∷ [], tracking)
unfolding client_program
read_now = refl

read-earlier_example :
    (p' : Process ℕ (Unit {0})) × (read libc (upgraded old) env (pos 5) 8 running
      ≡ ok (pos 2, 1 ∷ 2 ∷ [], p'))
    × (Wrappers.read libc old env (pos 5) 8 (forget_process running)
        ≡ ok (pos 2, 1 ∷ 2 ∷ [], forget_process p'))
    × (p'.local ≡ 40)
read-earlier_example =
    read-earlier libc old env libc-HasSymbols running (pos 5) 8 2 (1 ∷ 2 ∷ []) tracking in_time
      read_now (omega arith)

-- Two reads under way at once, the second answered first.
abbrev both_answered : Answers
both_answered = (2, (pos 3, 7 ∷ 8 ∷ 9 ∷ [])) ∷ (1, (pos 2, 5 ∷ 6 ∷ [])) ∷ []

both_answered-Once : Once both_answered
unfolding lookup
both_answered-Once = (refl, (refl, tt))

reads_overlap_example :
    ((call : ℕ) (ret : ℤ) (bytes : List ℕ)
      → lookup call both_answered ≡ some (ret, bytes)
      → (deliver both_answered [] >>= wait call) ≡ ok (ret, bytes))
    × (length both_answered % 2 ^ 8 ≢ 1
        → (deliver_shared both_answered reset >>= Calls.read_block) ≡ fault exited)
reads_overlap_example = reads_overlap both_answered both_answered-Once
