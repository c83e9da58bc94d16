-- ===== src/Earlier/Overlap.antt =====
-- hvac_comm_client.cpp and backup/hvac_comm_client.cpp: reads of several threads that are under way at
-- once. The later version gives each call a `done` and a `bytes_read` of its own, the earlier one has one
-- `done` and one `read_ret` for all.
use hvac_checkpoint.Common.{
  ℕ, ◌+◌, ◌%◌, ◌^◌, ◌<◌, ◌≡◌, ◌≢◌, refl, ◌∙◌, ap, Option, none, some, List, [], ◌∷◌, Bool, true,
  false, ◌==◌, length, arith, nat_eq,
}
use hvac_checkpoint.Common.Int.{ℤ}
use hvac_checkpoint.Common.Maps.{Map, lookup, insert, lookup-insert}
use hvac_checkpoint.Common.Run.{Run, ok, fault, exited, undefined, ◌>>=◌}
use hvac_checkpoint.Client.{answered}
use hvac_checkpoint.Client.Calls
use hvac_checkpoint.Earlier.{Shared, reset, signal}
use hvac_checkpoint.Earlier.Calls.{read_cb, read_block}

-- The answers to reads under way, by the call, in the order in which their callbacks run.
abbrev pub Answers : Type 0
Answers = Map ℕ (ℤ × List ℕ)

-- Every call is answered at most once.
abbrev pub Once : Answers → Type 0
Once [] = Unit {0}
Once ((call, answer) ∷ es) = (lookup call es ≡ none) × Once es

-- What `done`, `bytes_read` and the buffer of a call hold.
abbrev pub CallState : Type 0
CallState = Bool × ℤ × List ℕ

-- The callbacks of the later version, each on the state of its own call.
unfoldable pub deliver : Answers → Map ℕ CallState → Run (Map ℕ CallState)
deliver [] m = ok m
deliver ((call, answer) ∷ es) m =
    Calls.read_cb (answered answer) >>= λ st. deliver es (insert call st m)

-- The wait of one call.
unfoldable pub wait : ℕ → Map ℕ CallState → Run (ℤ × List ℕ)
wait call m = elim (lookup call m) [ none ↦ fault undefined | some st ↦ Calls.read_block st ]

-- The callbacks of the earlier version, all on the same state.
unfoldable pub deliver_shared : Answers → Shared → Run Shared
deliver_shared [] s = ok s
deliver_shared ((call, answer) ∷ es) s =
    read_cb (answered answer) s >>= λ (s', bytes). deliver_shared es s'

abbrev answered_state : Option (ℤ × List ℕ) → Option CallState → Option CallState
answered_state none before = before
answered_state (some (ret, bytes)) before = some (true, ret, bytes)

deliver_lem :
    (es : Answers) (m : Map ℕ CallState)
    → Once es
    → (m' : Map ℕ CallState) × (deliver es m ≡ ok m')
      × ((call : ℕ) → lookup call m' ≡ answered_state (lookup call es) (lookup call m))
unfolding deliver Calls.read_cb lookup
deliver_lem [] m once = (m, refl, λ call. refl)
deliver_lem ((k, (ret, bytes)) ∷ es) m once =
    let (m', run, states) = deliver_lem es (insert k (true, ret, bytes) m) once.1 in
    (
      m',
      run,
      λ call. ground (arith, states call, lookup-insert k call (true, ret, bytes) m, once.0),
    )

deliver_shared-done :
    (es : Answers) (s : Shared)
    → s.done < 2 ^ 8
    → (t : Shared) × (deliver_shared es s ≡ ok t) × (t.done ≡ (s.done + length es) % 2 ^ 8)
unfolding deliver_shared read_cb
deliver_shared-done [] s small = (s, refl, omega arith)
deliver_shared-done ((k, (ret, bytes)) ∷ es) s small =
    let (t, run, count) = deliver_shared-done es (signal ret s) (omega arith) in
    (t, run, omega (arith, count))

-- Reads are under way at once, each answered at most once, and all answers come before the waits. In the
-- later version every call returns its own answer with its own bytes, whatever the order of the answers.
-- In the earlier version no wait returns, and the process exits, unless the number of the answers is 1
-- modulo 256.
pub reads_overlap :
    (es : Answers)
    → Once es
    → ((call : ℕ) (ret : ℤ) (bytes : List ℕ)
        → lookup call es ≡ some (ret, bytes)
        → (deliver es [] >>= wait call) ≡ ok (ret, bytes))
      × (length es % 2 ^ 8 ≢ 1 → (deliver_shared es reset >>= read_block) ≡ fault exited)
unfolding wait Calls.read_block read_block lookup
reads_overlap es once =
    let (m, run, states) = deliver_lem es [] once in
    let (t, shared, count) = deliver_shared-done es reset (omega arith) in
    (
      (λ call ret bytes mine.
          let mine' : lookup call m ≡ some (true, ret, bytes) =
            states call ∙ ap (λ (o : Option (ℤ × List ℕ)). answered_state o none) mine in
          ground (arith, run, mine')),
      (λ others.
          let not_one : (t.done == 1) ≡ false = ground (arith, count, others) in
          ground (arith, shared, not_one)),
    )
