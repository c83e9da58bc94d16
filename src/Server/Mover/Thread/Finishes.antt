-- ===== src/Server/Mover/Thread/Finishes.antt =====
-- hvac_data_mover.cpp: the thread deals with every path that is queued.
use hvac_checkpoint.Common.{
  ℕ, zero, suc, ◌≡◌, refl, sym, ap, ◌∙◌, inl, inr, List, [], ◌∷◌, ◌++◌, append_assoc, append-nil,
}
use mathlib.Core.Path.{subst}
use hvac_checkpoint.Common.Text.{Text}
use hvac_checkpoint.Posix.{Posix}
use hvac_checkpoint.Server.{Server}
use hvac_checkpoint.Server.Mover.{move_file}
use hvac_checkpoint.Server.Mover.Thread.{
  waiting, testing, moving, Thread, Event, queues, goes_on, wakes, push, go_on, step, run, iterate,
  thread, queued,
}
use hvac_checkpoint.Server.Mover.Thread.Order.{
  IsSound, At-cases, List-cases, woken-never_waiting, woken-moving, move_file-queues, go_on-sleeps,
  go_on-takes, go_on-ends, go_on-moves, go_on-IsSound, push-IsSound,
}

module _ (os : Posix) (nvmepath : Text) where
  run-IsSound :
      (paths : List Text) (es : List Event) (t : Thread os.Fs)
      → IsSound paths t
      → IsSound (paths ++ queued es) (run os nvmepath es t)
  unfolding run step
  run-IsSound paths [] t v = rw (append-nil paths) v
  run-IsSound paths (queues path ∷ es) t v =
      rw (← append_assoc paths (path ∷ []) (queued es)) (
        run-IsSound (paths ++ path ∷ []) es (push path t) (push-IsSound os nvmepath paths path t v))
  run-IsSound paths (goes_on ∷ es) t v =
      run-IsSound paths es (go_on os nvmepath t) (go_on-IsSound os nvmepath paths t v)
  run-IsSound paths (wakes ∷ es) t v = run-IsSound paths es (step os nvmepath wakes t) (record {
    kept = v.kept;
    idle = λ e. absurd (woken-never_waiting t.at e);
    taken = λ ne. v.taken (woken-moving t.at ne);
  })

  -- In every order of the steps of handlers and thread, with wakes that no signal caused: the paths
  -- queued are, in their order, those dealt with, those at hand and those in the queue; and when the
  -- thread waits, the queue is empty, so no signal is lost.
  pub thread-IsSound :
      (fs : os.Fs) (es : List Event) → IsSound (queued es) (run os nvmepath es (thread fs))
  thread-IsSound fs es =
      run-IsSound [] es (thread fs) (record { kept = refl; idle = λ e. refl; taken = λ ne. refl })

  -- The thread alone comes to wait.
  abbrev ComesToWait : Thread os.Fs → Type 0
  ComesToWait t = (n : ℕ) × ((iterate os nvmepath n t).at ≡ waiting)

  go_on-ComesToWait : (t : Thread os.Fs) → ComesToWait (go_on os nvmepath t) → ComesToWait t
  unfolding iterate
  go_on-ComesToWait t (n, waits) = (suc n, waits)

  waiting-ComesToWait : (t : Thread os.Fs) → t.at ≡ waiting → ComesToWait t
  unfolding iterate
  waiting-ComesToWait t waits = (0, waits)

  empty-ComesToWait : (t : Thread os.Fs) → t.at ≡ testing → t.server.data_queue ≡ [] → ComesToWait t
  empty-ComesToWait t tests empty = go_on-ComesToWait t (
      waiting-ComesToWait (go_on os nvmepath t)
        (ap (λ (u : Thread os.Fs). u.at) (go_on-sleeps os nvmepath t tests empty)))

  -- The copies, by what follows them.
  moving-ComesToWait :
      (q : List Text)
      → ((t : Thread os.Fs) → t.at ≡ testing → t.server.data_queue ≡ q → ComesToWait t)
      → (l : List Text) (t : Thread os.Fs) → t.at ≡ moving
      → t.server.local_list ≡ l
      → t.server.data_queue ≡ q
      → ComesToWait t
  moving-ComesToWait q after [] t moves list queue = go_on-ComesToWait t (
      subst ComesToWait (sym (go_on-ends os nvmepath t moves list))
        (after (record t { at = testing }) refl queue))
  moving-ComesToWait q after (p ∷ ps) t moves list queue =
      let s : Server os.Fs = record t.server { local_list = ps } in
      let (queue', list') = move_file-queues os nvmepath p s in
      let t' : Thread os.Fs = record t {
        server = move_file os nvmepath p s;
        handled = t.handled ++ p ∷ [];
      } in
      go_on-ComesToWait t (
        subst ComesToWait (sym (go_on-moves os nvmepath p ps t moves list))
          (moving-ComesToWait q after ps t' moves list' (queue' ∙ queue)))

  testing-ComesToWait : (t : Thread os.Fs) → t.at ≡ testing → ComesToWait t
  testing-ComesToWait t tests = elim (List-cases t.server.data_queue) [
    | inl empty ↦ empty-ComesToWait t tests empty
    | inr (p, ps, some_queued) ↦
        let l = t.server.local_list ++ p ∷ ps in
        let t' : Thread os.Fs = record t {
          server = record t.server { data_queue = []; local_list = l };
          at = moving;
        } in
        go_on-ComesToWait t (
          subst ComesToWait (sym (go_on-takes os nvmepath p ps t tests some_queued))
            (moving-ComesToWait [] empty-ComesToWait l t' refl refl refl))
  ]

  all-ComesToWait : (t : Thread os.Fs) → ComesToWait t
  all-ComesToWait t = elim (At-cases t.at) [
    | inl waits ↦ waiting-ComesToWait t waits
    | inr (inl tests) ↦ testing-ComesToWait t tests
    | inr (inr moves) ↦
        moving-ComesToWait t.server.data_queue (λ u tests queue. testing-ComesToWait u tests)
          t.server.local_list t moves refl refl
  ]

  iterate-IsSound :
      (paths : List Text) (n : ℕ) (t : Thread os.Fs)
      → IsSound paths t
      → IsSound paths (iterate os nvmepath n t)
  unfolding iterate
  iterate-IsSound paths zero t v = v
  iterate-IsSound paths (suc n) t v =
      iterate-IsSound paths n (go_on os nvmepath t) (go_on-IsSound os nvmepath paths t v)

  -- From every state that the steps of handlers and thread lead to, the thread alone comes, after some
  -- number of steps, to wait with all paths dealt with that were queued, in their order and each as
  -- often as it was queued.
  pub thread-handles_all :
      (fs : os.Fs) (es : List Event)
      → (n : ℕ) × ((iterate os nvmepath n (run os nvmepath es (thread fs))).at ≡ waiting)
        × ((iterate os nvmepath n (run os nvmepath es (thread fs))).handled ≡ queued es)
  thread-handles_all fs es =
      let t = run os nvmepath es (thread fs) in
      let (n, waits) = all-ComesToWait t in
      let v = iterate-IsSound (queued es) n t (thread-IsSound fs es) in
      let u = iterate os nvmepath n t in
      let none_queued = v.idle waits in
      let none_taken = v.taken (λ e. absurd (cc (waits, e))) in
      (
        n,
        waits,
        sym (append-nil u.handled)
            ∙ ap (λ (l : List Text). u.handled ++ l)
                (sym none_queued
                  ∙ ap (λ (l : List Text). l ++ u.server.data_queue) (sym none_taken))
            ∙ v.kept,
      )
