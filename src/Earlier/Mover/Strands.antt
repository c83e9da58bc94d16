-- ===== src/Earlier/Mover/Strands.antt =====
-- backup/hvac_data_mover.cpp: a path that is queued during the copies waits for the close after it.
use hvac_checkpoint.Common.{
  ℕ, zero, suc, ◌≡◌, refl, sym, ap, ◌∙◌, List, [], ◌∷◌, ◌++◌, append_assoc, append-nil, arith,
}
use mathlib.Core.Path.{subst}
use hvac_checkpoint.Common.Text.{Text}
use hvac_checkpoint.Posix.{Posix}
use hvac_checkpoint.Server.{Server}
use hvac_checkpoint.Server.Mover.{move_file}
use hvac_checkpoint.Server.Mover.Thread.{waiting, moving, Thread, push}
use hvac_checkpoint.Server.Mover.Thread.Order.{move_file-queues}
use hvac_checkpoint.Earlier.Mover.{go_on, iterate}

module _ (os : Posix) (nvmepath : Text) where
  -- The thread waits, with these paths in the queue and those dealt with.
  record WaitsWith (queue handled : List Text) (t : Thread os.Fs) : Type 0 where
    waits : t.at ≡ waiting
    none_taken : t.server.local_list ≡ []
    queue_is : t.server.data_queue ≡ queue
    handled_is : t.handled ≡ handled

  Comes : List Text → List Text → Thread os.Fs → Type 0
  Comes queue handled t = (n : ℕ) × WaitsWith queue handled (iterate os nvmepath n t)

  go_on-Comes :
      (queue handled : List Text) (t u : Thread os.Fs)
      → go_on os nvmepath t ≡ u
      → Comes queue handled u
      → Comes queue handled t
  unfolding Comes iterate
  go_on-Comes queue handled t u e (n, there) = (
    suc n,
    subst (λ (v : Thread os.Fs). WaitsWith queue handled (iterate os nvmepath n v)) (sym e) there,
  )

  go_on-ends :
      (t : Thread os.Fs)
      → t.at ≡ moving
      → t.server.local_list ≡ []
      → go_on os nvmepath t ≡ record t { at = waiting }
  unfolding go_on
  go_on-ends t moves empty = ground (arith, moves, empty)

  go_on-moves :
      (p : Text) (ps : List Text) (t : Thread os.Fs)
      → t.at ≡ moving
      → t.server.local_list ≡ p ∷ ps
      → go_on os nvmepath t ≡ record t {
        server = move_file os nvmepath p (record t.server { local_list = ps });
        handled = t.handled ++ p ∷ [];
      }
  unfolding go_on
  go_on-moves p ps t moves list = ground (arith, moves, list)

  moving-Comes :
      (l : List Text) (t : Thread os.Fs)
      → t.at ≡ moving
      → t.server.local_list ≡ l
      → Comes t.server.data_queue (t.handled ++ l) t
  unfolding Comes iterate
  moving-Comes [] t moves list =
      go_on-Comes t.server.data_queue (t.handled ++ []) t (record t { at = waiting })
        (go_on-ends t moves list)
        (
          0,
          record {
            waits = refl;
            none_taken = list;
            queue_is = refl;
            handled_is = sym (append-nil t.handled);
          },
        )
  moving-Comes (p ∷ ps) t moves list =
      let s : Server os.Fs = record t.server { local_list = ps } in
      let (queue, list') = move_file-queues os nvmepath p s in
      let u : Thread os.Fs = record t {
        server = move_file os nvmepath p s;
        handled = t.handled ++ p ∷ [];
      } in
      go_on-Comes t.server.data_queue (t.handled ++ p ∷ ps) t u (go_on-moves p ps t moves list) (
        subst (λ (q : List Text). Comes q (t.handled ++ p ∷ ps) u) queue
          (subst (λ (h : List Text). Comes u.server.data_queue h u)
            (append_assoc t.handled (p ∷ []) ps) (moving-Comes ps u moves list')))

  iterate-waiting : (m : ℕ) (t : Thread os.Fs) → t.at ≡ waiting → iterate os nvmepath m t ≡ t
  unfolding iterate go_on
  iterate-waiting zero t waits = refl
  iterate-waiting (suc m) t waits =
      let same : go_on os nvmepath t ≡ t = ground (arith, waits) in
      ap (iterate os nvmepath m) same ∙ iterate-waiting m t waits

  -- After a signal a waiting thread takes the whole queue, and comes to wait with nothing in it.
  push-Comes :
      (path : Text) (queue handled : List Text) (t : Thread os.Fs)
      → WaitsWith queue handled t
      → Comes [] (handled ++ (queue ++ path ∷ [])) (push path t)
  unfolding go_on
  push-Comes path queue handled t there =
      let s = t.server in
      let l = s.data_queue ++ path ∷ [] in
      let u : Thread os.Fs = record t {
        server = record s { data_queue = []; local_list = s.local_list ++ l };
        at = moving;
      } in
      let taken : go_on os nvmepath (push path t) ≡ u = ground (arith, there.waits) in
      let all : t.handled ++ (s.local_list ++ l) ≡ handled ++ (queue ++ path ∷ []) =
        ap (λ (x : List Text). t.handled ++ (x ++ l)) there.none_taken
        ∙ ap (λ (x : List Text). t.handled ++ (x ++ path ∷ [])) there.queue_is
        ∙ ap (λ (x : List Text). x ++ (queue ++ path ∷ [])) there.handled_is in
      go_on-Comes [] (handled ++ (queue ++ path ∷ [])) (push path t) u taken
        (subst (λ (h : List Text). Comes [] h u) all (moving-Comes (s.local_list ++ l) u refl refl))

  -- A path that is queued while the thread is among its copies is left behind: the thread alone comes,
  -- after some number of steps, to wait with the path in the queue, behind those that were there, and no
  -- further step changes that. When the next path is queued, the thread alone deals with those too, in
  -- their order, and comes to wait with an empty queue.
  pub strands :
      (path : Text) (t : Thread os.Fs)
      → t.at ≡ moving
      → (n : ℕ) × ((iterate os nvmepath n (push path t)).at ≡ waiting)
        × ((iterate os nvmepath n (push path t)).server.data_queue
            ≡ t.server.data_queue ++ path ∷ [])
        × ((m : ℕ)
            → iterate os nvmepath m (iterate os nvmepath n (push path t))
              ≡ iterate os nvmepath n (push path t))
        × ((next : Text)
            → (k : ℕ) × ((iterate os nvmepath k
                  (push next (iterate os nvmepath n (push path t)))).at
                ≡ waiting)
              × ((iterate os nvmepath k
                    (push next (iterate os nvmepath n (push path t)))).server.data_queue
                  ≡ [])
              × ((iterate os nvmepath k (push next (iterate os nvmepath n (push path t)))).handled
                  ≡ (t.handled ++ t.server.local_list)
                    ++ ((t.server.data_queue ++ path ∷ []) ++ next ∷ [])))
  unfolding Comes
  strands path t moves =
      let t' = push path t in
      let still : t'.at ≡ moving = ground (arith, moves) in
      let (n, there) = moving-Comes t.server.local_list t' still refl in
      let left = iterate os nvmepath n t' in
      (
        n,
        there.waits,
        there.queue_is,
        (λ m. iterate-waiting m left there.waits),
        (λ next.
            let (k, end) = push-Comes next _ _ left there in
            (k, end.waits, end.queue_is, end.handled_is)),
      )
