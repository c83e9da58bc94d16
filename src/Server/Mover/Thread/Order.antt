-- ===== src/Server/Mover/Thread/Order.antt =====
-- hvac_data_mover.cpp: no path that a handler queues is lost or overtaken, whatever the order of the
-- steps of the handlers and of the thread.
use hvac_checkpoint.Common.{
  ◌≡◌, ◌≢◌, ◌⊎◌, refl, sym, ap, ◌∙◌, inl, inr, List, [], ◌∷◌, ◌++◌, append_assoc, append-nil,
  Bool-cases, arith,
}
use mathlib.Core.Path.{subst}
use hvac_checkpoint.Common.Text.{Text, c_str, codes}
use hvac_checkpoint.Posix.{Posix}
use hvac_checkpoint.Server.{Server}
use hvac_checkpoint.Server.Mover.{filename, move_file}
use hvac_checkpoint.Server.Mover.Thread.{At, waiting, testing, moving, Thread, woken, push, go_on}

-- The paths are those that were dealt with, then those at hand, then those in the queue; a thread that
-- waits has an empty queue, and one that does not copy has nothing at hand.
pub record IsSound {Fs : Type 0} (paths : List Text) (t : Thread Fs) : Type 0 where
  pub kept : t.handled ++ (t.server.local_list ++ t.server.data_queue) ≡ paths
  pub idle : t.at ≡ waiting → t.server.data_queue ≡ []
  pub taken : t.at ≢ moving → t.server.local_list ≡ []

pub At-cases : (a : At) → (a ≡ waiting) ⊎ ((a ≡ testing) ⊎ (a ≡ moving))
At-cases waiting = inl refl
At-cases testing = inr (inl refl)
At-cases moving = inr (inr refl)

pub List-cases : (l : List Text) → (l ≡ []) ⊎ ((p : Text) × (ps : List Text) × (l ≡ p ∷ ps))
List-cases [] = inl refl
List-cases (p ∷ ps) = inr (p, ps, refl)

pub woken-never_waiting : (a : At) → woken a ≢ waiting
woken-never_waiting waiting e = absurd (cc e)
woken-never_waiting testing e = absurd (cc e)
woken-never_waiting moving e = absurd (cc e)

pub woken-moving : (a : At) → woken a ≢ moving → a ≢ moving
woken-moving a ne e = ne (rw e refl)

module _ (os : Posix) (nvmepath : Text) where
  -- A copy leaves the queue and the list alone.
  pub move_file-queues :
      (path : Text) (s : Server os.Fs)
      → ((move_file os nvmepath path s).data_queue ≡ s.data_queue)
        × ((move_file os nvmepath path s).local_list ≡ s.local_list)
  unfolding move_file
  move_file-queues path s =
      let fs = (os.make_temp_dir (c_str nvmepath) s.fs).1 in
      let dirpath = (os.make_temp_dir (c_str nvmepath) s.fs).0 in
      let target = dirpath ++ (codes "/" ++ filename (c_str path)) in
      elim (Bool-cases (os.copy_file path target fs).0) [
        | inl copied ↦ (ground (arith, copied), ground (arith, copied))
        | inr failed ↦ (ground (arith, failed), ground (arith, failed))
      ]

  -- What a step does, by where the thread is and what it finds.
  go_on-waiting : (t : Thread os.Fs) → t.at ≡ waiting → go_on os nvmepath t ≡ t
  unfolding go_on
  go_on-waiting t e = ground (arith, e)

  pub go_on-sleeps :
      (t : Thread os.Fs)
      → t.at ≡ testing
      → t.server.data_queue ≡ []
      → go_on os nvmepath t ≡ record t { at = waiting }
  unfolding go_on
  go_on-sleeps t e empty = ground (arith, e, empty)

  pub go_on-takes :
      (p : Text) (ps : List Text) (t : Thread os.Fs)
      → t.at ≡ testing
      → t.server.data_queue ≡ p ∷ ps
      → go_on os nvmepath t ≡ record t {
        server = record t.server { data_queue = []; local_list = t.server.local_list ++ p ∷ ps };
        at = moving;
      }
  unfolding go_on
  go_on-takes p ps t e some_queued = ground (arith, e, some_queued)

  pub go_on-ends :
      (t : Thread os.Fs)
      → t.at ≡ moving
      → t.server.local_list ≡ []
      → go_on os nvmepath t ≡ record t { at = testing }
  unfolding go_on
  go_on-ends t e empty = ground (arith, e, empty)

  pub go_on-moves :
      (p : Text) (ps : List Text) (t : Thread os.Fs)
      → t.at ≡ moving
      → t.server.local_list ≡ p ∷ ps
      → go_on os nvmepath t ≡ record t {
        server = move_file os nvmepath p (record t.server { local_list = ps });
        handled = t.handled ++ p ∷ [];
      }
  unfolding go_on
  go_on-moves p ps t e at_hand = ground (arith, e, at_hand)

  pub go_on-IsSound :
      (paths : List Text) (t : Thread os.Fs) → IsSound paths t → IsSound paths (go_on os nvmepath t)
  go_on-IsSound paths t v = elim (At-cases t.at) [
    | inl waits ↦ subst (IsSound paths) (sym (go_on-waiting t waits)) v
    | inr (inl tests) ↦
        let nothing = v.taken (λ e. absurd (cc (tests, e))) in
        elim (List-cases t.server.data_queue) [
          | inl empty ↦
              subst (IsSound paths) (sym (go_on-sleeps t tests empty))
                (record { kept = v.kept; idle = λ e. empty; taken = λ ne. nothing })
          | inr (p, ps, some_queued) ↦
              subst (IsSound paths) (sym (go_on-takes p ps t tests some_queued)) (record {
                kept =
                    ap (λ (l : List Text). t.handled ++ l)
                      (append-nil (t.server.local_list ++ p ∷ ps))
                    ∙ ap (λ (q : List Text). t.handled ++ (t.server.local_list ++ q))
                        (sym some_queued)
                    ∙ v.kept;
                idle = λ e. absurd (cc e);
                taken = λ ne. absurd (ne refl);
              })
        ]
    | inr (inr moves) ↦ elim (List-cases t.server.local_list) [
      | inl empty ↦
          subst (IsSound paths) (sym (go_on-ends t moves empty))
            (record { kept = v.kept; idle = λ e. absurd (cc e); taken = λ ne. empty })
      | inr (p, ps, at_hand) ↦
          let s : Server os.Fs = record t.server { local_list = ps } in
          let (queue, list) = move_file-queues p s in
          subst (IsSound paths) (sym (go_on-moves p ps t moves at_hand)) (record {
            kept =
                rw (queue, list, append_assoc t.handled (p ∷ []) (ps ++ t.server.data_queue))
                  (ap (λ (l : List Text). t.handled ++ (l ++ t.server.data_queue)) (sym at_hand)
                    ∙ v.kept);
            idle = λ e. absurd (cc (moves, e));
            taken = λ ne. absurd (ne moves);
          })
    ]
  ]

  pub push-IsSound :
      (paths : List Text) (path : Text) (t : Thread os.Fs)
      → IsSound paths t
      → IsSound (paths ++ path ∷ []) (push path t)
  push-IsSound paths path t v = record {
    kept =
        rw
          (
            ← append_assoc t.server.local_list t.server.data_queue (path ∷ []),
            ← append_assoc t.handled (t.server.local_list ++ t.server.data_queue) (path ∷ []),
          )
          (ap (λ (l : List Text). l ++ path ∷ []) v.kept);
    idle = λ e. absurd (woken-never_waiting t.at e);
    taken = λ ne. v.taken (woken-moving t.at ne);
  }
