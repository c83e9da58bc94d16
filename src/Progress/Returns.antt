-- ===== src/Progress/Returns.antt =====
-- hvac_comm.cpp: the progress thread around the shutdown.
use hvac_checkpoint.Common.{
  ℕ, zero, suc, ◌≡◌, inl, inr, true, not, ◌&&◌, some, ◌==◌, Bool-cases, arith,
}
use hvac_checkpoint.Progress.{Mercury, Loop, outer, inner, progress_fn}

module _ (m : Mercury) where
  -- The thread returns only once the flag is set.
  progress_fn-shutting_down :
      (fuel : ℕ) (at : Loop) (c c' : m.Ctx)
      → progress_fn m fuel at c ≡ some c'
      → m.shutting_down c' ≡ true
  unfolding progress_fn
  progress_fn-shutting_down zero at c c' e = absurd (ground arith)
  progress_fn-shutting_down (suc fuel) outer c c' e =
      ground (arith, progress_fn-shutting_down fuel inner c c')
  progress_fn-shutting_down (suc fuel) inner c c' e =
      let c₁ = (m.trigger c).2 in
      let goes_on = (m.trigger c).0 && not ((m.trigger c).1 == 0) && not (m.shutting_down c₁) in
      elim (Bool-cases goes_on) [
        | inl again ↦ progress_fn-shutting_down fuel inner c₁ c' (ground (arith, again))
        | inr stops ↦ elim (Bool-cases (m.shutting_down c₁)) [
          | inl on ↦ progress_fn-shutting_down fuel outer c₁ c' (ground (arith, stops, on))
          | inr off ↦
              progress_fn-shutting_down fuel outer (m.progress c₁) c' (ground (arith, stops, off))
        ]
      ]

  -- Where a trigger does not take the shutdown flag back: the thread returns only with the flag set.
  -- And in any state where it is set, the thread returns from the test of the outer loop with no further
  -- call, and from the head of the inner loop after exactly one more `HG_Trigger` and no `HG_Progress`,
  -- however many callbacks wait.
  pub progress_fn_stops :
      ((c : m.Ctx) → m.shutting_down c ≡ true → m.shutting_down (m.trigger c).2 ≡ true)
      → (fuel : ℕ) (at : Loop) (c c' s : m.Ctx) → progress_fn m fuel at c ≡ some c'
      → m.shutting_down s ≡ true
      → (m.shutting_down c' ≡ true)
        × (progress_fn m (suc (suc fuel)) outer s ≡ some s)
        × (progress_fn m (suc (suc fuel)) inner s ≡ some (m.trigger s).2)
  unfolding progress_fn
  progress_fn_stops stays fuel at c c' s run on =
      (progress_fn-shutting_down fuel at c c' run, ground arith, ground (arith, stays s on))
