-- ===== src/Progress.antt =====
-- hvac_comm.cpp: the progress thread of Mercury, `hvac_progress_fn`, which runs the callbacks of
-- completed calls until the process shuts down.
pub mod Returns
use hvac_checkpoint.Common.{ℕ, zero, suc, Bool, not, ◌&&◌, Option, some, none, if◌then◌else◌, ◌==◌}

-- Mercury as the thread meets it, on a state of the context and of all that goes on beside the thread:
-- `HG_Trigger`, by whether it succeeds and how many callbacks it ran, `HG_Progress`, and the flag
-- `hvac_progress_thread_shutdown_flags`, which `hvac_shutdown_comm` sets in another thread.
pub record Mercury : Type 1 where
  pub Ctx : Type 0
  pub trigger : Ctx → Bool × ℕ × Ctx
  pub progress : Ctx → Ctx
  pub shutting_down : Ctx → Bool

-- Where the thread is: at the test of the outer loop, or at the head of the inner one.
pub data Loop : Type 0 where
  outer inner : Loop

module _ (m : Mercury) where
  open m use {Ctx, trigger, progress, shutting_down}

  -- The thread, on one unit of fuel for each test of the outer loop and each trigger.
  unfoldable pub progress_fn : ℕ → Loop → Ctx → Option Ctx
  progress_fn zero at c = none
  progress_fn (suc fuel) outer c =
      let body = progress_fn fuel inner c in if shutting_down c then some c else body
  progress_fn (suc fuel) inner c =
      let (success, actual_count, c') = trigger c in
      let again = progress_fn fuel inner c' in
      let next = progress_fn fuel outer (if shutting_down c' then c' else progress c') in
      if success && not (actual_count == 0) && not (shutting_down c') then again else next
