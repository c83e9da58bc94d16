-- ===== src/Earlier/Mover.antt =====
-- backup/hvac_data_mover.cpp: the earlier data mover thread, which waits for a signal before it looks at
-- the queue. The copy of one file and what the close handler does under the lock are the later ones.
pub mod Strands
use hvac_checkpoint.Common.{ℕ, zero, suc, List, [], ◌∷◌, ◌++◌}
use hvac_checkpoint.Common.Text.{Text}
use hvac_checkpoint.Posix.{Posix}
use hvac_checkpoint.Server.{start}
use hvac_checkpoint.Server.Mover.{move_file}
use hvac_checkpoint.Server.Mover.Thread.{
  waiting, testing, moving, Thread, Event, queues, goes_on, wakes, woken, push,
}

module _ (os : Posix) (nvmepath : Text) where
  -- A step of the thread. When its wait has ended it takes over the queue, whatever is there, and after
  -- the copies it waits again.
  unfoldable pub go_on : Thread os.Fs → Thread os.Fs
  go_on t = elim t.at [
    | waiting ↦ t
    | testing ↦ record t {
      server = record t.server {
        data_queue = [];
        local_list = t.server.local_list ++ t.server.data_queue;
      };
      at = moving;
    }
    | moving ↦ elim t.server.local_list [
      | [] ↦ record t { at = waiting }
      | path ∷ paths ↦ record t {
        server = move_file os nvmepath path (record t.server { local_list = paths });
        handled = t.handled ++ path ∷ [];
      }
    ]
  ]

  unfoldable pub step : Event → Thread os.Fs → Thread os.Fs
  step (queues path) t = push path t
  step goes_on t = go_on t
  step wakes t = record t { at = woken t.at }

  unfoldable pub run : List Event → Thread os.Fs → Thread os.Fs
  run [] t = t
  run (e ∷ es) t = run es (step e t)

  -- The thread alone.
  unfoldable pub iterate : ℕ → Thread os.Fs → Thread os.Fs
  iterate zero t = t
  iterate (suc n) t = iterate n (go_on t)

-- The thread when the server starts.
abbrev pub thread : {Fs : Type 0} → Fs → Thread Fs
thread fs = record { server = start fs; at = waiting; handled = [] }
