-- ===== src/Server/Mover/Thread.antt =====
-- hvac_data_mover.cpp: the data mover as a thread beside the handlers. `data_mutex` makes a push with
-- its signal, and a test of the queue with the taking of it, one step each.
pub mod Order
pub mod Finishes
use hvac_checkpoint.Common.{ℕ, zero, suc, List, [], ◌∷◌, ◌++◌}
use hvac_checkpoint.Common.Text.{Text}
use hvac_checkpoint.Posix.{Posix}
use hvac_checkpoint.Server.{Server, start}
use hvac_checkpoint.Server.Mover.{move_file}

-- Where the thread is: in `pthread_cond_wait`, before the test of the queue, or among the copies.
pub data At : Type 0 where
  waiting testing moving : At

-- The thread with the server's state, and the paths that it has dealt with, copied or not.
pub record Thread (Fs : Type 0) : Type 0 where
  pub server : Server Fs
  pub at : At
  pub handled : List Text

-- What happens beside and in the thread: a close handler queues a path and signals, the thread goes on
-- by a step, or its wait ends without a signal.
pub data Event : Type 0 where
  queues : Text → Event
  goes_on wakes : Event

abbrev pub woken : At → At
woken waiting = testing
woken testing = testing
woken moving = moving

-- The part of the close handler under the lock.
abbrev pub push : {Fs : Type 0} → Text → Thread Fs → Thread Fs
push path t = record t {
  server = record t.server { data_queue = t.server.data_queue ++ path ∷ [] };
  at = woken t.at;
}

module _ (os : Posix) (nvmepath : Text) where
  -- A step of `hvac_data_mover_fn`; a wait does not end by itself.
  unfoldable pub go_on : Thread os.Fs → Thread os.Fs
  go_on t = elim t.at [
    | waiting ↦ t
    | testing ↦ elim t.server.data_queue [
      | [] ↦ record t { at = waiting }
      | path ∷ paths ↦ record t {
        server = record t.server {
          data_queue = [];
          local_list = t.server.local_list ++ path ∷ paths;
        };
        at = moving;
      }
    ]
    | moving ↦ elim t.server.local_list [
      | [] ↦ record t { at = testing }
      | path ∷ paths ↦ record t {
        server = move_file os nvmepath path (record t.server { local_list = paths });
        handled = t.handled ++ path ∷ [];
      }
    ]
  ]

  unfoldable pub step : Event → Thread os.Fs → Thread os.Fs
  step (queues path) t = push path t
  step goes_on t = go_on t
  step wakes t = record t { at = woken t.at }

  unfoldable pub run : List Event → Thread os.Fs → Thread os.Fs
  run [] t = t
  run (e ∷ es) t = run es (step e t)

  -- The thread alone.
  unfoldable pub iterate : ℕ → Thread os.Fs → Thread os.Fs
  iterate zero t = t
  iterate (suc n) t = iterate n (go_on t)

-- The thread when the server starts.
abbrev pub thread : {Fs : Type 0} → Fs → Thread Fs
thread fs = record { server = start fs; at = testing; handled = [] }

-- The paths that the handlers queue, in order.
abbrev pub queued : List Event → List Text
queued [] = []
queued (queues path ∷ es) = path ∷ queued es
queued (goes_on ∷ es) = queued es
queued (wakes ∷ es) = queued es
