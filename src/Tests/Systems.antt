-- ===== src/Tests/Systems.antt =====
-- The theorems on the progress thread, the logging system and the thread of the data mover.
use hvac_checkpoint.Common.{
  List, [], ◌∷◌, ℕ, zero, suc, ◌+◌, ◌≤◌, ◌<◌, ◌≡◌, refl, ◌⊎◌, ◌++◌, true, false, Bool, none, some,
  leb, arith,
}
use hvac_checkpoint.Common.Int.{pos}
use hvac_checkpoint.Common.Text.{Text, codes}
use hvac_checkpoint.Common.Decimal.{to_string}
use hvac_checkpoint.Common.Run.{ok, fault, undefined}
use hvac_checkpoint.Progress.{Mercury, outer, inner, progress_fn}
use hvac_checkpoint.Progress.Returns.{progress_fn_stops}
use hvac_checkpoint.Logging.{
  LogEnv, LogSettings, or_default, init_logging, Io, finish, opens, writes, closes,
  log_preformatter_internal,
}
use hvac_checkpoint.Logging.Width.{IsInRange, init_logging-cases}
use hvac_checkpoint.Logging.Line.{real_io, log_preformatter_internal-real_io}
use hvac_checkpoint.Server.Mover.Thread.{
  waiting, Event, queues, goes_on, wakes, run, iterate, thread, queued,
}
use hvac_checkpoint.Server.Mover.Thread.Order.{IsSound}
use hvac_checkpoint.Server.Mover.Thread.Finishes.{thread-IsSound, thread-handles_all}
use hvac_checkpoint.Tests.Disk.{disk, Files}
use hvac_checkpoint.Tests.Clients.{env, healthy}
use hvac_checkpoint.Tests.Processes.{libc, libc-HasSymbols, running}

-- A clock, and the callbacks that wait: each progress takes a unit of time and completes two calls.
-- The flag is set at the time 3.
abbrev trigger : ℕ × ℕ → Bool × ℕ × (ℕ × ℕ)
trigger (clock, zero) = (true, 0, (clock, 0))
trigger (clock, suc ready) = (true, 1, (clock, ready))

abbrev mercury : Mercury
mercury = record {
  Ctx = ℕ × ℕ;
  trigger = trigger;
  progress = λ c. (c.0 + 1, 2);
  shutting_down = λ c. leb 3 c.0;
}

flag_stays :
    (c : ℕ × ℕ) → mercury.shutting_down c ≡ true → mercury.shutting_down (trigger c).2 ≡ true
flag_stays (clock, zero) on = on
flag_stays (clock, suc ready) on = on

returned : progress_fn mercury 20 outer (2, 0) ≡ some (3, 2)
unfolding progress_fn
returned = refl

-- A thread that returned at the time 3; and one at the time 4, with five callbacks waiting.
progress_fn_stops_example :
    (mercury.shutting_down (3, 2) ≡ true)
    × (progress_fn mercury 22 outer (4, 5) ≡ some (4, 5))
    × (progress_fn mercury 22 inner (4, 5) ≡ some (4, 4))
progress_fn_stops_example =
    progress_fn_stops mercury flag_stays 20 outer (2, 0) (3, 2) (4, 5) returned refl

abbrev log_env : LogEnv
log_env = record {
  hvac_log_level = some (codes "900");
  hvac_log_dir = none;
  hvac_log_prefix = some (codes "job");
  pid = 4242;
}

init_logging-cases_example :
    ((4242 < 100000)
      × (s : LogSettings) × (init_logging
            (pos 500)
            (codes ".")
            (codes "hvac_server_log")
            true
            log_env
          ≡ ok (some s))
      × (s.files_prefix
          ≡ or_default (codes "hvac_server_log") (some (codes "job"))
            ++ (codes "." ++ to_string 4242))
      × IsInRange s.priority)
    ⊎ ((100000 ≤ 4242)
        × (init_logging (pos 500) (codes ".") (codes "hvac_server_log") true log_env
            ≡ fault undefined))
init_logging-cases_example =
    init_logging-cases 500 (codes ".") (codes "hvac_server_log") log_env (omega arith)

-- A log file that is opened, written and closed.
abbrev appender : Text → Io
appender line =
    opens (codes "/data/job.log") 1 (pos 0) λ fd. writes fd line λ n. closes fd λ ret. finish

log_preformatter_internal-real_io_example :
    log_preformatter_internal libc healthy env appender (codes "Opened") running
    ≡ ok (record running { local = 40; logging = false })
unfolding real_io
log_preformatter_internal-real_io_example =
    log_preformatter_internal-real_io libc healthy env libc-HasSymbols appender (codes "Opened")
      running

-- Two files are queued, the second while the first is at hand.
abbrev schedule : List Event
schedule =
    goes_on
    ∷ queues (codes "/data/a")
    ∷ goes_on
    ∷ queues (codes "/data/b")
    ∷ goes_on
    ∷ wakes
    ∷ goes_on
    ∷ []

abbrev nvme : Text
nvme = codes "/bb/XXXXXX"

abbrev stored : Files
stored = (codes "/data/a", 1 ∷ []) ∷ []

thread-IsSound_example : IsSound (queued schedule) (run disk nvme schedule (thread stored))
thread-IsSound_example = thread-IsSound disk nvme stored schedule

thread-handles_all_example :
    (n : ℕ) × ((iterate disk nvme n (run disk nvme schedule (thread stored))).at ≡ waiting)
    × ((iterate disk nvme n (run disk nvme schedule (thread stored))).handled
        ≡ codes "/data/a" ∷ codes "/data/b" ∷ [])
thread-handles_all_example = thread-handles_all disk nvme stored schedule
