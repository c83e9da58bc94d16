-- ===== src/Logging.antt =====
-- hvac_logging.c: the settings of the logging system and the making of a log line. log4c is no code of
-- the repository: what it does with the C library for a line is the parameter `appender`.
pub mod Width
pub mod Line
use hvac_checkpoint.Common.{
  ℕ, ◌+◌, Bool, true, false, Option, some, none, List, [], ◌∷◌, ◌++◌, length, take, if◌then◌else◌,
  ltb, leb,
}
use hvac_checkpoint.Common.Int.{ℤ, pos, is_negative, pos_part}
use hvac_checkpoint.Common.Text.{Text, c_str, codes}
use hvac_checkpoint.Common.Decimal.{to_string}
use hvac_checkpoint.Common.Run.{Run, ok, undefined, ◌>>=◌, ensure}
use hvac_checkpoint.Startup.{atoi}
use hvac_checkpoint.Client.{Env, Rpc}
use hvac_checkpoint.Wrappers.{Libc, Process, fopen, open_file, close_file, write, lseek}

-- What the logging system finds when it starts: its variables of the environment and the process id.
pub record LogEnv : Type 0 where
  pub hvac_log_level : Option Text
  pub hvac_log_dir : Option Text
  pub hvac_log_prefix : Option Text
  pub pid : ℕ

pub record LogSettings : Type 0 where
  pub priority : ℤ
  pub dir : Text
  pub files_prefix : Text

-- The priority of the root category, from `LOG4C_PRIORITY_FATAL` to `LOG4C_PRIORITY_TRACE`; `notice`
-- is that of `LOG4C_PRIORITY_NOTICE`.
unfoldable pub root_priority : ℤ → Option Text → ℤ
root_priority notice none = notice
root_priority notice (some text) =
    let level = atoi text in
    if is_negative level then pos 0 else if ltb 800 (pos_part level) then pos 800 else level

abbrev pub or_default : Text → Option Text → Text
or_default d none = d
or_default d (some text) = c_str text

-- The prefix and the process id, which `sprintf` writes with a final null into a buffer of seven bytes
-- more than the prefix; beyond its end it is undefined behaviour.
unfoldable pub prefix_and_pid : Text → ℕ → Run Text
prefix_and_pid prefix pid =
    let written = prefix ++ (codes "." ++ to_string pid) in
    ensure (leb (length written + 1) (length prefix + 7)) undefined >>= λ _. ok written

-- `hvac_init_logging`: without log4c there are no settings.
unfoldable pub init_logging : ℤ → Text → Text → Bool → LogEnv → Run (Option LogSettings)
init_logging notice log_dir log_prefix started env =
    let settings : Run (Option LogSettings) = (do
      files_prefix ← prefix_and_pid (or_default log_prefix env.hvac_log_prefix) env.pid
      ok (
          some (record {
            priority = root_priority notice env.hvac_log_level;
            dir = or_default log_dir env.hvac_log_dir;
            files_prefix = files_prefix;
          }))) in
    if started then settings else ok none

-- The calls that log4c makes, each with what it does next by the result.
pub data Io : Type 0 where
  finish : Io
  opens_stream : Text → Text → (Option ℤ → Io) → Io
  opens : Text → ℕ → ℤ → (ℤ → Io) → Io
  writes : ℤ → List ℕ → (ℤ → Io) → Io
  seeks : ℤ → ℤ → ℤ → (ℤ → Io) → Io
  closes : ℤ → (ℤ → Io) → Io

module _ (lc : Libc) (rpc : Rpc) (env : Env) where
  -- The calls of log4c meet the wrappers, as all calls of the process do.
  unfoldable pub run_io : Io → Process lc.Local rpc.World → Run (Process lc.Local rpc.World)
  run_io finish p = ok p
  run_io (opens_stream path mode next) p =
      fopen lc rpc env path mode p >>= λ (ptr, q). run_io (next ptr) q
  run_io (opens path flags mode next) p =
      open_file lc rpc env path flags mode p >>= λ (ret, q). run_io (next ret) q
  run_io (writes fd bytes next) p = write lc rpc env fd bytes p >>= λ (ret, q). run_io (next ret) q
  run_io (seeks fd offset whence next) p =
      lseek lc rpc env fd offset whence p >>= λ (ret, q). run_io (next ret) q
  run_io (closes fd next) p = close_file lc rpc env fd p >>= λ (ret, q). run_io (next ret) q

  -- `log_preformatter_internal`, with the message expanded: `vsnprintf` keeps 1023 characters of it.
  unfoldable pub log_preformatter_internal :
      (Text → Io) → Text → Process lc.Local rpc.World → Run (Process lc.Local rpc.World)
  log_preformatter_internal appender message p = do
    q ← run_io (appender (take 1023 (c_str message))) (record p { logging = true })
    ok (record q { logging = false })
