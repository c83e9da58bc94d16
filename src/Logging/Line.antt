-- ===== src/Logging/Line.antt =====
-- hvac_logging.c and wrappers.c: the input and output of the logging system is not redirected.
use hvac_checkpoint.Common.{◌≡◌, refl, true, false, take, Bool-cases, arith, inl, inr}
use hvac_checkpoint.Common.Text.{Text, c_str, codes}
use hvac_checkpoint.Common.Run.{ok}
use hvac_checkpoint.Client.{Env, Rpc}
use hvac_checkpoint.Wrappers.{Libc, Process, is_off, passed_mode, map_or_fail, write}
use hvac_checkpoint.Wrappers.Plain.{HasSymbols, moved, off_plain}
use hvac_checkpoint.Logging.{
  Io, finish, opens_stream, opens, writes, seeks, closes, run_io, log_preformatter_internal,
}

-- What the calls do to the C library where no wrapper stands between.
unfoldable pub real_io : (lc : Libc) → Io → lc.Local → lc.Local
real_io lc finish local = local
real_io lc (opens_stream path mode next) local =
    let (ptr, local') = lc.real_fopen path mode local in real_io lc (next ptr) local'
real_io lc (opens path flags mode next) local =
    let (ret, local') = lc.real_open path flags (passed_mode true flags mode) local in
    real_io lc (next ret) local'
real_io lc (writes fd bytes next) local =
    let (ret, local') = lc.real_write fd bytes local in real_io lc (next ret) local'
real_io lc (seeks fd offset whence next) local =
    let (ret, local') = lc.real_lseek fd offset whence local in real_io lc (next ret) local'
real_io lc (closes fd next) local =
    let (ret, local') = lc.real_close fd local in real_io lc (next ret) local'

module _ (lc : Libc) (rpc : Rpc) (env : Env) (found : HasSymbols lc) where
  -- With the redirection off, the calls through the wrappers are the real ones.
  run_io-real_io :
      (io : Io) (p : Process lc.Local rpc.World)
      → is_off p ≡ true
      → run_io lc rpc env io p ≡ ok (moved p (real_io lc io p.local))
  unfolding run_io real_io write map_or_fail
  run_io-real_io finish p off = refl
  run_io-real_io (opens_stream path mode next) p off =
      let (ptr, local) = lc.real_fopen path mode p.local in
      let plain = (off_plain lc rpc env found p off).0 path mode in
      rw plain (run_io-real_io (next ptr) (moved p local) off)
  run_io-real_io (opens path flags mode next) p off =
      let (ret, local) = lc.real_open path flags (passed_mode true flags mode) p.local in
      let plain = (off_plain lc rpc env found p off).1 path flags mode in
      rw plain (run_io-real_io (next ret) (moved p local) off)
  run_io-real_io (writes fd bytes next) p off =
      let (ret, local) = lc.real_write fd bytes p.local in
      let plain : write lc rpc env fd bytes p ≡ ok (ret, moved p local) =
        ground (arith, found (codes "write")) in
      rw plain (run_io-real_io (next ret) (moved p local) off)
  run_io-real_io (seeks fd offset whence next) p off =
      let (ret, local) = lc.real_lseek fd offset whence p.local in
      let plain = (off_plain lc rpc env found p off).3 fd offset whence in
      rw plain (run_io-real_io (next ret) (moved p local) off)
  run_io-real_io (closes fd next) p off =
      let (ret, local) = lc.real_close fd p.local in
      let plain = (off_plain lc rpc env found p off).2 fd in
      rw plain (run_io-real_io (next ret) (moved p local) off)

  -- Where every call of the C library is found: a log line does with the C library just what
  -- log4c's calls for the first 1023 characters of the message do without the wrappers, and leaves
  -- the client alone, whatever is tracked; the switch of the thread is off afterwards.
  pub log_preformatter_internal-real_io :
      (appender : Text → Io) (message : Text) (p : Process lc.Local rpc.World)
      → log_preformatter_internal lc rpc env appender message p
        ≡ ok (record p {
          local = real_io lc (appender (take 1023 (c_str message))) p.local;
          logging = false;
        })
  unfolding log_preformatter_internal
  log_preformatter_internal-real_io appender message p =
      let io = appender (take 1023 (c_str message)) in
      let p' : Process lc.Local rpc.World = record p { logging = true } in
      let off : is_off p' ≡ true = elim (Bool-cases p.disable_redirect) [
        | inl e ↦ ground (arith, e)
        | inr e ↦ ground (arith, e)
      ] in
      rw (run_io-real_io io p' off) refl
