-- ===== src/Wrappers/Served.antt =====
-- wrappers.c: a `read` that the server serves.
use hvac_checkpoint.Common.{ℕ, ◌<◌, ◌^◌, ◌≡◌, ap, ◌∙◌, inl, inr, List, arith, is_some, Option-cases}
use hvac_checkpoint.Common.Int.{ℤ, pos, int_eq, to_int32}
use hvac_checkpoint.Common.Maps.{lookup, has_key}
use hvac_checkpoint.Common.Text.{codes}
use hvac_checkpoint.Common.Run.{ok}
use hvac_checkpoint.Client.{Client, Env, Rpc}
use hvac_checkpoint.Client.Remote.{get_path, remote_read}
use hvac_checkpoint.Client.Fallback.{read_served-fd_map}
use hvac_checkpoint.Wrappers.{Libc, Process, map_or_fail, log_tracked_path, read}
use hvac_checkpoint.Wrappers.Plain.{HasSymbols}

log_tracked_path-kept :
    {World : Type 0} (fd : ℤ) (c c' : Client World)
    → c'.fd_map ≡ c.fd_map
    → log_tracked_path (get_path fd c) fd c' ≡ ok tt
unfolding log_tracked_path get_path
log_tracked_path-kept fd c c' same = elim (Option-cases (lookup fd c.fd_map)) [
  | inl absent ↦ rw (absent, log_tracked_path)
  | inr (path, tracked) ↦
      let here = ap (has_key fd) same ∙ ap is_some tracked in rw (tracked, log_tracked_path, here)
]

-- A remote read that finds something is what the wrapper returns.
pub read-remote_read :
    (lc : Libc) (rpc : Rpc) (env : Env) (fd : ℤ) (count n : ℕ) (bytes : List ℕ)
    (p : Process lc.Local rpc.World) (c : Client rpc.World)
    → HasSymbols lc
    → n < 2 ^ 31
    → remote_read rpc env fd count p.client ≡ ok (pos n, bytes, c)
    → read lc rpc env fd count p ≡ ok (pos n, bytes, record p { client = c })
unfolding read map_or_fail to_int32
read-remote_read lc rpc env fd count n bytes p c symbols small run =
    let kept = read_served-fd_map rpc env fd (pos n) count bytes p.client c run (λ e. cc e) in
    let logged = log_tracked_path-kept fd p.client c kept in
    ground (arith, symbols (codes "read"), run, small, logged)
