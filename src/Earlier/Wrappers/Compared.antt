-- ===== src/Earlier/Wrappers/Compared.antt =====
-- backup/wrappers.c and wrappers.c: the reads of the two versions.
use hvac_checkpoint.Common.{ℕ, ◌<◌, ◌^◌, ◌≡◌, refl, some, List, arith}
use hvac_checkpoint.Common.Int.{ℤ, pos, int_eq, to_int32}
use hvac_checkpoint.Common.Maps.{lookup}
use hvac_checkpoint.Common.Text.{Text, codes}
use hvac_checkpoint.Common.Run.{ok}
use hvac_checkpoint.Client.{Client, Env}
use hvac_checkpoint.Client.Remote.{remote_read, remote_pread}
use hvac_checkpoint.Wrappers.{Libc, Process, map_or_fail, read, pread}
use hvac_checkpoint.Wrappers.Plain.{HasSymbols}
use hvac_checkpoint.Wrappers.Served.{read-remote_read}
use hvac_checkpoint.Client.Remote.{get_path}
use hvac_checkpoint.Earlier
use hvac_checkpoint.Earlier.Remote
use hvac_checkpoint.Earlier.Wrappers
use hvac_checkpoint.Earlier.Agrees.{AnswersInTime, upgraded, forget, remote_read-earlier}

-- The earlier version's part of a process.
abbrev pub forget_process :
    {Local World : Type 0} → Process Local World → Wrappers.Process Local World
forget_process p = record {
  local = p.local;
  client = forget p.client;
  disable_redirect = p.disable_redirect;
  logging = p.logging;
}

module _ (lc : Libc) (old : Earlier.Rpc) (env : Env) (found : HasSymbols lc)
    (p : Process lc.Local old.World) where
  -- Where every call of the C library is found, and no server answers a read after the time limit of
  -- the earlier version: a `read` for which the servers give fewer than 2^31 bytes to the later
  -- version returns the same in both versions, and leaves the local file alone.
  pub read-earlier :
      (fd : ℤ) (count n : ℕ) (bytes : List ℕ) (c : Client old.World)
      → AnswersInTime old
      → remote_read (upgraded old) env fd count p.client ≡ ok (pos n, bytes, c)
      → n < 2 ^ 31
      → (p' : Process lc.Local old.World) × (read lc (upgraded old) env fd count p
          ≡ ok (pos n, bytes, p'))
        × (Wrappers.read lc old env fd count (forget_process p)
            ≡ ok (pos n, bytes, forget_process p'))
        × (p'.local ≡ p.local)
  unfolding map_or_fail to_int32 Wrappers.read
  read-earlier fd count n bytes c in_time served small =
      let before =
        remote_read-earlier old env in_time fd count p.client (pos n, bytes, c) served
          (λ e. absurd (cc e)) in
      (
        record p { client = c },
        read-remote_read lc (upgraded old) env fd count n bytes p c found small served,
        ground (arith, found (codes "read"), before),
        refl,
      )

  -- A `pread` that both versions of the client send to a server, and that returns there: the later
  -- wrapper returns the server's bytes, and the earlier one those of the local file.
  pub pread-earlier :
      (fd r : ℤ) (count n : ℕ) (offset : ℤ) (path : Text) (bytes before : List ℕ)
      (c : Client old.World) (d : Earlier.Client old.World)
      → lookup fd p.client.fd_map ≡ some path
      → remote_pread (upgraded old) env fd count offset p.client ≡ ok (pos n, bytes, c)
      → Remote.remote_pread old env fd count offset (forget p.client) ≡ ok (r, before, d)
      → (p' : Process lc.Local old.World) × (q : Wrappers.Process lc.Local old.World) × (pread lc
            (upgraded old)
            env
            fd
            count
            offset
            p
          ≡ ok (pos n, bytes, p'))
        × (p'.local ≡ p.local)
        × (Wrappers.pread lc old env fd count offset (forget_process p)
            ≡ (let (ret, here, local) = lc.real_pread fd count offset p.local in ok (ret, here, q)))
        × (q.local ≡ (lc.real_pread fd count offset p.local).2)
  unfolding pread map_or_fail get_path Remote.get_path Wrappers.pread
  pread-earlier fd r count n offset path bytes before c d tracked served sent = (
    record p { client = c },
    record (forget_process p) { client = d; local = (lc.real_pread fd count offset p.local).2 },
    ground (arith, found (codes "pread"), tracked, served),
    refl,
    ground (arith, found (codes "pread"), tracked, sent),
    refl,
  )
