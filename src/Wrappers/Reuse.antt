-- ===== src/Wrappers/Reuse.antt =====
-- wrappers.c: a descriptor that the C library hands out again while the client still tracks it, as
-- after an `fclose`, which no wrapper stands in for.
use hvac_checkpoint.Common.{ℕ, ◌≡◌, refl, false, some, none, List, arith}
use hvac_checkpoint.Common.Int.{ℤ, pos, int_eq}
use hvac_checkpoint.Common.Maps.{lookup}
use hvac_checkpoint.Common.Text.{Text, codes}
use hvac_checkpoint.Common.Run.{ok}
use hvac_checkpoint.Client.{Client, Env, Rpc}
use hvac_checkpoint.Client.Remote.{get_path, remote_pread}
use hvac_checkpoint.Client.Track.{wants_tracking, track_file}
use hvac_checkpoint.Wrappers.{Libc, Process, is_off, map_or_fail, passed_mode, open_file, pread}
use hvac_checkpoint.Wrappers.Plain.{HasSymbols, moved}

module _ (lc : Libc) (rpc : Rpc) (env : Env) (found : HasSymbols lc)
    (p : Process lc.Local rpc.World) where
  -- Where every call of the C library is found: a file that is not to be tracked, opened with the
  -- redirection on under a descriptor that is still tracked for another one, leaves that entry
  -- standing; a `pread` of the new file that the server serves returns the bytes of the old one,
  -- and leaves the C library as it was after the open.
  pub pread-open_file_stale :
      (path old : Text) (flags count n : ℕ) (mode fd offset : ℤ) (bytes : List ℕ) (local : lc.Local)
      (c : Client rpc.World)
      → is_off p ≡ false
      → wants_tracking env path flags ≡ none
      → lc.real_open path flags (passed_mode false flags mode) p.local ≡ (fd, local)
      → lookup fd p.client.fd_map ≡ some old
      → remote_pread rpc env fd count offset p.client ≡ ok (pos n, bytes, c)
      → (p₁ p₂ : Process lc.Local rpc.World) × (open_file lc rpc env path flags mode p
          ≡ ok (fd, p₁))
        × (get_path fd p₁.client ≡ some old)
        × (pread lc rpc env fd count offset p₁ ≡ ok (pos n, bytes, p₂))
        × (p₂.local ≡ local)
  unfolding open_file pread map_or_fail get_path track_file
  pread-open_file_stale path old flags count n mode fd offset bytes local c on unwanted opened
        tracked served =
      (
        moved p local,
        record p { client = c; local = local },
        ground (arith, found (codes "open"), on, unwanted, opened),
        tracked,
        ground (arith, found (codes "pread"), tracked, served),
        refl,
      )
