-- ===== src/Wrappers/Plain.antt =====
-- wrappers.c: the wrappers on a descriptor that the client does not track, and with the redirection
-- off.
use hvac_checkpoint.Common.{ℕ, ◌≡◌, true, none, arith}
use hvac_checkpoint.Common.Int.{ℤ, int_eq, to_int32}
use hvac_checkpoint.Common.Maps.{lookup}
use hvac_checkpoint.Common.Text.{Text, codes}
use hvac_checkpoint.Common.Run.{ok}
use hvac_checkpoint.Client.{Env, Rpc}
use hvac_checkpoint.Client.Remote.{get_path, remote_read}
use hvac_checkpoint.Wrappers.{
  Libc, Process, is_off, map_or_fail, passed_mode, track_opened, fopen, open_file, close_file,
  local_read, read, local_pread, pread, seek_or, lseek, lseek64, log_tracked_path,
}

-- Every call of the C library is found.
abbrev pub HasSymbols : Libc → Type 0
HasSymbols lc = (func : Text) → lc.maps func ≡ true

-- The process after a real call.
abbrev pub moved : {Local World : Type 0} → Process Local World → Local → Process Local World
moved p local = record p { local = local }

module _ (lc : Libc) (rpc : Rpc) (env : Env) (found : HasSymbols lc)
    (p : Process lc.Local rpc.World) where
  -- Where every call of the C library is found: on a descriptor that is not tracked, `read`,
  -- `pread`, `lseek`, `lseek64` and `close` are the real calls: they return what those return,
  -- `read` as an `int`, change what those change, and leave the client alone.
  pub untracked_plain :
      (fd : ℤ)
      → lookup fd p.client.fd_map ≡ none
      → ((count : ℕ)
          → read lc rpc env fd count p ≡ (
              let (ret, bytes, local) = lc.real_read fd count p.local in
              ok (to_int32 ret, bytes, moved p local)))
        × ((count : ℕ) (offset : ℤ)
            → pread lc rpc env fd count offset p ≡ (
                let (ret, bytes, local) = lc.real_pread fd count offset p.local in
                ok (ret, bytes, moved p local)))
        × ((offset whence : ℤ)
            → lseek lc rpc env fd offset whence p ≡ (
                let (ret, local) = lc.real_lseek fd offset whence p.local in
                ok (ret, moved p local)))
        × ((offset whence : ℤ)
            → lseek64 lc rpc env fd offset whence p ≡ (
                let (ret, local) = lc.real_lseek64 fd offset whence p.local in
                ok (ret, moved p local)))
        × (close_file lc rpc env fd p
            ≡ (let (ret, local) = lc.real_close fd p.local in ok (ret, moved p local)))
  unfolding map_or_fail read local_read remote_read pread local_pread get_path lseek lseek64 seek_or
      close_file to_int32 log_tracked_path
  untracked_plain fd absent = (
    λ count. ground (arith, found (codes "read"), absent),
    λ count offset. ground (arith, found (codes "pread"), absent),
    λ offset whence. ground (arith, found (codes "lseek"), absent),
    λ offset whence. ground (arith, found (codes "lseek64"), absent),
    ground (arith, found (codes "close"), absent),
  )

  -- Where every call of the C library is found: with the redirection off, by the switch of the
  -- process or of the thread, `fopen`, `open`, `close` and `lseek` are the real calls, whatever is
  -- tracked, and leave the client alone; `open` hands its mode on, or 0.
  pub off_plain :
      is_off p ≡ true
      → ((path mode : Text)
          → fopen lc rpc env path mode p
            ≡ (let (ptr, local) = lc.real_fopen path mode p.local in ok (ptr, moved p local)))
        × ((path : Text) (flags : ℕ) (mode : ℤ)
            → open_file lc rpc env path flags mode p ≡ (
                let (ret, local) = lc.real_open path flags (passed_mode true flags mode) p.local in
                ok (ret, moved p local)))
        × ((fd : ℤ)
            → close_file lc rpc env fd p
              ≡ (let (ret, local) = lc.real_close fd p.local in ok (ret, moved p local)))
        × ((fd offset whence : ℤ)
            → lseek lc rpc env fd offset whence p ≡ (
                let (ret, local) = lc.real_lseek fd offset whence p.local in
                ok (ret, moved p local)))
  unfolding map_or_fail fopen track_opened open_file lseek seek_or close_file
  off_plain off = (
    λ path mode. ground (arith, found (codes "fopen"), off),
    λ path flags mode. ground (arith, found (codes "open"), off),
    λ fd. ground (arith, found (codes "close"), off),
    λ fd offset whence. ground (arith, found (codes "lseek"), off),
  )
