-- ===== src/Earlier/Wrappers.antt =====
-- backup/wrappers.c: the wrappers of the earlier version, with an `open64` and with a `pread` that
-- always reads the local file.
pub mod Compared
use hvac_checkpoint.Common.{
  ℕ, Bool, true, false, Option, some, none, List, if◌then◌else◌, ◌==◌, ◌||◌,
}
use hvac_checkpoint.Common.Int.{ℤ, pos, minus_one, int_beq, int_eq, to_int32}
use hvac_checkpoint.Common.Text.{Text, codes}
use hvac_checkpoint.Common.Run.{Run, ok, ◌>>=◌, ◌>>◌}
use hvac_checkpoint.Server.Files.{o_rdonly}
use hvac_checkpoint.Client.{Env}
use hvac_checkpoint.Wrappers.{Libc, map_or_fail, is_create}
use hvac_checkpoint.Earlier.{Client, Rpc, file_tracked}
use hvac_checkpoint.Earlier.Remote.{
  get_path, track_file, remote_read, remote_pread, remote_lseek, remove_fd,
}

-- A process that runs with the earlier client.
pub record Process (Local World : Type 0) : Type 0 where
  pub local : Local
  pub client : Client World
  pub disable_redirect : Bool
  pub logging : Bool

-- `g_disable_redirect || tl_disable_redirect`
abbrev pub is_off : {Local World : Type 0} → Process Local World → Bool
is_off p = p.disable_redirect || p.logging

-- The mode of `open` and `open64`: 0 without `O_CREAT`.
abbrev pub mode_of : ℕ → ℤ → ℤ
mode_of flags mode = if is_create flags then mode else pos 0

module _ (lc : Libc) (rpc : Rpc) (env : Env) where
  -- The body of `fopen` and `fopen64`, by what the real call gave.
  unfoldable pub track_opened :
      Text → Option ℤ → Process lc.Local rpc.World → Run (Option ℤ × Process lc.Local rpc.World)
  track_opened path none p = ok (none, p)
  track_opened path (some fd) p = if is_off p then ok (some fd, p) else (do
    (_, c) ← track_file rpc env path o_rdonly fd p.client
    ok (some fd, record p { client = c }))

  unfoldable pub fopen :
      Text → Text → Process lc.Local rpc.World → Run (Option ℤ × Process lc.Local rpc.World)
  fopen path mode p =
      let (ptr, local) = lc.real_fopen path mode p.local in
      map_or_fail lc (codes "fopen") >> track_opened path ptr (record p { local = local })

  unfoldable pub fopen64 :
      Text → Text → Process lc.Local rpc.World → Run (Option ℤ × Process lc.Local rpc.World)
  fopen64 path mode p =
      let (ptr, local) = lc.real_fopen64 path mode p.local in
      map_or_fail lc (codes "fopen64") >> track_opened path ptr (record p { local = local })

  -- The end of `open` and `open64`, by what the real call gave.
  unfoldable pub track_descriptor :
      Text → ℕ → ℤ → Process lc.Local rpc.World → Run (ℤ × Process lc.Local rpc.World)
  track_descriptor pathname flags ret p =
      let track : Run (ℤ × Process lc.Local rpc.World) = (do
        (_, c) ← track_file rpc env pathname flags ret p.client
        ok (ret, record p { client = c })) in
      if is_off p then ok (ret, p) else if int_beq ret minus_one then ok (ret, p) else track

  unfoldable pub open_file :
      Text → ℕ → ℤ → Process lc.Local rpc.World → Run (ℤ × Process lc.Local rpc.World)
  open_file pathname flags mode p =
      let (ret, local) = lc.real_open pathname flags (some (mode_of flags mode)) p.local in
      map_or_fail lc (codes "open")
      >> track_descriptor pathname flags ret (record p { local = local })

  -- `open64`, by the real call, which is given no mode where that is 0 and the redirection on.
  unfoldable pub open64 :
      (Text → ℕ → Option ℤ → lc.Local → ℤ × lc.Local)
      → Text
      → ℕ
      → ℤ
      → Process lc.Local rpc.World
      → Run (ℤ × Process lc.Local rpc.World)
  open64 real_open64 pathname flags mode p =
      let m = mode_of flags mode in
      let passed : Option ℤ =
        if is_off p then some m else if int_beq m (pos 0) then none else some m in
      let (ret, local) = real_open64 pathname flags passed p.local in
      map_or_fail lc (codes "open64")
      >> track_descriptor pathname flags ret (record p { local = local })

  unfoldable pub close_file : ℤ → Process lc.Local rpc.World → Run (ℤ × Process lc.Local rpc.World)
  close_file fd p =
      let (ret, local) = lc.real_close fd p.local in
      let p' : Process lc.Local rpc.World = record p { local = local } in
      let release : Run (ℤ × Process lc.Local rpc.World) = (do
        (_, c) ← remove_fd rpc env fd p.client
        ok (ret, record p' { client = c })) in
      map_or_fail lc (codes "close")
      >> (if is_off p
          then ok (ret, p')
          else elim (get_path fd p.client) [ none ↦ ok (ret, p') | some path ↦ release ])

  -- `read`, whose result is kept in an `int` and compared with -1.
  unfoldable pub read :
      ℤ → ℕ → Process lc.Local rpc.World → Run (ℤ × List ℕ × Process lc.Local rpc.World)
  read fd count p = do
    map_or_fail lc (codes "read")
    (got, bytes, c) ← remote_read rpc env fd count p.client
    let p' : Process lc.Local rpc.World = record p { client = c }
    let (here, local_bytes, local) = lc.real_read fd count p.local
    ok (
        if int_beq (to_int32 got) minus_one
        then (to_int32 here, local_bytes, record p' { local = local })
        else (to_int32 got, bytes, p'))

  -- `pread`: what the server returns is overwritten by the local read.
  unfoldable pub pread :
      ℤ → ℕ → ℤ → Process lc.Local rpc.World → Run (ℤ × List ℕ × Process lc.Local rpc.World)
  pread fd count offset p =
      let (ret, bytes, local) = lc.real_pread fd count offset p.local in
      let fetch : Run (ℤ × List ℕ × Process lc.Local rpc.World) = (do
        (_, _, c) ← remote_pread rpc env fd count offset p.client
        ok (ret, bytes, record p { local = local; client = c })) in
      map_or_fail lc (codes "pread") >> elim (get_path fd p.client) [
        | none ↦ ok (ret, bytes, record p { local = local })
        | some path ↦ fetch
      ]

  -- The body of `lseek` and `lseek64`, by what the real call does.
  unfoldable pub seek_or :
      (lc.Local → ℤ × lc.Local)
      → ℤ
      → ℤ
      → ℤ
      → Process lc.Local rpc.World
      → Run (ℤ × Process lc.Local rpc.World)
  seek_or real fd offset whence p =
      let here : Run (ℤ × Process lc.Local rpc.World) =
        let (ret, local) = real p.local in ok (ret, record p { local = local }) in
      let there : Run (ℤ × Process lc.Local rpc.World) = (do
        (ret, c) ← remote_lseek rpc env fd offset whence p.client
        ok (ret, record p { client = c })) in
      if is_off p then here else if file_tracked fd p.client then there else here

  unfoldable pub lseek :
      ℤ → ℤ → ℤ → Process lc.Local rpc.World → Run (ℤ × Process lc.Local rpc.World)
  lseek fd offset whence p =
      map_or_fail lc (codes "lseek") >> seek_or (lc.real_lseek fd offset whence) fd offset whence p

  unfoldable pub lseek64 :
      ℤ → ℤ → ℤ → Process lc.Local rpc.World → Run (ℤ × Process lc.Local rpc.World)
  lseek64 fd offset whence p =
      map_or_fail lc (codes "lseek64")
      >> seek_or (lc.real_lseek64 fd offset whence) fd offset whence p

  -- The wrappers that only hand on.
  unfoldable pub read64 :
      ℤ → ℕ → Process lc.Local rpc.World → Run (ℤ × List ℕ × Process lc.Local rpc.World)
  read64 fd count p =
      let (ret, bytes, local) = lc.real_read64 fd count p.local in
      map_or_fail lc (codes "read64") >> ok (ret, bytes, record p { local = local })

  unfoldable pub write :
      ℤ → List ℕ → Process lc.Local rpc.World → Run (ℤ × Process lc.Local rpc.World)
  write fd bytes p =
      let (ret, local) = lc.real_write fd bytes p.local in
      map_or_fail lc (codes "write") >> ok (ret, record p { local = local })

  unfoldable pub readv :
      ℤ → List ℕ → Process lc.Local rpc.World → Run (ℤ × List ℕ × Process lc.Local rpc.World)
  readv fd sizes p =
      let (ret, bytes, local) = lc.real_readv fd sizes p.local in
      map_or_fail lc (codes "readv") >> ok (ret, bytes, record p { local = local })
