-- ===== src/Wrappers.antt =====
-- wrappers.c: the calls of the C library that the preloaded client stands in for. The real calls are
-- the parameter `Libc`; the wrappers hand over to the operations of Client, or to them.
pub mod Plain
pub mod Served
pub mod Fallback
pub mod Reuse
use hvac_checkpoint.Common.{
  ℕ, ◌/◌, ◌%◌, Bool, true, false, ◌||◌, Option, some, none, List, if◌then◌else◌, ◌==◌,
}
use hvac_checkpoint.Common.Int.{ℤ, minus_one, int_beq, is_negative, to_int32}
use hvac_checkpoint.Common.Text.{Text, codes}
use hvac_checkpoint.Common.Run.{Run, ok, fault, Fault, exited, undefined, ◌>>=◌, ◌>>◌, ensure}
use hvac_checkpoint.Server.Files.{o_rdonly}
use hvac_checkpoint.Client.{Client, Env, Rpc, file_tracked}
use hvac_checkpoint.Client.Remote.{get_path, remote_read, remote_pread, remote_lseek, remove_fd}
use hvac_checkpoint.Client.Track.{track_file}

-- The real calls, on the state of the process that is not the client's. `maps` says whether `dlsym`
-- finds a symbol. A `FILE` is the descriptor that `fileno` gives for it; `open` takes its mode or not.
pub record Libc : Type 1 where
  pub Local : Type 0
  pub maps : Text → Bool
  pub real_fopen : Text → Text → Local → Option ℤ × Local
  pub real_fopen64 : Text → Text → Local → Option ℤ × Local
  pub real_open : Text → ℕ → Option ℤ → Local → ℤ × Local
  pub real_close : ℤ → Local → ℤ × Local
  pub real_read : ℤ → ℕ → Local → ℤ × List ℕ × Local
  pub real_read64 : ℤ → ℕ → Local → ℤ × List ℕ × Local
  pub real_pread : ℤ → ℕ → ℤ → Local → ℤ × List ℕ × Local
  pub real_readv : ℤ → List ℕ → Local → ℤ × List ℕ × Local
  pub real_write : ℤ → List ℕ → Local → ℤ × Local
  pub real_lseek : ℤ → ℤ → ℤ → Local → ℤ × Local
  pub real_lseek64 : ℤ → ℤ → ℤ → Local → ℤ × Local

-- A process that runs with the client: `disable_redirect` is the global switch, `logging` the one of
-- the thread.
pub record Process (Local World : Type 0) : Type 0 where
  pub local : Local
  pub client : Client World
  pub disable_redirect : Bool
  pub logging : Bool

-- `g_disable_redirect || tl_disable_redirect`
abbrev pub is_off : {Local World : Type 0} → Process Local World → Bool
is_off p = p.disable_redirect || p.logging

-- `flags & O_CREAT`
abbrev pub is_create : ℕ → Bool
is_create flags = flags / 64 % 2 == 1

-- `MAP_OR_FAIL`, in the preloaded library.
unfoldable pub map_or_fail : Libc → Text → Run (Unit {0})
map_or_fail lc func = ensure (lc.maps func) exited

-- The mode that `open` hands on: with the redirection off it is handed on always, as 0 where the
-- caller gave none.
unfoldable pub passed_mode : Bool → ℕ → ℤ → Option ℤ
passed_mode off flags mode =
    if is_create flags then some mode else if off then some (ℤ.pos 0) else none

-- The log line of `read` and of a failed `pread` behind the remote call. `path` points into `fd_map`,
-- so where the call has erased the entry, freed memory is read.
unfoldable pub log_tracked_path : {World : Type 0} → Option Text → ℤ → Client World → Run (Unit {0})
log_tracked_path none fd c = ok tt
log_tracked_path (some path) fd c = ensure (file_tracked fd c) undefined

module _ (lc : Libc) (rpc : Rpc) (env : Env) where
  -- The body of `fopen` and `fopen64`: whatever the mode, the file is tracked as one that is read.
  unfoldable pub track_opened :
      Text → Option ℤ → Process lc.Local rpc.World → Run (Option ℤ × Process lc.Local rpc.World)
  track_opened path none p = ok (none, p)
  track_opened path (some fd) p = if is_off p then ok (some fd, p) else (do
    (_, c) ← track_file rpc env path o_rdonly fd p.client
    ok (some fd, record p { client = c }))

  unfoldable pub fopen :
      Text → Text → Process lc.Local rpc.World → Run (Option ℤ × Process lc.Local rpc.World)
  fopen path mode p =
      let (ptr, local) = lc.real_fopen path mode p.local in
      map_or_fail lc (codes "fopen") >> track_opened path ptr (record p { local = local })

  unfoldable pub fopen64 :
      Text → Text → Process lc.Local rpc.World → Run (Option ℤ × Process lc.Local rpc.World)
  fopen64 path mode p =
      let (ptr, local) = lc.real_fopen64 path mode p.local in
      map_or_fail lc (codes "fopen64") >> track_opened path ptr (record p { local = local })

  unfoldable pub open_file :
      Text → ℕ → ℤ → Process lc.Local rpc.World → Run (ℤ × Process lc.Local rpc.World)
  open_file pathname flags mode p =
      let (ret, local) = lc.real_open pathname flags (passed_mode (is_off p) flags mode) p.local in
      let p' : Process lc.Local rpc.World = record p { local = local } in
      let track : Run (ℤ × Process lc.Local rpc.World) = (do
        (_, c) ← track_file rpc env pathname flags ret p'.client
        ok (ret, record p' { client = c })) in
      map_or_fail lc (codes "open")
      >> (if is_off p then ok (ret, p') else if int_beq ret minus_one then ok (ret, p') else track)

  unfoldable pub close_file : ℤ → Process lc.Local rpc.World → Run (ℤ × Process lc.Local rpc.World)
  close_file fd p =
      let (ret, local) = lc.real_close fd p.local in
      let p' : Process lc.Local rpc.World = record p { local = local } in
      let release : Run (ℤ × Process lc.Local rpc.World) = (do
        (_, c) ← remove_fd rpc env fd p.client
        ok (ret, record p' { client = c })) in
      map_or_fail lc (codes "close")
      >> (if is_off p
          then ok (ret, p')
          else elim (get_path fd p.client) [ none ↦ ok (ret, p') | some path ↦ release ])

  -- The fallback of `read`, whose result is kept in an `int`.
  unfoldable pub local_read :
      ℤ → ℕ → Process lc.Local rpc.World → ℤ × List ℕ × Process lc.Local rpc.World
  local_read fd count p =
      let (ret, bytes, local) = lc.real_read fd count p.local in
      (to_int32 ret, bytes, record p { local = local })

  -- `read`, which looks at neither switch.
  unfoldable pub read :
      ℤ → ℕ → Process lc.Local rpc.World → Run (ℤ × List ℕ × Process lc.Local rpc.World)
  read fd count p = do
    map_or_fail lc (codes "read")
    (got, bytes, c) ← remote_read rpc env fd count p.client
    log_tracked_path (get_path fd p.client) fd c
    let p' : Process lc.Local rpc.World = record p { client = c }
    let ret = to_int32 got
    ok (if is_negative ret then local_read fd count p' else (ret, bytes, p'))

  unfoldable pub local_pread :
      ℤ → ℕ → ℤ → Process lc.Local rpc.World → ℤ × List ℕ × Process lc.Local rpc.World
  local_pread fd count offset p =
      let (ret, bytes, local) = lc.real_pread fd count offset p.local in
      (ret, bytes, record p { local = local })

  -- `pread`, whose first log line is given a null path for a descriptor that is not tracked; the C
  -- library prints that as `(null)`.
  unfoldable pub pread :
      ℤ → ℕ → ℤ → Process lc.Local rpc.World → Run (ℤ × List ℕ × Process lc.Local rpc.World)
  pread fd count offset p =
      let fetch : Text → Run (ℤ × List ℕ × Process lc.Local rpc.World) = λ path. (do
        (ret, bytes, c) ← remote_pread rpc env fd count offset p.client
        let p' : Process lc.Local rpc.World = record p { client = c }
        let here = log_tracked_path (some path) fd c >> ok (local_pread fd count offset p')
        (if is_negative ret then here else ok (ret, bytes, p'))) in
      map_or_fail lc (codes "pread") >> elim (get_path fd p.client) [
        | none ↦ ok (local_pread fd count offset p)
        | some path ↦ fetch path
      ]

  -- The body of `lseek` and `lseek64`, by what the real call does.
  unfoldable pub seek_or :
      (lc.Local → ℤ × lc.Local)
      → ℤ
      → ℤ
      → ℤ
      → Process lc.Local rpc.World
      → Run (ℤ × Process lc.Local rpc.World)
  seek_or real fd offset whence p =
      let here : Run (ℤ × Process lc.Local rpc.World) =
        let (ret, local) = real p.local in ok (ret, record p { local = local }) in
      let there : Run (ℤ × Process lc.Local rpc.World) = (do
        (ret, c) ← remote_lseek rpc env fd offset whence p.client
        ok (ret, record p { client = c })) in
      if is_off p then here else if file_tracked fd p.client then there else here

  unfoldable pub lseek :
      ℤ → ℤ → ℤ → Process lc.Local rpc.World → Run (ℤ × Process lc.Local rpc.World)
  lseek fd offset whence p =
      map_or_fail lc (codes "lseek") >> seek_or (lc.real_lseek fd offset whence) fd offset whence p

  unfoldable pub lseek64 :
      ℤ → ℤ → ℤ → Process lc.Local rpc.World → Run (ℤ × Process lc.Local rpc.World)
  lseek64 fd offset whence p =
      map_or_fail lc (codes "lseek64")
      >> seek_or (lc.real_lseek64 fd offset whence) fd offset whence p

  -- The wrappers that only hand on.
  unfoldable pub read64 :
      ℤ → ℕ → Process lc.Local rpc.World → Run (ℤ × List ℕ × Process lc.Local rpc.World)
  read64 fd count p =
      let (ret, bytes, local) = lc.real_read64 fd count p.local in
      map_or_fail lc (codes "read64") >> ok (ret, bytes, record p { local = local })

  unfoldable pub readv :
      ℤ → List ℕ → Process lc.Local rpc.World → Run (ℤ × List ℕ × Process lc.Local rpc.World)
  readv fd sizes p =
      let (ret, bytes, local) = lc.real_readv fd sizes p.local in
      map_or_fail lc (codes "readv") >> ok (ret, bytes, record p { local = local })

  unfoldable pub write :
      ℤ → List ℕ → Process lc.Local rpc.World → Run (ℤ × Process lc.Local rpc.World)
  write fd bytes p =
      let (ret, local) = lc.real_write fd bytes p.local in
      map_or_fail lc (codes "write") >> ok (ret, record p { local = local })
