-- ===== src/Earlier/Remote.antt =====
-- backup/hvac_client.cpp: the operations of the earlier client, which send every call for a file to the
-- server that the hash of its path gives.
use hvac_checkpoint.Common.{
  ℕ, ◌%◌, Bool, true, false, Option, some, none, List, [], if◌then◌else◌, ◌==◌,
}
use hvac_checkpoint.Common.Int.{ℤ, pos, int_eq, minus_one, to_int32}
use hvac_checkpoint.Common.Maps.{lookup, insert, erase, has_key}
use hvac_checkpoint.Common.Text.{Text}
use hvac_checkpoint.Common.Run.{Run, ok, fault, undefined, ◌>>=◌}
use hvac_checkpoint.Client.{Env}
use hvac_checkpoint.Client.Track.{wants_tracking}
use hvac_checkpoint.Earlier.{Client, Rpc}
use hvac_checkpoint.Earlier.Calls.{remote_open, remote_fetch, remote_release, remote_position}

-- `std::hash<std::string>{}(path) % g_hvac_server_count` as an `int`
unfoldable pub hashed_host : Env → Text → Run ℤ
hashed_host env path =
    if env.server_count == 0
    then fault undefined
    else ok (to_int32 (pos (env.hash path % env.server_count)))

-- `hvac_get_path`
unfoldable pub get_path : {World : Type 0} → ℤ → Client World → Option Text
get_path fd c = lookup fd c.fd_map

module _ (rpc : Rpc) (env : Env) where
  -- `hvac_track_file`; its checks are those of the later version.
  unfoldable pub track_file : Text → ℕ → ℤ → Client rpc.World → Run (Bool × Client rpc.World)
  track_file path flags fd c = elim (wants_tracking env path flags) [
    | none ↦ ok (false, c)
    | some real ↦ do
      host ← hashed_host env real
      c₁ ←
          remote_open rpc env host real fd
            (record c { fd_map = insert fd real c.fd_map; mercury_init = true })
      ok (true, c₁)
  ]

  -- `hvac_remote_read`
  unfoldable pub remote_read : ℤ → ℕ → Client rpc.World → Run (ℤ × List ℕ × Client rpc.World)
  remote_read fd count c = elim (lookup fd c.fd_map) [
    | none ↦ ok (minus_one, [], c)
    | some path ↦ do host ← hashed_host env path; remote_fetch rpc env host fd count minus_one c
  ]

  -- `hvac_remote_pread`
  unfoldable pub remote_pread : ℤ → ℕ → ℤ → Client rpc.World → Run (ℤ × List ℕ × Client rpc.World)
  remote_pread fd count offset c = elim (lookup fd c.fd_map) [
    | none ↦ ok (minus_one, [], c)
    | some path ↦ do host ← hashed_host env path; remote_fetch rpc env host fd count offset c
  ]

  -- `hvac_remote_lseek`
  unfoldable pub remote_lseek : ℤ → ℤ → ℤ → Client rpc.World → Run (ℤ × Client rpc.World)
  remote_lseek fd offset whence c = elim (lookup fd c.fd_map) [
    | none ↦ ok (minus_one, c)
    | some path ↦ do
      host ← hashed_host env path
      remote_position rpc env host fd (to_int32 offset) whence c
  ]

  -- `hvac_remote_close`
  unfoldable pub remote_close : ℤ → Client rpc.World → Run (Client rpc.World)
  remote_close fd c = elim (lookup fd c.fd_map) [
    | none ↦ ok c
    | some path ↦ do host ← hashed_host env path; remote_release rpc env host fd c
  ]

  -- `hvac_remove_fd`: whether the descriptor was tracked.
  unfoldable pub remove_fd : ℤ → Client rpc.World → Run (Bool × Client rpc.World)
  remove_fd fd c = do
    c' ← remote_close fd c
    ok (has_key fd c'.fd_map, record c' { fd_map = erase fd c'.fd_map })
