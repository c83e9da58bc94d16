-- ===== src/Client/Remote.antt =====
-- hvac_client.cpp: the operations that the I/O wrappers call on a descriptor.
use hvac_checkpoint.Common.{
  ℕ, zero, suc, ◌%◌, Bool, true, false, Option, some, none, List, [], ◌∷◌, if◌then◌else◌, ◌==◌,
  ◌&&◌, leb, not, set,
}
use hvac_checkpoint.Common.Int.{ℤ, pos, negsuc, int_eq, int_beq, minus_one, to_int32}
use hvac_checkpoint.Common.Maps.{lookup, erase, has_key}
use hvac_checkpoint.Common.Text.{Text}
use hvac_checkpoint.Common.Run.{Run, ok, fault, undefined, ◌>>=◌}
use hvac_checkpoint.Ring.{get_node, remove_node, convert_host_to_number}
use hvac_checkpoint.Client.{Client, Env, Rpc}
use hvac_checkpoint.Client.Calls.{remote_fetch, remote_release, remote_position}

abbrev pub timeout_limit : ℕ
timeout_limit = 3

-- `v[host]`; outside the vector it is undefined behaviour.
unfoldable pub host_elem {ℓ} : {A : Type ℓ} → ℤ → List A → Run A
host_elem (negsuc n) v = fault undefined
host_elem (pos n) [] = fault undefined
host_elem (pos zero) (x ∷ v) = ok x
host_elem (pos (suc n)) (x ∷ v) = host_elem (pos n) v

-- `hvac_get_path`
unfoldable pub get_path : {World : Type 0} → ℤ → Client World → Option Text
get_path fd c = lookup fd c.fd_map

-- `std::hash<std::string>{}(path) % g_hvac_server_count` as an `int`
unfoldable pub hashed_host : Env → Text → Run ℤ
hashed_host env path =
    if env.server_count == 0
    then fault undefined
    else ok (to_int32 (pos (env.hash path % env.server_count)))

-- `hashRing->GetNode(path)` and `ConvertHostToNumber` of it
unfoldable pub ring_host : {World : Type 0} → Env → Text → Client World → Run (Text × ℤ)
ring_host env path c = do
  hostname ← get_node env.hash path c.ring
  host ← convert_host_to_number hostname
  ok (hostname, host)

-- The test and the effect of a host that has reached the time-out limit: `true` when it has been
-- taken off the ring by this call.
unfoldable pub check_failure :
    {World : Type 0} → Env → Text → ℤ → Client World → Run (Bool × Client World)
check_failure env hostname (negsuc n) c = fault undefined
check_failure env hostname (pos n) c = do
  counter ← host_elem (pos n) c.timeout_counters
  flag ← host_elem (pos n) c.failure_flags
  let dropped = record c {
    ring = remove_node env.hash hostname c.ring;
    failure_flags = set c.failure_flags n true;
  }
  ok (if leb timeout_limit counter && not flag then (true, dropped) else (false, c))

module _ (rpc : Rpc) (env : Env) where
  -- A failed read is no longer tracked.
  unfoldable pub untrack_failed : ℤ → ℤ × List ℕ × Client rpc.World → ℤ × List ℕ × Client rpc.World
  untrack_failed fd (result, bytes, c) =
      if int_beq result minus_one
      then (result, bytes, record c { fd_map = erase fd c.fd_map })
      else (result, bytes, c)

  -- `hvac_remote_read`: the result and the bytes that the buffer received.
  unfoldable pub remote_read : ℤ → ℕ → Client rpc.World → Run (ℤ × List ℕ × Client rpc.World)
  remote_read fd count c = elim (lookup fd c.fd_map) [
    | none ↦ ok (minus_one, [], c)
    | some path ↦ do
      host ← hashed_host env path
      r ← remote_fetch rpc env host fd count minus_one c
      ok (untrack_failed fd r)
  ]

  -- `hvac_remote_pread`
  unfoldable pub remote_pread : ℤ → ℕ → ℤ → Client rpc.World → Run (ℤ × List ℕ × Client rpc.World)
  remote_pread fd count offset c = elim (lookup fd c.fd_map) [
    | none ↦ ok (minus_one, [], c)
    | some path ↦ do
      (hostname, host) ← ring_host env path c
      (gone, c') ← check_failure env hostname host c
      let fetch : Run (ℤ × List ℕ × Client rpc.World) = do
        r ← remote_fetch rpc env host fd count offset c'
        ok (untrack_failed fd r)
      if gone then ok (minus_one, [], record c' { fd_map = erase fd c'.fd_map }) else fetch
  ]

  -- `hvac_remote_lseek`; its parameters are `int`.
  unfoldable pub remote_lseek : ℤ → ℤ → ℤ → Client rpc.World → Run (ℤ × Client rpc.World)
  remote_lseek fd offset whence c = elim (lookup fd c.fd_map) [
    | none ↦ ok (minus_one, c)
    | some path ↦ do
      (hostname, host) ← ring_host env path c
      remote_position rpc env host fd (to_int32 offset) whence c
  ]

  -- `hvac_remote_close`
  unfoldable pub remote_close : ℤ → Client rpc.World → Run (Client rpc.World)
  remote_close fd c = elim (lookup fd c.fd_map) [
    | none ↦ ok c
    | some path ↦ do
      (hostname, host) ← ring_host env path c
      (gone, c') ← check_failure env hostname host c
      if gone then ok c' else remote_release rpc env host fd c'
  ]

  -- `hvac_remove_fd`: whether the descriptor was tracked.
  unfoldable pub remove_fd : ℤ → Client rpc.World → Run (Bool × Client rpc.World)
  remove_fd fd c = elim c.fd_map [
    | [] ↦ ok (false, c)
    | e ∷ es ↦ do
      c' ← remote_close fd c
      ok (has_key fd c'.fd_map, record c' { fd_map = erase fd c'.fd_map })
  ]
