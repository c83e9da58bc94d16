-- ===== src/Earlier/Calls.antt =====
-- backup/hvac_comm_client.cpp: the remote calls of the earlier version, with their callbacks and waits.
use hvac_checkpoint.Common.{ℕ, some, none, List, [], if◌then◌else◌, ◌==◌}
use hvac_checkpoint.Common.Int.{ℤ, pos, int_eq, to_int32}
use hvac_checkpoint.Common.Maps.{insert, erase, index}
use hvac_checkpoint.Common.Text.{Text, c_str}
use hvac_checkpoint.Common.Run.{Run, ok, fault, assertion, exited, blocked, undefined, ◌>>=◌}
use hvac_checkpoint.Ports.{lookup_addr}
use hvac_checkpoint.Client.{Env, Reply, answered, late, garbled, failed, silent}
use hvac_checkpoint.Earlier.{Client, Rpc, OpenIn, RpcIn, SeekIn, CloseIn, Shared, reset, signal}

-- `hvac_client_comm_lookup_addr` at the head of every call.
unfoldable pub server_address :
    {World : Type 0} → Env → ℤ → Client World → Run (Text × Client World)
server_address env host c =
    let (found, cache) = lookup_addr host env.ports c.address_cache in
    let c' = record c { address_cache = cache } in
    elim found [ some address ↦ ok (address, c') | none ↦ fault undefined ]

-- `hvac_open_cb`, which leaves `read_ret` alone; it runs before the end of the wait, or not in time.
unfoldable pub open_cb :
    {World : Type 0} → ℤ → Reply ℤ → Shared → Client World → Run (Shared × Client World)
open_cb fd (answered ret_status) s c =
    ok (signal s.read_ret s, record c { fd_redir_map = insert fd ret_status c.fd_redir_map })
open_cb fd (late ret_status) s c = ok (s, c)
open_cb fd garbled s c = fault undefined
open_cb fd failed s c = fault assertion
open_cb fd silent s c = ok (s, c)

-- `hvac_client_block`: a wait that times out exits the process.
unfoldable pub client_block : Shared → Run (Unit {0})
client_block s = if s.done == 1 then ok tt else fault exited

-- `hvac_read_cb`, as far as it runs before the end of the wait, which has a time limit here: an answer
-- that does not decode is read all the same, and a late one comes after the process has ended.
unfoldable pub read_cb : Reply (ℤ × List ℕ) → Shared → Run (Shared × List ℕ)
read_cb (answered (ret, bytes)) s = ok (signal ret s, bytes)
read_cb (late answer) s = ok (s, [])
read_cb garbled s = fault undefined
read_cb failed s = fault assertion
read_cb silent s = ok (s, [])

-- `hvac_read_block`: a wait that times out exits the process here too.
unfoldable pub read_block : Shared → Run ℤ
read_block s = if s.done == 1 then ok s.read_ret else fault exited

-- A read with no other call under way.
unfoldable pub finish_read : Reply (ℤ × List ℕ) → Run (ℤ × List ℕ)
finish_read reply = do
  (s, bytes) ← read_cb reply reset
  bytes_read ← read_block s
  ok (bytes_read, bytes)

-- `hvac_seek_cb`, which does not look at the code of the answer.
unfoldable pub seek_cb : Reply ℤ → Shared → Run Shared
seek_cb (answered ret) s = ok (signal ret s)
seek_cb (late ret) s = ok (signal ret s)
seek_cb garbled s = fault undefined
seek_cb failed s = fault undefined
seek_cb silent s = ok s

-- `hvac_seek_block`, which waits with no time limit.
unfoldable pub seek_block : Shared → Run ℤ
seek_block s = if s.done == 1 then ok s.read_ret else fault blocked

-- The calls, with no other call under way.
module _ (rpc : Rpc) (env : Env) where
  -- `hvac_client_comm_gen_open_rpc`, then `hvac_client_block`
  unfoldable pub remote_open : ℤ → Text → ℤ → Client rpc.World → Run (Client rpc.World)
  remote_open host path fd c = do
    (address, c₁) ← server_address env host c
    let inp : OpenIn = record { path = c_str path }
    let (reply, w) = rpc.open_rpc address inp c₁.world
    (s, c₂) ← open_cb fd reply reset (record c₁ { world = w })
    _ ← client_block s
    ok c₂

  -- `hvac_client_comm_gen_read_rpc`, then `hvac_read_block`
  unfoldable pub remote_fetch :
      ℤ → ℤ → ℕ → ℤ → Client rpc.World → Run (ℤ × List ℕ × Client rpc.World)
  remote_fetch host fd count offset c = do
    (address, c₁) ← server_address env host c
    let (accessfd, redir) = index fd (pos 0) c₁.fd_redir_map
    let inp : RpcIn = record {
      input_val = to_int32 (pos count);
      accessfd = accessfd;
      offset = offset;
    }
    let (reply, w) = rpc.read_rpc address inp c₁.world
    (bytes_read, bytes) ← finish_read reply
    ok (bytes_read, bytes, record c₁ { world = w; fd_redir_map = redir })

  -- `hvac_client_comm_gen_close_rpc`, which waits for no answer, and asserts that the call is made, sent
  -- and freed.
  unfoldable pub remote_release : ℤ → ℤ → Client rpc.World → Run (Client rpc.World)
  remote_release host fd c = do
    (address, c₁) ← server_address env host c
    let (accessfd, redir) = index fd (pos 0) c₁.fd_redir_map
    let inp : CloseIn = record { fd = accessfd }
    elim (rpc.close_rpc address inp c₁.world) [
      | none ↦ fault assertion
      | some w ↦ ok (record c₁ { world = w; fd_redir_map = erase fd redir })
    ]

  -- `hvac_client_comm_gen_seek_rpc`, then `hvac_seek_block`
  unfoldable pub remote_position : ℤ → ℤ → ℤ → ℤ → Client rpc.World → Run (ℤ × Client rpc.World)
  remote_position host fd offset whence c = do
    (address, c₁) ← server_address env host c
    let (accessfd, redir) = index fd (pos 0) c₁.fd_redir_map
    let inp : SeekIn = record { fd = accessfd; offset = offset; whence = whence }
    let (reply, w) = rpc.seek_rpc address inp c₁.world
    s ← seek_cb reply reset
    position ← seek_block s
    ok (position, record c₁ { world = w; fd_redir_map = redir })
