-- ===== src/Client/Calls.antt =====
-- hvac_comm_client.cpp: the remote calls, each with the callback that stores its answer and the
-- wait for that callback.
use hvac_checkpoint.Common.{
  ◌%◌, ◌^◌, ℕ, some, none, List, [], ◌+◌, Bool, true, false, if◌then◌else◌, ◌==◌,
}
use hvac_checkpoint.Common.Int.{ℤ, pos, int_eq, minus_one, to_int32}
use hvac_checkpoint.Common.Maps.{insert, erase, index}
use hvac_checkpoint.Common.Text.{Text, c_str}
use hvac_checkpoint.Common.Run.{Run, ok, fault, assertion, exited, blocked, undefined, ◌>>=◌}
use hvac_checkpoint.Ports.{lookup_addr}
use hvac_checkpoint.Server.Files.{OpenIn, CloseIn, SeekIn}
use hvac_checkpoint.Server.Read.{RpcIn}
use hvac_checkpoint.Client.{Client, Env, Rpc, Reply, answered, late, garbled, failed, silent}

-- `hvac_client_comm_lookup_addr` at the head of every call: without an entry the address that is
-- called is an uninitialised variable.
unfoldable pub server_address :
    {World : Type 0} → Env → ℤ → Client World → Run (Text × Client World)
server_address env host c =
    let (found, cache) = lookup_addr host env.ports c.address_cache in
    let c' = record c { address_cache = cache } in
    elim found [ some address ↦ ok (address, c') | none ↦ fault undefined ]

-- `hvac_open_cb`: the callback stores the server's descriptor and sets `done`; with no callback before
-- the end of the wait the flag stays as it was.
unfoldable pub open_cb : {World : Type 0} → ℤ → Reply ℤ → Client World → Run (Bool × Client World)
open_cb fd (answered ret_status) c =
    ok (true, record c { fd_redir_map = insert fd ret_status c.fd_redir_map })
open_cb fd (late ret_status) c = ok (false, c)
open_cb fd garbled c = fault undefined
open_cb fd failed c = fault assertion
open_cb fd silent c = ok (false, c)

-- `hvac_client_block`, by what becomes of `done` within the time limit: a wait that times out counts
-- the host and exits the process.
unfoldable pub client_block : {World : Type 0} → Bool × Client World → Run (Client World)
client_block (done, c) = if done then ok c else fault exited

unfoldable pub finish_open : {World : Type 0} → ℤ → Reply ℤ → Client World → Run (Client World)
finish_open fd reply c = open_cb fd reply c >>= client_block

-- `hvac_read_cb`: `done` and `bytes_read`, which is -1 before, and stays so where the answer does not
-- decode; with it the bytes that the server pushed. The wait has no time limit, so a late answer counts.
unfoldable pub read_cb : Reply (ℤ × List ℕ) → Run (Bool × ℤ × List ℕ)
read_cb (answered (ret, bytes)) = ok (true, ret, bytes)
read_cb (late (ret, bytes)) = ok (true, ret, bytes)
read_cb garbled = ok (true, minus_one, [])
read_cb failed = fault assertion
read_cb silent = ok (false, minus_one, [])

-- `hvac_read_block`, which waits with no time limit.
unfoldable pub read_block : Bool × ℤ × List ℕ → Run (ℤ × List ℕ)
read_block (done, bytes_read, bytes) = if done then ok (bytes_read, bytes) else fault blocked

unfoldable pub finish_read : Reply (ℤ × List ℕ) → Run (ℤ × List ℕ)
finish_read reply = read_cb reply >>= read_block

-- `done` and `read_ret`, which all seeks of the process share; `gen_seek_rpc` resets them.
pub record SeekState : Type 0 where
  pub done : ℕ
  pub read_ret : ℤ

abbrev pub seek_reset : SeekState
seek_reset = record { done = 0; read_ret = minus_one }

-- `hvac_seek_cb`, which counts `done` up, a `uint8_t`; the code of the answer is not looked at.
unfoldable pub seek_cb : Reply ℤ → SeekState → Run SeekState
seek_cb (answered ret) s = ok (record { done = (s.done + 1) % 2 ^ 8; read_ret = ret })
seek_cb (late ret) s = ok (record { done = (s.done + 1) % 2 ^ 8; read_ret = ret })
seek_cb garbled s = fault undefined
seek_cb failed s = fault undefined
seek_cb silent s = ok s

-- `hvac_seek_block`, which waits until `done` is exactly `HG_TRUE`.
unfoldable pub seek_block : SeekState → Run ℤ
seek_block s = if s.done == 1 then ok s.read_ret else fault blocked

-- A seek with no other seek under way.
unfoldable pub finish_seek : Reply ℤ → Run ℤ
finish_seek reply = seek_cb reply seek_reset >>= seek_block

module _ (rpc : Rpc) (env : Env) where
  -- `hvac_client_comm_gen_open_rpc`, then `hvac_client_block`
  unfoldable pub remote_open : ℤ → Text → ℤ → Client rpc.World → Run (Client rpc.World)
  remote_open host path fd c = do
    (address, c') ← server_address env host c
    let inp : OpenIn = record { path = c_str path; client_rank = env.client_rank; localfd = fd }
    let (reply, w) = rpc.open_rpc address inp c'.world
    finish_open fd reply (record c' { world = w })

  -- `hvac_client_comm_gen_read_rpc`, then `hvac_read_block`. A descriptor that is missing from
  -- `fd_redir_map` is read as 0 and inserted; the count is cut to 32 bits.
  unfoldable pub remote_fetch :
      ℤ → ℤ → ℕ → ℤ → Client rpc.World → Run (ℤ × List ℕ × Client rpc.World)
  remote_fetch host fd count offset c = do
    (address, c₁) ← server_address env host c
    let (accessfd, redir) = index fd (pos 0) c₁.fd_redir_map
    let inp : RpcIn = record {
      input_val = to_int32 (pos count);
      accessfd = accessfd;
      localfd = fd;
      offset = offset;
      client_rank = env.client_rank;
    }
    let (reply, w) = rpc.read_rpc address inp c₁.world
    (result, bytes) ← finish_read reply
    ok (result, bytes, record c₁ { world = w; fd_redir_map = redir })

  -- `hvac_client_comm_gen_close_rpc`, which waits for no answer, and asserts that the call is made, sent
  -- and freed.
  unfoldable pub remote_release : ℤ → ℤ → Client rpc.World → Run (Client rpc.World)
  remote_release host fd c = do
    (address, c₁) ← server_address env host c
    let (accessfd, redir) = index fd (pos 0) c₁.fd_redir_map
    let inp : CloseIn = record { fd = accessfd; client_rank = env.client_rank }
    elim (rpc.close_rpc address inp c₁.world) [
      | none ↦ fault assertion
      | some w ↦ ok (record c₁ { world = w; fd_redir_map = erase fd redir })
    ]

  -- `hvac_client_comm_gen_seek_rpc`, then `hvac_seek_block`
  unfoldable pub remote_position : ℤ → ℤ → ℤ → ℤ → Client rpc.World → Run (ℤ × Client rpc.World)
  remote_position host fd offset whence c = do
    (address, c₁) ← server_address env host c
    let (accessfd, redir) = index fd (pos 0) c₁.fd_redir_map
    let inp : SeekIn = record { fd = accessfd; offset = offset; whence = whence }
    let (reply, w) = rpc.seek_rpc address inp c₁.world
    position ← finish_seek reply
    ok (position, record c₁ { world = w; fd_redir_map = redir })
