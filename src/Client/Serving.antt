-- ===== src/Client/Serving.antt =====
-- hvac_client.cpp and hvac_comm_client.cpp: an open and a remote read that a server answers.
use hvac_checkpoint.Common.{ℕ, ◌%◌, ◌<◌, ◌≡◌, ◌≢◌, false, some, List, ◌==◌, arith, true}
use hvac_checkpoint.Common.Int.{ℤ, pos, minus_one, int_eq, int_beq, int_beq_iff, to_int32}
use hvac_checkpoint.Common.Maps.{Map, lookup, index, insert}
use hvac_checkpoint.Common.Text.{Text, c_str}
use hvac_checkpoint.Common.Run.{ok}
use hvac_checkpoint.Server.Read.{RpcIn}
use hvac_checkpoint.Client.{Client, Env, Rpc, answered}
use hvac_checkpoint.Client.Calls.{
  server_address, read_cb, read_block, finish_read, remote_fetch, remote_open, finish_open, open_cb,
  client_block,
}
use hvac_checkpoint.Client.Remote.{hashed_host, untrack_failed, remote_read}
use hvac_checkpoint.Server.Files.{OpenIn}
use hvac_checkpoint.Client.Track.{wants_tracking, init_mercury, track_file}

-- What a read of a descriptor asks the server for.
abbrev pub request : Env → ℤ → ℤ → ℕ → ℤ → RpcIn
request env fd remote count offset = record {
  input_val = to_int32 (pos count);
  accessfd = remote;
  localfd = fd;
  offset = offset;
  client_rank = env.client_rank;
}

-- What an open asks the server for.
abbrev pub open_request : Env → ℤ → Text → OpenIn
open_request env fd path = record { path = c_str path; client_rank = env.client_rank; localfd = fd }

module _ (rpc : Rpc) (env : Env) where
  pub index-some :
      (fd remote : ℤ) (m : Map ℤ ℤ) → lookup fd m ≡ some remote → index fd (pos 0) m ≡ (remote, m)
  unfolding index
  index-some fd remote m e = rw (e, index)

  pub remote_fetch-answered :
      (host fd remote : ℤ) (count : ℕ) (offset : ℤ) (address : Text) (r : ℤ) (bytes : List ℕ)
      (c c₁ : Client rpc.World) (w : rpc.World)
      → server_address env host c ≡ ok (address, c₁)
      → lookup fd c₁.fd_redir_map ≡ some remote
      → rpc.read_rpc address (request env fd remote count offset) c₁.world
        ≡ (answered (r, bytes), w)
      → remote_fetch rpc env host fd count offset c ≡ ok (r, bytes, record c₁ { world = w })
  unfolding remote_fetch finish_read read_cb read_block
  remote_fetch-answered host fd remote count offset address r bytes c c₁ w found redirected answer =
      ground (arith, found, index-some fd remote c₁.fd_redir_map redirected, answer)

  -- A read of a tracked descriptor goes to the server that the hash of its path gives, and asks for
  -- the count, cut to 32 bits, of the descriptor that this server has for it, at the offset -1. Where
  -- the server's address is found and it answers, the read returns that answer with the bytes that it
  -- pushed; unless the answer is -1, the descriptor stays tracked.
  pub remote_read-answered :
      (fd remote r : ℤ) (count : ℕ) (path address : Text) (bytes : List ℕ) (c c₁ : Client rpc.World)
      (w : rpc.World)
      → 0 < env.server_count
      → lookup fd c.fd_map ≡ some path
      → server_address env (to_int32 (pos (env.hash path % env.server_count))) c ≡ ok (address, c₁)
      → lookup fd c₁.fd_redir_map ≡ some remote
      → rpc.read_rpc address (request env fd remote count minus_one) c₁.world
        ≡ (answered (r, bytes), w)
      → r ≢ minus_one
      → remote_read rpc env fd count c ≡ ok (r, bytes, record c₁ { world = w })
  unfolding remote_read hashed_host untrack_failed
  remote_read-answered fd remote r count path address bytes c c₁ w servers tracked found redirected
        answer good =
      let host = to_int32 (pos (env.hash path % env.server_count)) in
      let fetched =
        remote_fetch-answered host fd remote count minus_one address r bytes c c₁ w found redirected
          answer in
      let some_server : env.server_count == 0 ≡ false = ground arith in
      let kept : int_beq r minus_one ≡ false = ground (arith, int_beq_iff r minus_one) in
      rw (tracked, remote_read, hashed_host, some_server, fetched, untrack_failed, kept)

  remote_open-answered :
      (host fd r : ℤ) (path address : Text) (c c₁ : Client rpc.World) (w : rpc.World)
      → server_address env host c ≡ ok (address, c₁)
      → rpc.open_rpc address (open_request env fd path) c₁.world ≡ (answered r, w)
      → remote_open rpc env host path fd c
        ≡ ok (record c₁ { world = w; fd_redir_map = insert fd r c₁.fd_redir_map })
  unfolding remote_open finish_open open_cb client_block
  remote_open-answered host fd r path address c c₁ w found answer = ground (arith, found, answer)

  -- A file that is to be tracked, whose server is found and answers the open, is tracked under the
  -- descriptor, with the server's descriptor beside it.
  pub track_file-answered :
      (fd r : ℤ) (flags : ℕ) (path real address : Text) (c c₁ : Client rpc.World) (w : rpc.World)
      → 0 < env.server_count
      → wants_tracking env path flags ≡ some real
      → server_address env
          (to_int32 (pos (env.hash real % env.server_count)))
          (init_mercury env (record c { fd_map = insert fd real c.fd_map }))
        ≡ ok (address, c₁)
      → rpc.open_rpc address (open_request env fd real) c₁.world ≡ (answered r, w)
      → track_file rpc env path flags fd c
        ≡ ok (true, record c₁ { world = w; fd_redir_map = insert fd r c₁.fd_redir_map })
  unfolding track_file hashed_host
  track_file-answered fd r flags path real address c c₁ w servers wanted found answer =
      let host = to_int32 (pos (env.hash real % env.server_count)) in
      let opened = remote_open-answered host fd r real address _ c₁ w found answer in
      let some_server : env.server_count == 0 ≡ false = ground arith in
      rw (wanted, track_file, hashed_host, some_server, opened)
