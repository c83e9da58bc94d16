-- ===== src/Wrappers/Fallback.antt =====
-- wrappers.c: `read` and `pread` when the server does not serve a descriptor. The local calls that are
-- to stand in come behind a log line, which is given a path that the client has erased by then.
use hvac_checkpoint.Common.{ℕ, ◌≡◌, ◌∙◌, some, List, arith}
use hvac_checkpoint.Common.Int.{ℤ, pos, minus_one, int_eq, to_int32}
use hvac_checkpoint.Common.Maps.{lookup, erase, index}
use hvac_checkpoint.Common.Text.{Text, codes}
use hvac_checkpoint.Common.Run.{ok, fault, undefined, ◌>>=◌}
use hvac_checkpoint.Server.Read.{RpcIn}
use hvac_checkpoint.Client.{Client, Env, Rpc}
use hvac_checkpoint.Client.Calls.{server_address, remote_fetch, finish_read}
use hvac_checkpoint.Client.Remote.{get_path, hashed_host, ring_host, untrack_failed, remote_read}
use hvac_checkpoint.Client.Invariant.{IsConsistent}
use hvac_checkpoint.Client.Operations.{HasServerCount, remote_pread_lem}
use hvac_checkpoint.Client.Fallback.{read_fails-lookup, pread_fails-lookup}
use hvac_checkpoint.Wrappers.{Libc, Process, map_or_fail, log_tracked_path, read, pread}
use hvac_checkpoint.Wrappers.Plain.{HasSymbols}

-- What a client asks of a server for a read.
abbrev pub read_request : {World : Type 0} → Env → ℤ → ℕ → ℤ → Client World → RpcIn
read_request env fd count offset c = record {
  input_val = to_int32 (pos count);
  accessfd = (index fd (pos 0) c.fd_redir_map).0;
  localfd = fd;
  offset = offset;
  client_rank = env.client_rank;
}

-- A fetch that the server does not serve: its address is known, and its answer is -1 or does not
-- decode.
pub record IsRefused (rpc : Rpc) (env : Env) (host fd : ℤ) (count : ℕ) (offset : ℤ)
    (c : Client rpc.World) : Type 0 where
  pub address : Text
  pub known : Client rpc.World
  pub found : server_address env host c ≡ ok (address, known)
  pub bytes : List ℕ
  pub refused :
      finish_read (rpc.read_rpc address (read_request env fd count offset known) known.world).0
      ≡ ok (minus_one, bytes)

module _ (rpc : Rpc) (env : Env) (host fd : ℤ) (count : ℕ) (offset : ℤ) (c : Client rpc.World) where
  IsRefused-remote_fetch :
      IsRefused rpc env host fd count offset c
      → (bytes : List ℕ) × (c' : Client rpc.World) × ((remote_fetch rpc env host fd count offset c
            >>= λ t. ok (untrack_failed rpc env fd t))
          ≡ ok (minus_one, bytes, c'))
  unfolding remote_fetch untrack_failed
  IsRefused-remote_fetch v =
      let answer =
        rpc.read_rpc v.address (read_request env fd count offset v.known) v.known.world in
      let redir = (index fd (pos 0) v.known.fd_redir_map).1 in
      (
        v.bytes,
        record v.known { world = answer.1; fd_redir_map = redir; fd_map = erase fd v.known.fd_map },
        ground (arith, v.found, v.refused),
      )

module _ (lc : Libc) (rpc : Rpc) (env : Env) (found : HasSymbols lc) where
  -- Where every call of the C library is found, and a server refuses the read that the process's
  -- `read` of a tracked descriptor sends: the local read does not come about, since the log line
  -- before it reads freed memory.
  pub read_fails_freed :
      (fd host : ℤ) (count : ℕ) (path : Text) (p : Process lc.Local rpc.World)
      → lookup fd p.client.fd_map ≡ some path
      → hashed_host env path ≡ ok host
      → IsRefused rpc env host fd count minus_one p.client
      → read lc rpc env fd count p ≡ fault undefined
  unfolding read map_or_fail get_path log_tracked_path remote_read
  read_fails_freed fd host count path p tracked hashed v =
      let (bytes, c, fetched) = IsRefused-remote_fetch rpc env host fd count minus_one p.client v in
      let failed : remote_read rpc env fd count p.client ≡ ok (minus_one, bytes, c) =
        rw (tracked, remote_read, hashed) fetched in
      let gone = read_fails-lookup rpc env fd count bytes p.client c failed in
      unfold read in rw (found (codes "read"), failed, tracked, log_tracked_path, gone)

  -- Where every call of the C library is found, the client is in a consistent state, with at least
  -- one server and fewer than 2^31, and the server that the ring gives refuses the read that the
  -- process's `pread` of a tracked descriptor sends: the local `pread` does not come about, since
  -- the log line before it reads freed memory.
  pub pread_fails_freed :
      (counted : HasServerCount env) (fd host : ℤ) (count : ℕ) (offset : ℤ) (path hostname : Text)
      (p : Process lc.Local rpc.World)
      → IsConsistent env p.client
      → lookup fd p.client.fd_map ≡ some path
      → ring_host env path p.client ≡ ok (hostname, host)
      → IsRefused rpc env host fd count offset p.client
      → pread lc rpc env fd count offset p ≡ fault undefined
  unfolding pread map_or_fail get_path log_tracked_path
  pread_fails_freed counted fd host count offset path hostname p consistent tracked routed v =
      let (hostname', n, lt, routed', served) =
        remote_pread_lem rpc env counted fd count offset path p.client consistent tracked in
      let same : host ≡ pos n = cc (routed, routed') in
      let (bytes, c, fetched) = IsRefused-remote_fetch rpc env host fd count offset p.client v in
      let failed = served ∙ (rw same at fetched) in
      let gone = pread_fails-lookup rpc env fd count offset bytes p.client c failed in
      rw (found (codes "pread"), tracked, failed, log_tracked_path, gone)
