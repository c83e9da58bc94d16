-- ===== src/Cluster/Routing.antt =====
-- hvac_client.cpp to hvac_comm.cpp: the server that a `pread` goes to.
use hvac_checkpoint.Common.{ℕ, ◌<◌, ◌^◌, ◌≡◌, ◌≢◌, refl, ap, ◌∙◌, false, some, List, arith}
use hvac_checkpoint.Common.Int.{
  ℤ, pos, minus_one, int_eq, int_beq, int_beq_iff, to_int32, to_int32_fits, to_unsigned,
}
use hvac_checkpoint.Common.Maps.{lookup}
use hvac_checkpoint.Common.Text.{Text}
use hvac_checkpoint.Common.Run.{Run, ok, ◌>>=◌}
use hvac_checkpoint.Posix.{Posix, ReadLaws}
use hvac_checkpoint.Ports.{lookup_addr}
use hvac_checkpoint.Server.{Server, HgCalls}
use hvac_checkpoint.Server.Read.Laws.{IsSetUp, served}
use hvac_checkpoint.Client.{Client, Env, Reply, answered}
use hvac_checkpoint.Client.Calls.{remote_fetch}
use hvac_checkpoint.Client.Remote.{ring_host, untrack_failed, remote_pread}
use hvac_checkpoint.Client.Invariant.{IsConsistent}
use hvac_checkpoint.Client.Operations.{HasServerCount, remote_pread_lem}
use hvac_checkpoint.Client.Serving.{request, remote_fetch-answered}
use hvac_checkpoint.Cluster.{Cluster, cluster}
use hvac_checkpoint.Cluster.Reading.{server_address-found, reads_remotely}

module _ (os : Posix) (reads : ReadLaws os) (hg : HgCalls) (up : IsSetUp hg) where
  -- What the handler of a `pread` reads is what the system reads for the message's own count.
  served-pread :
      (env : Env) (fd remote offset : ℤ) (count : ℕ) (s : Server os.Fs)
      → offset ≢ minus_one
      → count < 2 ^ 31
      → served os (request env fd remote count offset) s ≡ os.pread_file remote count offset s.fs
  served-pread env fd remote offset count s at_offset small =
      let other : int_beq offset minus_one ≡ false = ground (arith, int_beq_iff offset minus_one) in
      let size : to_unsigned 64 (to_int32 (pos count)) ≡ count =
        rw (to_int32_fits (pos count) (omega arith, omega arith)) (omega arith) in
      rw (other, size) refl

  -- In a consistent state of a client with at least one server and fewer than 2^31: a `pread` of
  -- fewer than 2^31 bytes at an offset that is not -1, of a tracked descriptor with a remote one
  -- stored for it, goes to the server that the ring gives for the path. Where the address of that
  -- server is known and its own read under the remote descriptor finds something and is
  -- transferred, the `pread` returns that, whichever server had given the descriptor out at the
  -- open.
  pub remote_pread-ring_server :
      (env : Env) (counted : HasServerCount env) (c : Client (Cluster os))
      (real address hostname : Text) (fd remote offset : ℤ) (count n k : ℕ)
      → IsConsistent env c
      → lookup fd c.fd_map ≡ some real
      → lookup fd c.fd_redir_map ≡ some remote
      → ring_host env real c ≡ ok (hostname, pos n)
      → (lookup_addr (pos n) env.ports c.address_cache).0 ≡ some address
      → offset ≢ minus_one
      → count < 2 ^ 31
      → (os.pread_file remote count offset (c.world address).fs).0 ≡ pos k
      → k < 2 ^ 31
      → hg.transfer k ≡ 0
      → (c' : Client (Cluster os)) × (remote_pread (cluster os hg) env fd count offset c
          ≡ ok (pos k, (os.pread_file remote count offset (c.world address).fs).1, c'))
        × (lookup fd c'.fd_map ≡ some real)
  unfolding untrack_failed
  remote_pread-ring_server env counted c real address hostname fd remote offset count n k v tracked
        redirected routed known at_offset small found small_k sent =
      let rpc = cluster os hg in
      let s = c.world address in
      let inp = request env fd remote count offset in
      let bytes = (os.pread_file remote count offset s.fs).1 in
      let same = served-pread env fd remote offset count s at_offset small in
      let c₁ : Client (Cluster os) = record c {
        address_cache = (lookup_addr (pos n) env.ports c.address_cache).1;
      } in
      let w = (rpc.read_rpc address inp c.world).1 in
      let (_, n', _, routed', run) =
        remote_pread_lem rpc env counted fd count offset real c v tracked in
      let host : pos n' ≡ pos n = cc (routed, routed') in
      let pushed =
        reads_remotely os hg reads up inp address c.world k
          (ap (λ (t : ℤ × List ℕ × os.Fs). t.0) same ∙ found) small_k sent in
      let reply =
        ap (λ (r : Reply (ℤ × List ℕ) × Cluster os). r.0) pushed
        ∙ ap (λ (t : ℤ × List ℕ × os.Fs). answered (pos k, t.1)) same in
      let answer : rpc.read_rpc address inp c.world ≡ (answered (pos k, bytes), w) =
        ap (λ (a : Reply (ℤ × List ℕ)). (a, w)) reply in
      let fetched =
        remote_fetch-answered rpc env (pos n) fd remote count offset address (pos k) bytes c c₁ w
          (server_address-found env (pos n) address c known) redirected answer in
      let untrack : Run (ℤ × List ℕ × Client (Cluster os))
          → Run (ℤ × List ℕ × Client (Cluster os)) =
        λ r. r >>= λ t. ok (untrack_failed rpc env fd t) in
      (
        record c₁ { world = w },
        run
            ∙ ap (λ (h : ℤ). untrack (remote_fetch rpc env h fd count offset c)) host
            ∙ ap untrack fetched,
        tracked,
      )
