-- ===== src/Tests/Routes.antt =====
-- The theorem on the server of a `pread`.
use hvac_checkpoint.Common.{◌≡◌, refl, some, [], ◌∷◌, arith}
use hvac_checkpoint.Common.Int.{pos, int_eq}
use hvac_checkpoint.Common.Maps.{lookup}
use hvac_checkpoint.Common.Text.{codes}
use hvac_checkpoint.Common.Run.{ok}
use hvac_checkpoint.Ports.{lookup_addr}
use hvac_checkpoint.Server.{start}
use hvac_checkpoint.Client.{Client}
use hvac_checkpoint.Client.Remote.{ring_host, remote_pread}
use hvac_checkpoint.Client.Invariant.{IsConsistent}
use hvac_checkpoint.Client.Reach.{Reach-IsConsistent}
use hvac_checkpoint.Cluster.{Cluster, cluster}
use hvac_checkpoint.Cluster.Routing.{remote_pread-ring_server}
use hvac_checkpoint.Tests.Heads.{heads, heads-ReadLaws}
use hvac_checkpoint.Tests.Servers.{calls, calls-IsSetUp}
use hvac_checkpoint.Tests.Clients.{
  env, env-HasServerCount, healthy, path, tracking, run, tracked_here, redirected_here,
  client_program,
}

-- Every server has another file open under the descriptor 3.
abbrev others : Cluster heads
others address = start (record { files = []; opened = 9 ∷ 8 ∷ 7 ∷ [] })

abbrev astray : Client (Cluster heads)
astray = record {
  world = others;
  fd_map = tracking.fd_map;
  fd_redir_map = tracking.fd_redir_map;
  ring = tracking.ring;
  timeout_counters = tracking.timeout_counters;
  failure_flags = tracking.failure_flags;
  mercury_init = tracking.mercury_init;
  address_cache = tracking.address_cache;
}

astray-IsConsistent : IsConsistent env astray
astray-IsConsistent =
    let v = Reach-IsConsistent healthy env env-HasServerCount run in
    record { ring = v.ring; counters = v.counters; flags = v.flags; redirected = v.redirected }

routed_here : ring_host env path astray ≡ ok (codes "server1", pos 0)
unfolding client_program
routed_here = refl

listed_here : (lookup_addr (pos 0) env.ports astray.address_cache).0 ≡ some (codes "tcp://a:1")
unfolding client_program
listed_here = refl

remote_pread-ring_server_example :
    (c' : Client (Cluster heads)) × (remote_pread (cluster heads calls) env (pos 5) 2 (pos 0) astray
      ≡ ok (pos 2, 9 ∷ 8 ∷ [], c'))
    × (lookup (pos 5) c'.fd_map ≡ some path)
remote_pread-ring_server_example =
    remote_pread-ring_server heads heads-ReadLaws calls calls-IsSetUp env env-HasServerCount astray
      path (codes "tcp://a:1") (codes "server1") (pos 5) (pos 3) (pos 0) 2 0 2 astray-IsConsistent
      tracked_here redirected_here routed_here listed_here (λ e. absurd (cc e)) (omega arith) refl
      (omega arith) refl
