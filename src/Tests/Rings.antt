-- ===== src/Tests/Rings.antt =====
-- The theorems on the ring, at a ring of the servers 1 and 2 with two places each.
use hvac_checkpoint.Common.{
  ℕ, zero, suc, ◌<◌, ◌≡◌, ◌≢◌, ◌⊎◌, inl, inr, none, some, ◌↔◌, arith, refl, ap, sym, true, false,
  nat_eq, [], ◌∷◌,
}
use hvac_checkpoint.Common.Int.{pos}
use hvac_checkpoint.Common.Maps.{lookup}
use hvac_checkpoint.Common.Text.{Text, codes, text_beq}
use hvac_checkpoint.Common.Run.{ok}
use hvac_checkpoint.Ring.{HashRing, get_node, remove_node, add_node, place}
use hvac_checkpoint.Ring.Lookup.{Owns, get_node-Owns}
use mathlib.Core.Path.{subst}
use hvac_checkpoint.Ring.Failures.{In, remove_all, get_node-remove_all, remove_all-entries}
use hvac_checkpoint.Ring.Entries.{remove_node-add_node}
use hvac_checkpoint.Ring.Remap.{Uncontested, get_node-add_node}
use hvac_checkpoint.Ring.Servers.{
  server_ring, HasServers, server_ring-HasServers, route, route-server_ring,
}
use hvac_checkpoint.Tests.{hash, ring_program}

abbrev two_servers : HashRing
two_servers = server_ring hash 2 2

two_servers-HasServers : HasServers hash 2 two_servers
two_servers-HasServers = server_ring-HasServers hash 2 2

abbrev path : Text
path = codes "/data/a"

routed : get_node hash path two_servers ≡ ok (codes "server1")
routed = unfold ring_program in refl

names_differ : codes "server1" ≢ codes "server2"
names_differ e =
    let same : true ≡ false = ap (λ t. text_beq t (codes "server1")) e in absurd (cc same)

uncontested : Uncontested hash (codes "server2") two_servers
unfolding ring_program
uncontested zero lt = inl refl
uncontested (suc zero) lt = inl refl
uncontested (suc (suc r)) lt = absurd (omega arith)

get_node-add_node_example :
    (get_node hash path (add_node hash (codes "server3") two_servers) ≡ ok (codes "server3"))
    ⊎ (get_node hash path (add_node hash (codes "server3") two_servers)
        ≡ get_node hash path two_servers)
get_node-add_node_example = get_node-add_node hash (codes "server3") path two_servers

get_node-Owns_example : Owns (codes "server1") (hash path) two_servers.ring
get_node-Owns_example =
    unfold ring_program in
    get_node-Owns hash path (codes "server1") two_servers two_servers-HasServers.sorted routed

route-server_ring_example : (host : ℕ) × (host < 2) × (route hash path two_servers ≡ ok (pos host))
route-server_ring_example =
    route-server_ring hash 2 path 2 (omega arith) (omega arith) (omega arith)

free :
    (r : ℕ)
    → r < two_servers.replicas
    → lookup (place hash (codes "server3") r) two_servers.ring ≡ none
unfolding ring_program
free zero lt = refl
free (suc zero) lt = refl
free (suc (suc r)) lt = absurd (omega arith)

remove_node-add_node_example :
    remove_node hash (codes "server3") (add_node hash (codes "server3") two_servers) ≡ two_servers
remove_node-add_node_example =
    remove_node-add_node hash (codes "server3") two_servers two_servers-HasServers.sorted free

abbrev server_1 : Text
server_1 = codes "server1"

abbrev server_2 : Text
server_2 = codes "server2"

get_node-remove_all_example :
    get_node hash path (remove_all hash (server_2 ∷ []) two_servers) ≡ ok server_1
get_node-remove_all_example =
    get_node-remove_all hash (server_2 ∷ []) path server_1 two_servers two_servers-HasServers.sorted
      (λ node among. elim among [
        | inl same ↦ subst (λ n. Uncontested hash n two_servers) (sym same) uncontested
        | inr none_left ↦ absurd none_left
      ])
      routed
      (λ among. elim among [ inl same ↦ names_differ same | inr none_left ↦ absurd none_left ])

remove_all-entries_example :
    (lookup (place hash server_1 0) (remove_all hash (server_2 ∷ server_2 ∷ []) two_servers).ring
      ≡ some server_1)
    ↔ ((lookup (place hash server_1 0) two_servers.ring ≡ some server_1)
        × (In server_1 (server_2 ∷ server_2 ∷ []) → ⊥))
remove_all-entries_example =
    remove_all-entries hash (server_2 ∷ server_2 ∷ []) two_servers two_servers-HasServers.placed
      (λ node among. elim among [
        | inl same ↦ subst (λ n. Uncontested hash n two_servers) (sym same) uncontested
        | inr again ↦ elim again [
          | inl same ↦ subst (λ n. Uncontested hash n two_servers) (sym same) uncontested
          | inr none_left ↦ absurd none_left
        ]
      ])
      (place hash server_1 0) server_1
