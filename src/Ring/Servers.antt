-- ===== src/Ring/Servers.antt =====
-- The ring of the servers "server1" to "serverN" that hvac_client.cpp sets up in
-- `initialize_hash_ring`, and the way from a path to the number of a server.
use hvac_checkpoint.Common.{
  ℕ, zero, suc, ◌+◌, ◌≤◌, ◌<◌, ◌^◌, ◌≡◌, sym, ap, ◌∙◌, ◌⊎◌, inl, inr, ◌≢◌, some, [], ◌++◌,
  append-nil, add-one, arith, nat_eq,
}
use hvac_checkpoint.Common.Maps.{lookup}
use hvac_checkpoint.Common.OrderedMap.{IsSorted}
use hvac_checkpoint.Common.Text.{Text, codes, contains_prefix}
use hvac_checkpoint.Common.Decimal.{to_string, stoi, stoi-to_string}
use hvac_checkpoint.Common.Int.{ℤ, pos, pred_int}
use hvac_checkpoint.Common.Run.{Run, ok, fault, uncaught, ◌>>=◌}
use hvac_checkpoint.Ring.{
  HashRing, new_ring, add_node, get_node, remove_node, convert_host_to_number,
}
use hvac_checkpoint.Ring.Lookup.{
  get_node_cases, add_replicas-ne-nil, add_replicas-IsSorted, remove_replicas-IsSorted,
  get_node-Owns,
}
use hvac_checkpoint.Ring.Entries.{
  IsPlaced, add_node-IsPlaced, add_node-lookup, remove_node-IsPlaced, remove_node-lookup, place_of,
}

-- `"server" + to_string(i)`
unfoldable pub server_name : ℕ → Text
server_name i = codes "server" ++ to_string i

module _ (hash : Text → ℕ) where
  -- The loop of `initialize_hash_ring` from server `i`, with `left` rounds to go.
  unfoldable pub add_servers : ℕ → ℕ → HashRing → HashRing
  add_servers zero i h = h
  add_servers (suc left) i h = add_servers left (i + 1) (add_node hash (server_name i) h)

  unfoldable pub server_ring : ℕ → ℕ → HashRing
  server_ring count vnodes = add_servers count 1 (new_ring vnodes)

  -- `hashRing->ConvertHostToNumber(hashRing->GetNode(path))`
  unfoldable pub route : Text → HashRing → Run ℤ
  route path h = get_node hash path h >>= convert_host_to_number

-- The number of a server, below 2^31, is read back from its name, less one.
pub convert_host_to_number-server_name :
    (i : ℕ) → i < 2 ^ 31 → convert_host_to_number (server_name i) ≡ ok (pred_int i)
unfolding convert_host_to_number server_name
convert_host_to_number-server_name i h =
    let named = contains_prefix (codes "server") (to_string i) in
    let number : stoi (to_string i) ≡ some (pos i) =
      ap stoi (sym (append-nil (to_string i))) ∙ stoi-to_string i [] h tt in
    rw (convert_host_to_number, named, number)

-- The ring is sorted, and its entries stand at the places of servers below `count`.
pub record HasServers (hash : Text → ℕ) (count : ℕ) (h : HashRing) : Type 0 where
  pub sorted : IsSorted h.ring
  pub placed : IsPlaced hash h
  pub named :
      (k : ℕ) (v : Text)
      → lookup k h.ring ≡ some v
      → (i : ℕ) × (i < count) × (v ≡ server_name (suc i))

module _ (hash : Text → ℕ) (count : ℕ) where
  new_ring-HasServers : (vnodes : ℕ) → HasServers hash count (new_ring vnodes)
  unfolding lookup
  new_ring-HasServers vnodes = record {
    sorted = tt;
    placed = λ k v e. absurd (cc e);
    named = λ k v e. absurd (cc e);
  }

  pub add_node-HasServers :
      (i : ℕ) (h : HashRing)
      → i < count
      → HasServers hash count h
      → HasServers hash count (add_node hash (server_name (suc i)) h)
  unfolding add_node
  add_node-HasServers i h lt w = record {
    sorted = add_replicas-IsSorted hash _ h.replicas 0 h.ring w.sorted;
    placed = add_node-IsPlaced hash _ h w.sorted w.placed;
    named = λ k v e.
        let node = server_name (suc i) in
        let (mine, kept) = add_node-lookup hash node h w.sorted in
        elim (place_of hash node h.replicas k) [
          | inl (r, below, here) ↦
              let at = mine r below in (i, lt, let same : v ≡ node = cc (at, here, e) in same)
          | inr away ↦ w.named k v (sym (kept k away) ∙ e)
        ];
  }

  pub remove_node-HasServers :
      (node : Text) (h : HashRing)
      → HasServers hash count h
      → HasServers hash count (remove_node hash node h)
  unfolding remove_node
  remove_node-HasServers node h w = record {
    sorted = remove_replicas-IsSorted hash node h.replicas 0 h.ring w.sorted;
    placed = remove_node-IsPlaced hash node h w.placed;
    named = λ k v e.
        let (gone, kept) = remove_node-lookup hash node h in
        elim (place_of hash node h.replicas k) [
          | inl (r, below, here) ↦ let none_there = gone r below in absurd (cc (none_there, here))
          | inr away ↦ w.named k v (sym (kept k away) ∙ e)
        ];
  }

  add_servers-HasServers :
      (left i : ℕ) (h : HashRing)
      → i + left ≤ count
      → HasServers hash count h
      → HasServers hash count (add_servers hash left (suc i) h)
  unfolding add_servers
  add_servers-HasServers zero i h le w = w
  add_servers-HasServers (suc left) i h le w = rw add-one (
      add_servers-HasServers left (suc i) _ (omega arith) (add_node-HasServers i h (omega arith) w))

  -- `initialize_hash_ring` makes a ring of the servers 1 to `count`.
  pub server_ring-HasServers : (vnodes : ℕ) → HasServers hash count (server_ring hash count vnodes)
  unfolding server_ring
  server_ring-HasServers vnodes =
      add_servers-HasServers count 0 _ (omega arith) (new_ring-HasServers vnodes)

  -- With fewer than 2^31 servers, on a ring whose entries are theirs, a path is routed to the
  -- number of one of them, or the ring is empty and the lookup throws.
  pub route-range :
      (path : Text) (h : HashRing)
      → count < 2 ^ 31
      → HasServers hash count h
      → ((host : ℕ) × (host < count) × (route hash path h ≡ ok (pos host)))
        ⊎ ((h.ring ≡ []) × (route hash path h ≡ fault uncaught))
  unfolding route
  route-range path h small w = elim (get_node_cases hash path h) [
    | inr (empty, thrown) ↦ inr (empty, rw thrown)
    | inl (node, found) ↦
        let (k, at, _) = get_node-Owns hash path node h w.sorted found in
        let (i, lt, name) = w.named k node at in
        inl (
          i,
          lt,
          rw (found, name, convert_host_to_number-server_name (suc i) (omega arith)) (ground arith),
        )
  ]

  add_servers-ne-nil :
      (left i : ℕ) (h : HashRing)
      → 0 < h.replicas
      → (h.ring ≢ []) ⊎ (0 < left)
      → (add_servers hash left i h).ring ≢ []
  unfolding add_servers add_node
  add_servers-ne-nil zero i h full (inl ne) = ne
  add_servers-ne-nil zero i h full (inr lt) = absurd (omega arith)
  add_servers-ne-nil (suc left) i h full _ =
      add_servers-ne-nil left (i + 1) _ full
        (inl (add_replicas-ne-nil hash _ h.replicas 0 h.ring (inr full)))

  -- On the ring that `initialize_hash_ring` makes, every path is routed to one of the servers.
  pub route-server_ring :
      (path : Text) (vnodes : ℕ)
      → 0 < count
      → count < 2 ^ 31
      → 0 < vnodes
      → (host : ℕ) × (host < count)
        × (route hash path (server_ring hash count vnodes) ≡ ok (pos host))
  unfolding server_ring
  route-server_ring path vnodes some_server small some_vnode =
      elim (route-range path (server_ring hash count vnodes) small
        (server_ring-HasServers vnodes)) [
          | inl routed ↦ routed
          | inr (empty, _) ↦
              absurd
                (add_servers-ne-nil count 1 (new_ring vnodes) some_vnode (inr some_server) empty)
        ]
