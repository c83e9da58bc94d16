-- ===== src/Ring/Remap.antt =====
-- hvac_hashing.h: which keys change their owner when a node joins or leaves the ring.
use hvac_checkpoint.Common.{
  ℕ, zero, suc, ◌+◌, ◌≤◌, ◌<◌, ◌≡◌, refl, ◌∙◌, ◌⊎◌, inl, inr, ◌≢◌, none, some, arith, nat_eq,
}
use hvac_checkpoint.Common.Maps.{Map, lookup, lookup-erase}
use hvac_checkpoint.Common.OrderedMap.{insert_sorted, IsSorted, erase-IsSorted}
use hvac_checkpoint.Common.Text.{Text, c_str}
use hvac_checkpoint.Common.Run.{ok}
use hvac_checkpoint.Ring.{
  HashRing, successor, place, add_replicas, add_node, remove_replicas, remove_node, get_node,
}
use hvac_checkpoint.Ring.Lookup.{get_node-Owns, remove_replicas-IsSorted}
use hvac_checkpoint.Ring.Points.{successor-insert_sorted, successor-erase}
use hvac_checkpoint.Ring.Entries.{remove_node-lookup, IsPlaced, remove_node-IsPlaced}

module _ (hash : Text → ℕ) (node : Text) where
  add_replicas-successor :
      (left r p : ℕ) (ring : Map ℕ Text)
      → (successor p (add_replicas hash node left r ring) ≡ some node)
        ⊎ (successor p (add_replicas hash node left r ring) ≡ successor p ring)
  unfolding add_replicas
  add_replicas-successor zero r p ring = inr refl
  add_replicas-successor (suc left) r p ring =
      let step = successor-insert_sorted p (place hash node r) node ring in
      elim (add_replicas-successor left (r + 1) p (insert_sorted (place hash node r) node ring)) [
        | inl mine ↦ inl mine
        | inr kept ↦ elim step [ inl mine ↦ inl (kept ∙ mine) | inr same ↦ inr (kept ∙ same) ]
      ]

  -- Adding a node to a ring moves keys to it alone: each key goes to the new node, or its lookup
  -- ends as it did before.
  pub get_node-add_node :
      (key : Text) (h : HashRing)
      → (get_node hash key (add_node hash node h) ≡ ok node)
        ⊎ (get_node hash key (add_node hash node h) ≡ get_node hash key h)
  unfolding get_node add_node
  get_node-add_node key h =
      ground (arith, add_replicas-successor h.replicas 0 (hash (c_str key)) h.ring)

  -- No place of the node is held by another node.
  abbrev pub Uncontested : HashRing → Type 0
  Uncontested h =
      (r : ℕ)
      → r < h.replicas
      → (lookup (place hash node r) h.ring ≡ some node) ⊎ (lookup (place hash node r) h.ring ≡ none)

  remove_replicas-successor :
      (left r p : ℕ) (ring : Map ℕ Text) (v : Text)
      → IsSorted ring
      → ((i : ℕ)
          → r ≤ i
          → i < r + left
          → (lookup (place hash node i) ring ≡ some node)
            ⊎ (lookup (place hash node i) ring ≡ none))
      → successor p ring ≡ some v
      → v ≢ node
      → successor p (remove_replicas hash node left r ring) ≡ some v
  unfolding remove_replicas
  remove_replicas-successor zero r p ring v s held e ne = e
  remove_replicas-successor (suc left) r p ring v s held e ne =
      remove_replicas-successor left (r + 1) p _ v (erase-IsSorted _ ring s)
        (λ i a b. ground (arith, held i, lookup-erase (place hash node r) (place hash node i) ring))
        (successor-erase p (place hash node r) ring v node s (held r (omega arith) (omega arith)) e
          ne)
        ne

  -- On a sorted ring where no place of a node is held by another node, removing the node moves its
  -- own keys alone: a key that belongs to another node stays where it was.
  pub get_node-remove_node :
      (key owner : Text) (h : HashRing)
      → IsSorted h.ring
      → Uncontested h
      → get_node hash key h ≡ ok owner
      → owner ≢ node
      → get_node hash key (remove_node hash node h) ≡ ok owner
  unfolding get_node remove_node
  get_node-remove_node key owner h s held e ne = ground (
    arith,
    remove_replicas-successor h.replicas 0 (hash (c_str key)) h.ring owner s
        (λ i a b. held i (omega arith)),
  )

module _ (hash : Text → ℕ) where
  -- On a sorted ring whose entries all stand at places of their nodes, a removed node gets no key
  -- any more.
  pub get_node-remove_node_ne :
      (node key : Text) (h : HashRing)
      → IsSorted h.ring
      → IsPlaced hash h
      → get_node hash key (remove_node hash node h) ≢ ok node
  unfolding remove_node
  get_node-remove_node_ne node key h s placed e =
      let sorted = remove_replicas-IsSorted hash node h.replicas 0 h.ring s in
      let (k, at, _) = get_node-Owns hash key node (remove_node hash node h) sorted e in
      let (r, lt, here) = remove_node-IsPlaced hash node h placed k node at in
      let none_there = (remove_node-lookup hash node h).0 r lt in cc (none_there, here)
