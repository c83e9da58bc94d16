-- ===== src/Ring/Entries.antt =====
-- hvac_hashing.h: which entries the ring has after `AddNode` and `RemoveNode`.
use hvac_checkpoint.Common.{
  ℕ, zero, suc, ◌+◌, ◌≤◌, ◌<◌, ◌≡◌, refl, sym, ap, ◌∙◌, ◌⊎◌, inl, inr, ◌≢◌, none, some, arith,
  nat_eq, ℕ_discrete,
}
use hvac_checkpoint.Common.Maps.{Map, lookup, lookup-erase}
use hvac_checkpoint.Common.OrderedMap.{
  IsSorted, insert_sorted-IsSorted, lookup-insert_sorted, lookup_ext,
}
use hvac_checkpoint.Common.Text.{Text}
use hvac_checkpoint.Ring.{HashRing, place, add_replicas, add_node, remove_replicas, remove_node}
use hvac_checkpoint.Ring.Lookup.{add_replicas-IsSorted, remove_replicas-IsSorted}

module _ (hash : Text → ℕ) (node : Text) where
  -- Replicas outside the places of the node are kept, and its own places are taken.
  add_replicas-lookup :
      (left r k : ℕ) (ring : Map ℕ Text)
      → IsSorted ring
      → ((i : ℕ) → r ≤ i → i < r + left → place hash node i ≢ k)
      → lookup k (add_replicas hash node left r ring) ≡ lookup k ring
  unfolding add_replicas
  add_replicas-lookup zero r k ring s h = refl
  add_replicas-lookup (suc left) r k ring s h =
      add_replicas-lookup left (r + 1) k _ (insert_sorted-IsSorted _ node ring s)
        (λ i a b. h i (omega arith) (omega arith))
      ∙ ground (arith, lookup-insert_sorted (place hash node r) k node ring s, h r)

  add_replicas-lookup_held :
      (left r k : ℕ) (ring : Map ℕ Text)
      → IsSorted ring
      → lookup k ring ≡ some node
      → lookup k (add_replicas hash node left r ring) ≡ some node
  unfolding add_replicas
  add_replicas-lookup_held zero r k ring s h = h
  add_replicas-lookup_held (suc left) r k ring s h =
      add_replicas-lookup_held left (r + 1) k _ (insert_sorted-IsSorted _ node ring s)
        (ground (arith, lookup-insert_sorted (place hash node r) k node ring s))

  add_replicas-lookup-place :
      (left r i : ℕ) (ring : Map ℕ Text)
      → IsSorted ring
      → r ≤ i
      → i < r + left
      → lookup (place hash node i) (add_replicas hash node left r ring) ≡ some node
  unfolding add_replicas
  add_replicas-lookup-place zero r i ring s a b = absurd (omega arith)
  add_replicas-lookup-place (suc left) r i ring s a b =
      let s' = insert_sorted-IsSorted (place hash node r) node ring s in
      elim (ℕ_discrete r i) [
        | yes here ↦ add_replicas-lookup_held left (r + 1) _ _ s' (
            rw (lookup-insert_sorted (place hash node r) (place hash node i) node ring s, here)
              (ground arith))
        | no later ↦ add_replicas-lookup-place left (r + 1) i _ s' (omega arith) (omega arith)
      ]

  -- After `AddNode` the node stands at each of its places, and every other place is as it was.
  pub add_node-lookup :
      (h : HashRing)
      → IsSorted h.ring
      → ((r : ℕ)
          → r < h.replicas
          → lookup (place hash node r) (add_node hash node h).ring ≡ some node)
        × ((k : ℕ)
            → ((r : ℕ) → r < h.replicas → place hash node r ≢ k)
            → lookup k (add_node hash node h).ring ≡ lookup k h.ring)
  unfolding add_node
  add_node-lookup h s = (
    λ r lt. add_replicas-lookup-place h.replicas 0 r h.ring s (omega arith) (omega arith),
    λ k away. add_replicas-lookup h.replicas 0 k h.ring s (λ i a b. away i (omega arith)),
  )

  remove_replicas-lookup :
      (left r k : ℕ) (ring : Map ℕ Text)
      → ((i : ℕ) → r ≤ i → i < r + left → place hash node i ≢ k)
      → lookup k (remove_replicas hash node left r ring) ≡ lookup k ring
  unfolding remove_replicas
  remove_replicas-lookup zero r k ring h = refl
  remove_replicas-lookup (suc left) r k ring h =
      remove_replicas-lookup left (r + 1) k _ (λ i a b. h i (omega arith) (omega arith))
      ∙ ground (arith, lookup-erase (place hash node r) k ring, h r)

  remove_replicas-lookup-none :
      (left r k : ℕ) (ring : Map ℕ Text)
      → lookup k ring ≡ none
      → lookup k (remove_replicas hash node left r ring) ≡ none
  unfolding remove_replicas
  remove_replicas-lookup-none zero r k ring h = h
  remove_replicas-lookup-none (suc left) r k ring h =
      remove_replicas-lookup-none left (r + 1) k _
        (ground (arith, lookup-erase (place hash node r) k ring))

  remove_replicas-lookup-place :
      (left r i : ℕ) (ring : Map ℕ Text)
      → r ≤ i
      → i < r + left
      → lookup (place hash node i) (remove_replicas hash node left r ring) ≡ none
  unfolding remove_replicas
  remove_replicas-lookup-place zero r i ring a b = absurd (omega arith)
  remove_replicas-lookup-place (suc left) r i ring a b = elim (ℕ_discrete r i) [
    | yes here ↦
        remove_replicas-lookup-none left (r + 1) _ _
          (rw (lookup-erase (place hash node r) (place hash node i) ring, here) (ground arith))
    | no later ↦ remove_replicas-lookup-place left (r + 1) i _ (omega arith) (omega arith)
  ]

  -- After `RemoveNode` nothing stands at the places of the node, and the rest is as it was.
  pub remove_node-lookup :
      (h : HashRing)
      → ((r : ℕ)
          → r < h.replicas
          → lookup (place hash node r) (remove_node hash node h).ring ≡ none)
        × ((k : ℕ)
            → ((r : ℕ) → r < h.replicas → place hash node r ≢ k)
            → lookup k (remove_node hash node h).ring ≡ lookup k h.ring)
  unfolding remove_node
  remove_node-lookup h = (
    λ r lt. remove_replicas-lookup-place h.replicas 0 r h.ring (omega arith) (omega arith),
    λ k away. remove_replicas-lookup h.replicas 0 k h.ring (λ i a b. away i (omega arith)),
  )

  -- Whether one of the first `n` places of the node is `k`.
  pub place_of :
      (n k : ℕ)
      → ((r : ℕ) × (r < n) × (place hash node r ≡ k)) ⊎ ((r : ℕ) → r < n → place hash node r ≢ k)
  place_of zero k = inr (λ r lt. absurd (omega arith))
  place_of (suc n) k = elim (place_of n k) [
    | inl (r, lt, e) ↦ inl (r, omega arith, e)
    | inr away ↦ elim (ℕ_discrete (place hash node n) k) [
      | yes e ↦ inl (n, omega arith, e)
      | no ne ↦ inr (λ r lt e. elim (ℕ_discrete r n) [
        | yes last ↦ ne (rw last at e)
        | no below ↦ away r (omega arith) e
      ])
    ]
  ]

  -- `RemoveNode` undoes `AddNode`: on a sorted ring where no place of the node is taken, the ring
  -- is the one before.
  pub remove_node-add_node :
      (h : HashRing)
      → IsSorted h.ring
      → ((r : ℕ) → r < h.replicas → lookup (place hash node r) h.ring ≡ none)
      → remove_node hash node (add_node hash node h) ≡ h
  unfolding remove_node add_node
  remove_node-add_node h s free =
      let added = add_node hash node h in
      let removed = remove_node hash node added in
      let sorted = add_replicas-IsSorted hash node h.replicas 0 h.ring s in
      ap (λ m. record h { ring = m })
        (lookup_ext removed.ring h.ring
          (remove_replicas-IsSorted hash node h.replicas 0 added.ring sorted) s
          (λ k. elim (place_of h.replicas k) [
            | inl (r, lt, e) ↦ rw (← e) ((remove_node-lookup added).0 r lt ∙ sym (free r lt))
            | inr away ↦ (remove_node-lookup added).1 k away ∙ (add_node-lookup h s).1 k away
          ]))

-- Every replica stands at a place of the node that it names.
abbrev pub IsPlaced : (Text → ℕ) → HashRing → Type 0
IsPlaced hash h =
    (k : ℕ) (v : Text)
    → lookup k h.ring ≡ some v
    → (r : ℕ) × (r < h.replicas) × (place hash v r ≡ k)

module _ (hash : Text → ℕ) where
  pub remove_node-IsPlaced :
      (node : Text) (h : HashRing) → IsPlaced hash h → IsPlaced hash (remove_node hash node h)
  unfolding remove_node
  remove_node-IsPlaced node h placed k v e =
      let (gone, kept) = remove_node-lookup hash node h in
      elim (place_of hash node h.replicas k) [
        | inl (r, lt, here) ↦ let none_there = gone r lt in absurd (cc (none_there, here))
        | inr away ↦ placed k v (sym (kept k away) ∙ e)
      ]

  pub add_node-IsPlaced :
      (node : Text) (h : HashRing)
      → IsSorted h.ring
      → IsPlaced hash h
      → IsPlaced hash (add_node hash node h)
  unfolding add_node
  add_node-IsPlaced node h s placed k v e =
      let (mine, kept) = add_node-lookup hash node h s in
      elim (place_of hash node h.replicas k) [
        | inl (r, lt, here) ↦
            let at = mine r lt in (r, lt, let same : node ≡ v = cc (at, here) in rw (← same) here)
        | inr away ↦ placed k v (sym (kept k away) ∙ e)
      ]
