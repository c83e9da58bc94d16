-- ===== src/Ring/Failures.antt =====
-- hvac_hashing.h: the ring after `RemoveNode` for one failed host after the other.
use hvac_checkpoint.Common.{
  ℕ, ◌<◌, ◌≡◌, refl, sym, ◌∙◌, ◌≢◌, ◌⊎◌, inl, inr, ◌↔◌, none, some, List, [], ◌∷◌, arith, nat_eq,
}
use mathlib.Core.Path.{ap₂}
use hvac_checkpoint.Common.Maps.{lookup}
use hvac_checkpoint.Common.OrderedMap.{IsSorted, lookup_ext}
use hvac_checkpoint.Common.Text.{Text}
use hvac_checkpoint.Ring.{HashRing, place, remove_node, get_node}
use hvac_checkpoint.Common.Run.{ok}
use hvac_checkpoint.Ring.Lookup.{remove_replicas-IsSorted, get_node-Owns}
use hvac_checkpoint.Ring.Remap.{Uncontested, get_node-remove_node}
use hvac_checkpoint.Ring.Entries.{remove_node-lookup, place_of, IsPlaced, remove_node-IsPlaced}

-- The node is one of those in the list.
abbrev pub In : Text → List Text → Type 0
In node [] = ⊥
In node (first ∷ rest) = (node ≡ first) ⊎ In node rest

module _ (hash : Text → ℕ) where
  -- The removals in the order in which the failures are seen.
  unfoldable pub remove_all : List Text → HashRing → HashRing
  remove_all [] h = h
  remove_all (node ∷ failed) h = remove_all failed (remove_node hash node h)

  -- The point is a place of one of the failed nodes.
  Taken : List Text → ℕ → ℕ → Type 0
  Taken failed n k = (node : Text) × In node failed × (r : ℕ) × (r < n) × (place hash node r ≡ k)

  remove_all-replicas :
      (failed : List Text) (h : HashRing) → (remove_all failed h).replicas ≡ h.replicas
  unfolding remove_all remove_node
  remove_all-replicas [] h = refl
  remove_all-replicas (node ∷ failed) h = remove_all-replicas failed (remove_node hash node h)

  remove_all-IsSorted :
      (failed : List Text) (h : HashRing) → IsSorted h.ring → IsSorted (remove_all failed h).ring
  unfolding remove_all remove_node
  remove_all-IsSorted [] h s = s
  remove_all-IsSorted (node ∷ failed) h s =
      remove_all-IsSorted failed (remove_node hash node h)
        (remove_replicas-IsSorted hash node h.replicas 0 h.ring s)

  remove_all-lookup-none :
      (failed : List Text) (h : HashRing) (k : ℕ)
      → lookup k h.ring ≡ none
      → lookup k (remove_all failed h).ring ≡ none
  unfolding remove_all
  remove_all-lookup-none [] h k e = e
  remove_all-lookup-none (node ∷ failed) h k e =
      let (gone, kept) = remove_node-lookup hash node h in
      remove_all-lookup-none failed (remove_node hash node h) k
        (elim (place_of hash node h.replicas k) [
          | inl (r, lt, here) ↦ rw (← here) (gone r lt)
          | inr away ↦ kept k away ∙ e
        ])

  -- Where a failed node has a place nothing is left, and elsewhere the ring is as it was.
  remove_all-lookup :
      (failed : List Text) (h : HashRing) (k : ℕ)
      → (Taken failed h.replicas k × (lookup k (remove_all failed h).ring ≡ none))
        ⊎ ((Taken failed h.replicas k → ⊥)
            × (lookup k (remove_all failed h).ring ≡ lookup k h.ring))
  unfolding remove_all Taken remove_node
  remove_all-lookup [] h k = inr (λ t. t.1, refl)
  remove_all-lookup (node ∷ failed) h k =
      let (gone, kept) = remove_node-lookup hash node h in
      elim (place_of hash node h.replicas k) [
        | inl (r, lt, here) ↦ inl (
          (node, inl refl, r, lt, here),
          remove_all-lookup-none failed (remove_node hash node h) k (rw (← here) (gone r lt)),
        )
        | inr away ↦ elim (remove_all-lookup failed (remove_node hash node h) k) [
          | inl ((v, among, r, lt, at), e) ↦ inl ((v, inr among, r, lt, at), e)
          | inr (free, e) ↦ inr (
            λ t. elim t.1 [
              | inl same ↦ away t.2 t.3 (rw same at (t.4))
              | inr among ↦ free (t.0, among, t.2, t.3, t.4)
            ],
            e ∙ kept k away,
          )
        ]
      ]

  -- On a sorted ring, the ring after a list of failures depends only on which nodes failed: two
  -- lists with the same nodes, in any order and with any repetition, leave the same ring.
  pub remove_all-same :
      (failed failed' : List Text) (h : HashRing)
      → IsSorted h.ring
      → ((node : Text) → In node failed ↔ In node failed')
      → remove_all failed h ≡ remove_all failed' h
  unfolding Taken
  remove_all-same failed failed' h s same =
      let rings =
        lookup_ext (remove_all failed h).ring (remove_all failed' h).ring
          (remove_all-IsSorted failed h s) (remove_all-IsSorted failed' h s)
          (λ k. elim (remove_all-lookup failed h k) [
            | inl ((v, among, r, lt, at), e) ↦ elim (remove_all-lookup failed' h k) [
              | inl (_, e') ↦ e ∙ sym e'
              | inr (free, _) ↦ absurd (free (v, (same v).0 among, r, lt, at))
            ]
            | inr (free, e) ↦ elim (remove_all-lookup failed' h k) [
              | inl ((v, among, r, lt, at), _) ↦ absurd (free (v, (same v).1 among, r, lt, at))
              | inr (_, e') ↦ e ∙ sym e'
            ]
          ]) in
      ap₂ (λ m n. record { ring = m; replicas = n }) rings
        (remove_all-replicas failed h ∙ sym (remove_all-replicas failed' h))

  Uncontested-remove_node :
      (node other : Text) (h : HashRing)
      → Uncontested hash node h
      → Uncontested hash node (remove_node hash other h)
  unfolding remove_node
  Uncontested-remove_node node other h held r lt =
      let k = place hash node r in
      let (gone, kept) = remove_node-lookup hash other h in
      elim (place_of hash other h.replicas k) [
        | inl (i, below, here) ↦ inr (rw (← here) (gone i below))
        | inr away ↦ elim (held r lt) [
          | inl mine ↦ inl (kept k away ∙ mine)
          | inr free ↦ inr (kept k away ∙ free)
        ]
      ]

  -- On a sorted ring where no place of a failed node is held by another node, a key whose owner has
  -- not failed keeps its owner through all the removals.
  pub get_node-remove_all :
      (failed : List Text) (key owner : Text) (h : HashRing)
      → IsSorted h.ring
      → ((node : Text) → In node failed → Uncontested hash node h)
      → get_node hash key h ≡ ok owner
      → (In owner failed → ⊥)
      → get_node hash key (remove_all failed h) ≡ ok owner
  unfolding remove_all remove_node
  get_node-remove_all [] key owner h s held e alive = e
  get_node-remove_all (node ∷ failed) key owner h s held e alive =
      get_node-remove_all failed key owner (remove_node hash node h)
        (remove_replicas-IsSorted hash node h.replicas 0 h.ring s)
        (λ v among. Uncontested-remove_node v node h (held v (inr among)))
        (get_node-remove_node hash node key owner h s (held node (inl refl)) e
          (λ same. alive (inl same)))
        (λ among. alive (inr among))

  remove_all-IsPlaced :
      (failed : List Text) (h : HashRing) → IsPlaced hash h → IsPlaced hash (remove_all failed h)
  unfolding remove_all
  remove_all-IsPlaced [] h placed = placed
  remove_all-IsPlaced (node ∷ failed) h placed =
      remove_all-IsPlaced failed (remove_node hash node h) (remove_node-IsPlaced hash node h placed)

  -- On a ring whose entries all stand at places of their nodes, and where no place of a failed node is
  -- held by another node: after all the removals the ring has exactly the entries of the nodes that
  -- have not failed, each at its point, in whatever order and however often the nodes were removed.
  pub remove_all-entries :
      (failed : List Text) (h : HashRing)
      → IsPlaced hash h
      → ((node : Text) → In node failed → Uncontested hash node h)
      → (k : ℕ) (v : Text)
      → (lookup k (remove_all failed h).ring ≡ some v)
        ↔ ((lookup k h.ring ≡ some v) × (In v failed → ⊥))
  unfolding Taken
  remove_all-entries failed h placed held k v = elim (remove_all-lookup failed h k) [
    | inl ((node, among, r, lt, at), gone) ↦ (
      λ e. absurd (cc (e, gone)),
      λ (e, alive).
          let here : lookup (place hash node r) h.ring ≡ some v = rw at e in
          elim (held node among r lt) [
            | inl mine ↦ let same : node ≡ v = cc (mine, here) in absurd (alive (rw same at among))
            | inr free ↦ absurd (cc (free, here))
          ],
    )
    | inr (free, kept) ↦ (
      λ e.
          let there = sym kept ∙ e in
          let (r, lt, here) = placed k v there in (there, λ among. free (v, among, r, lt, here)),
      λ (e, alive). kept ∙ e,
    )
  ]

  -- On a sorted ring whose entries all stand at places of their nodes, no key goes to a node that
  -- has failed, however many failed after it.
  pub get_node-remove_all_ne :
      (failed : List Text) (node key : Text) (h : HashRing)
      → IsSorted h.ring
      → IsPlaced hash h
      → In node failed
      → get_node hash key (remove_all failed h) ≢ ok node
  unfolding Taken
  get_node-remove_all_ne failed node key h s placed among e =
      let after = remove_all failed h in
      let (k, at, _) = get_node-Owns hash key node after (remove_all-IsSorted failed h s) e in
      let (r, lt, here) = remove_all-IsPlaced failed h placed k node at in
      let same = remove_all-replicas failed h in
      elim (remove_all-lookup failed h k) [
        | inl (_, gone) ↦ let gone' = gone in cc (gone', at)
        | inr (free, _) ↦ absurd (free (node, among, r, omega (arith, lt, same), here))
      ]
