-- ===== src/Ring/Lookup.antt =====
-- hvac_hashing.h: `GetNode`, and the order of the ring that its search relies on.
use hvac_checkpoint.Common.{
  ℕ, zero, suc, ◌+◌, ◌≤◌, ◌<◌, ◌≡◌, refl, ◌⊎◌, inl, inr, ◌≢◌, none, some, [], ◌∷◌, arith,
  Option-cases, nat_eq,
}
use hvac_checkpoint.Common.Maps.{Map, lookup}
use hvac_checkpoint.Common.OrderedMap.{
  insert_sorted, lower_bound, begin, IsSorted, insert_sorted-IsSorted, erase-IsSorted,
  lower_bound-least, lower_bound-none, begin-least,
}
use hvac_checkpoint.Common.Text.{Text, c_str}
use hvac_checkpoint.Common.Run.{ok, fault, uncaught}
use hvac_checkpoint.Ring.{HashRing, successor, add_replicas, remove_replicas, get_node}

-- `node` owns the point `h`: it stands at the first place not before `h`, or, where no place is
-- left up to the top, at the first place of all.
abbrev pub Owns : Text → ℕ → Map ℕ Text → Type 0
Owns node h ring =
    (k : ℕ) × (lookup k ring ≡ some node)
    × (((h ≤ k) × ((j : ℕ) (w : Text) → lookup j ring ≡ some w → h ≤ j → k ≤ j))
        ⊎ ((j : ℕ) (w : Text) → lookup j ring ≡ some w → (j < h) × (k ≤ j)))

lookup-begin :
    (ring : Map ℕ Text) (k : ℕ) (v : Text) → begin ring ≡ some (k, v) → lookup k ring ≡ some v
unfolding lookup
lookup-begin [] k v e = cc
lookup-begin ((j, w) ∷ ring) k v e = ground arith

successor-Owns :
    (h : ℕ) (ring : Map ℕ Text) (node : Text)
    → IsSorted ring
    → successor h ring ≡ some node
    → Owns node h ring
unfolding successor
successor-Owns h ring node s e = elim (Option-cases (lower_bound h ring)) [
  | inr ((k, v), found) ↦
      let same : v ≡ node = ground (arith, found) in
      let (above, at, least) = lower_bound-least h ring k v s found in
      (k, ground (arith, at), inl (above, least))
  | inl nothing ↦ elim (Option-cases (begin ring)) [
    | inl empty ↦ absurd (ground (arith, nothing, empty))
    | inr ((k, v), first) ↦
        let same : v ≡ node = ground (arith, nothing, first) in
        (
          k,
          ground (arith, lookup-begin ring k v first),
          inr (λ j w l.
              (lower_bound-none h ring j w nothing l, begin-least ring k v j w s first l)),
        )
  ]
]

successor-none : (h : ℕ) (ring : Map ℕ Text) → successor h ring ≡ none → ring ≡ []
unfolding successor
successor-none h [] e = refl
successor-none h ((j, w) ∷ ring) e = ground arith

pub insert_sorted-ne-nil : (k : ℕ) (v : Text) (ring : Map ℕ Text) → insert_sorted k v ring ≢ []
unfolding insert_sorted
insert_sorted-ne-nil k v [] = ground arith
insert_sorted-ne-nil k v ((j, w) ∷ ring) = ground arith

module _ (hash : Text → ℕ) where
  -- `GetNode` returns on every ring but the empty one, on which it throws.
  pub get_node_cases :
      (key : Text) (h : HashRing)
      → ((node : Text) × (get_node hash key h ≡ ok node))
        ⊎ ((h.ring ≡ []) × (get_node hash key h ≡ fault uncaught))
  unfolding get_node
  get_node_cases key h = elim (Option-cases (successor (hash (c_str key)) h.ring)) [
    | inr (node, e) ↦ inl (node, rw (e, get_node))
    | inl e ↦ inr (successor-none _ h.ring e, rw (e, get_node))
  ]

  pub add_replicas-ne-nil :
      (node : Text) (left r : ℕ) (ring : Map ℕ Text)
      → (ring ≢ []) ⊎ (0 < left)
      → add_replicas hash node left r ring ≢ []
  unfolding add_replicas
  add_replicas-ne-nil node zero r ring (inl h) = h
  add_replicas-ne-nil node zero r ring (inr h) = absurd (omega arith)
  add_replicas-ne-nil node (suc left) r ring h =
      add_replicas-ne-nil node left (r + 1) _ (inl (insert_sorted-ne-nil _ node ring))

  -- On a sorted ring, the node that `GetNode` returns owns the hash of the key: it stands at the
  -- first place not before the hash, or at the first place of all where there is none.
  pub get_node-Owns :
      (key node : Text) (h : HashRing)
      → IsSorted h.ring
      → get_node hash key h ≡ ok node
      → Owns node (hash (c_str key)) h.ring
  unfolding get_node
  get_node-Owns key node h s e = successor-Owns (hash (c_str key)) h.ring node s (ground arith)

  pub add_replicas-IsSorted :
      (node : Text) (left r : ℕ) (ring : Map ℕ Text)
      → IsSorted ring
      → IsSorted (add_replicas hash node left r ring)
  unfolding add_replicas
  add_replicas-IsSorted node zero r ring s = s
  add_replicas-IsSorted node (suc left) r ring s =
      add_replicas-IsSorted node left (r + 1) _ (insert_sorted-IsSorted _ node ring s)

  pub remove_replicas-IsSorted :
      (node : Text) (left r : ℕ) (ring : Map ℕ Text)
      → IsSorted ring
      → IsSorted (remove_replicas hash node left r ring)
  unfolding remove_replicas
  remove_replicas-IsSorted node zero r ring s = s
  remove_replicas-IsSorted node (suc left) r ring s =
      remove_replicas-IsSorted node left (r + 1) _ (erase-IsSorted _ ring s)
