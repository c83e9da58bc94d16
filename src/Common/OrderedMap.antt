-- ===== src/Common/OrderedMap.antt =====
-- `std::map<size_t, V>` where its order is observed: entries by increasing key. `lookup` and
-- `erase` are those of `Common.Maps`.
use hvac_checkpoint.Common.Tests.{ltb, leb, ◌==◌, if◌then◌else◌, nat_eq, Bool-cases}
use hvac_checkpoint.Common.Lists.{All}
use hvac_checkpoint.Common.Maps.{Map, lookup, erase}
use Prim.Native.Nat.{ℕ, ◌≤◌, ◌<◌}
use mathlib.Core.Path.{◌≡◌, refl, ap₂, ◌∙◌, sym}
use mathlib.Core.Logic.{inl, inr}
use mathlib.Core.Bool.{true, false}
use mathlib.Core.Option.{Option, none, some}
use mathlib.Core.List.{[], ◌∷◌}
use native.Mathlib.Omega.{arith}

module _ {ℓ} {V : Type ℓ} where
  -- `m[k] = v`
  unfoldable pub insert_sorted : ℕ → V → Map ℕ V → Map ℕ V
  insert_sorted k v [] = (k, v) ∷ []
  insert_sorted k v ((j, w) ∷ m) =
      if ltb k j
      then (k, v) ∷ (j, w) ∷ m
      else if j == k
      then (k, v) ∷ m
      else (j, w) ∷ insert_sorted k v m

  -- `m.lower_bound(h)`: the first entry whose key is not below `h`.
  unfoldable pub lower_bound : ℕ → Map ℕ V → Option (ℕ × V)
  lower_bound h [] = none
  lower_bound h ((j, w) ∷ m) = if leb h j then some (j, w) else lower_bound h m

  -- `m.begin()`
  abbrev pub begin : Map ℕ V → Option (ℕ × V)
  begin [] = none
  begin (e ∷ m) = some e

  -- Every key is above `k`, and the keys increase.
  abbrev pub Above : ℕ → Map ℕ V → Type 0
  Above k = All (λ e. k < e.0)

  abbrev pub IsSorted : Map ℕ V → Type 0
  IsSorted [] = Unit {0}
  IsSorted ((k, v) ∷ m) = Above k m × IsSorted m

  Above-mono : (j k : ℕ) (m : Map ℕ V) → j ≤ k → Above k m → Above j m
  Above-mono j k [] h a = tt
  Above-mono j k (e ∷ m) h a = (omega arith, Above-mono j k m h a.1)

  Above-insert_sorted :
      (j k : ℕ) (v : V) (m : Map ℕ V) → j < k → Above j m → Above j (insert_sorted k v m)
  unfolding insert_sorted
  Above-insert_sorted j k v [] h a = (h, tt)
  Above-insert_sorted j k v ((i, w) ∷ m) h a = ground (arith, Above-insert_sorted j k v m h a.1)

  pub insert_sorted-IsSorted :
      (k : ℕ) (v : V) (m : Map ℕ V) → IsSorted m → IsSorted (insert_sorted k v m)
  unfolding insert_sorted
  insert_sorted-IsSorted k v [] s = (tt, tt)
  insert_sorted-IsSorted k v ((j, w) ∷ m) s =
      ground
        (arith, insert_sorted-IsSorted k v m s.1, Above-insert_sorted j k v m, Above-mono k j m)

  Above-erase : (j k : ℕ) (m : Map ℕ V) → Above j m → Above j (erase k m)
  unfolding erase
  Above-erase j k [] a = tt
  Above-erase j k ((i, w) ∷ m) a = ground (arith, Above-erase j k m a.1)

  pub erase-IsSorted : (k : ℕ) (m : Map ℕ V) → IsSorted m → IsSorted (erase k m)
  unfolding erase
  erase-IsSorted k [] s = tt
  erase-IsSorted k ((j, w) ∷ m) s = ground (arith, erase-IsSorted k m s.1, Above-erase j k m s.0)

  pub lookup-Above : (j : ℕ) (m : Map ℕ V) → Above j m → (k : ℕ) → k ≤ j → lookup k m ≡ none
  unfolding lookup
  lookup-Above j [] a k h = refl
  lookup-Above j ((i, w) ∷ m) a k h = ground (arith, lookup-Above j m a.1 k h)

  pub lookup-insert_sorted :
      (k j : ℕ) (v : V) (m : Map ℕ V)
      → IsSorted m
      → lookup j (insert_sorted k v m) ≡ (if k == j then some v else lookup j m)
  unfolding lookup insert_sorted
  lookup-insert_sorted k j v [] s = refl
  lookup-insert_sorted k j v ((i, w) ∷ m) s = ground (arith, lookup-insert_sorted k j v m s.1)

  -- Two sorted maps with the same lookups are the same map.
  pub lookup_ext :
      (m m' : Map ℕ V) → IsSorted m → IsSorted m' → ((k : ℕ) → lookup k m ≡ lookup k m') → m ≡ m'
  unfolding lookup
  lookup_ext [] [] s s' h = refl
  lookup_ext [] ((j, w) ∷ m') s s' h = ground (arith, h j)
  lookup_ext ((i, v) ∷ m) [] s s' h = ground (arith, h i)
  lookup_ext ((i, v) ∷ m) ((j, w) ∷ m') s s' h =
      let same : i ≡ j =
        ground (arith, h i, h j, lookup-Above j m' s'.0 i, lookup-Above i m s.0 j) in
      let at_i : (i == i) ≡ true = ground arith in
      let at_j : (j == i) ≡ true = ground arith in
      let value : v ≡ w = cc (h i, at_i, at_j) in
      ap₂ ◌∷◌ (ap₂ (λ a b. (a, b)) same value) (
        lookup_ext m m' s.1 s'.1 (λ k. elim (Bool-cases (i == k)) [
          | inl hit ↦
              lookup-Above i m s.0 k (ground arith) ∙ sym (lookup-Above j m' s'.0 k (ground arith))
          | inr miss ↦ let miss' : (j == k) ≡ false = ground arith in cc (h k, miss, miss')
        ]))

  lower_bound-le : (h : ℕ) (m : Map ℕ V) (k : ℕ) (v : V) → lower_bound h m ≡ some (k, v) → h ≤ k
  unfolding lower_bound
  lower_bound-le h [] k v e = cc
  lower_bound-le h ((i, u) ∷ m) k v e = ground (arith, lower_bound-le h m k v)

  lower_bound-Above :
      (i h : ℕ) (m : Map ℕ V) (k : ℕ) (v : V) → Above i m → lower_bound h m ≡ some (k, v) → i < k
  unfolding lower_bound
  lower_bound-Above i h [] k v a e = cc
  lower_bound-Above i h ((j, u) ∷ m) k v a e = ground (arith, lower_bound-Above i h m k v a.1)

  lower_bound-lookup :
      (h : ℕ) (m : Map ℕ V) (k : ℕ) (v : V)
      → IsSorted m
      → lower_bound h m ≡ some (k, v)
      → lookup k m ≡ some v
  unfolding lower_bound lookup
  lower_bound-lookup h [] k v s e = cc
  lower_bound-lookup h ((i, u) ∷ m) k v s e =
      ground (arith, lower_bound-lookup h m k v s.1, lower_bound-Above i h m k v s.0)

  lower_bound-min :
      (h : ℕ) (m : Map ℕ V) (k : ℕ) (v : V) (j : ℕ) (w : V)
      → IsSorted m
      → lower_bound h m ≡ some (k, v)
      → lookup j m ≡ some w
      → h ≤ j
      → k ≤ j
  unfolding lower_bound lookup
  lower_bound-min h [] k v j w s e l b = cc
  lower_bound-min h ((i, u) ∷ m) k v j w s e l b =
      ground (arith, lower_bound-min h m k v j w s.1, lookup-Above i m s.0 j)

  -- `lower_bound` finds an entry of the map whose key is the least that is not below `h`.
  pub lower_bound-least :
      (h : ℕ) (m : Map ℕ V) (k : ℕ) (v : V)
      → IsSorted m
      → lower_bound h m ≡ some (k, v)
      → (h ≤ k) × (lookup k m ≡ some v) × ((j : ℕ) (w : V) → lookup j m ≡ some w → h ≤ j → k ≤ j)
  lower_bound-least h m k v s e = (
    lower_bound-le h m k v e,
    lower_bound-lookup h m k v s e,
    λ j w l. lower_bound-min h m k v j w s e l,
  )

  pub lower_bound-none :
      (h : ℕ) (m : Map ℕ V) (j : ℕ) (w : V) → lower_bound h m ≡ none → lookup j m ≡ some w → j < h
  unfolding lower_bound lookup
  lower_bound-none h [] j w e l = cc
  lower_bound-none h ((i, u) ∷ m) j w e l = ground (arith, lower_bound-none h m j w)

  pub begin-least :
      (m : Map ℕ V) (k : ℕ) (v : V) (j : ℕ) (w : V)
      → IsSorted m
      → begin m ≡ some (k, v)
      → lookup j m ≡ some w
      → k ≤ j
  unfolding lookup
  begin-least [] k v j w s e l = cc
  begin-least ((i, u) ∷ m) k v j w s e l = ground (arith, lookup-Above i m s.0 j)
