-- ===== src/Ring/Points.antt =====
-- hvac_hashing.h: one insertion into the ring or deletion from it, and the owners of points.
use hvac_checkpoint.Common.{
  ℕ, ◌≡◌, refl, ap, ◌⊎◌, inl, inr, ◌≢◌, none, some, [], ◌∷◌, arith, Option-cases, nat_eq,
}
use hvac_checkpoint.Common.Maps.{Map, lookup, erase, erase_absent}
use hvac_checkpoint.Common.OrderedMap.{insert_sorted, lower_bound, begin, IsSorted, lookup-Above}
use hvac_checkpoint.Common.Text.{Text}
use hvac_checkpoint.Ring.{successor}

-- One insertion takes over a point, or leaves its owner.
lower_bound-insert_sorted :
    (h k : ℕ) (v : Text) (m : Map ℕ Text)
    → (lower_bound h (insert_sorted k v m) ≡ some (k, v))
      ⊎ (lower_bound h (insert_sorted k v m) ≡ lower_bound h m)
unfolding lower_bound insert_sorted
lower_bound-insert_sorted h k v [] = ground arith
lower_bound-insert_sorted h k v ((j, w) ∷ m) = ground (arith, lower_bound-insert_sorted h k v m)

begin-insert_sorted :
    (k : ℕ) (v : Text) (m : Map ℕ Text)
    → (begin (insert_sorted k v m) ≡ some (k, v)) ⊎ (begin (insert_sorted k v m) ≡ begin m)
unfolding insert_sorted
begin-insert_sorted k v [] = ground arith
begin-insert_sorted k v ((j, w) ∷ m) = ground arith

pub successor-insert_sorted :
    (h k : ℕ) (v : Text) (m : Map ℕ Text)
    → (successor h (insert_sorted k v m) ≡ some v)
      ⊎ (successor h (insert_sorted k v m) ≡ successor h m)
unfolding successor
successor-insert_sorted h k v m =
    ground (arith, lower_bound-insert_sorted h k v m, begin-insert_sorted k v m)

-- One deletion leaves the owner of a point, unless the deleted entry is that owner's.
lower_bound-erase-some :
    (h k : ℕ) (m : Map ℕ Text) (j : ℕ) (v node : Text)
    → IsSorted m
    → (lookup k m ≡ some node) ⊎ (lookup k m ≡ none)
    → lower_bound h m ≡ some (j, v)
    → v ≢ node
    → lower_bound h (erase k m) ≡ some (j, v)
unfolding lower_bound erase lookup
lower_bound-erase-some h k [] j v node s held e ne = cc
lower_bound-erase-some h k ((i, w) ∷ m) j v node s held e ne =
    ground
      (arith, lookup-Above i m s.0 k, erase_absent k m, lower_bound-erase-some h k m j v node s.1)

lower_bound-erase-none :
    (h k : ℕ) (m : Map ℕ Text) → lower_bound h m ≡ none → lower_bound h (erase k m) ≡ none
unfolding lower_bound erase
lower_bound-erase-none h k [] e = refl
lower_bound-erase-none h k ((i, w) ∷ m) e = ground (arith, lower_bound-erase-none h k m)

begin-erase :
    (k : ℕ) (m : Map ℕ Text) (j : ℕ) (v node : Text)
    → IsSorted m
    → (lookup k m ≡ some node) ⊎ (lookup k m ≡ none)
    → begin m ≡ some (j, v)
    → v ≢ node
    → begin (erase k m) ≡ some (j, v)
unfolding erase lookup
begin-erase k [] j v node s held e ne = cc
begin-erase k ((i, w) ∷ m) j v node s held e ne = ground arith

pub successor-erase :
    (h k : ℕ) (m : Map ℕ Text) (v node : Text)
    → IsSorted m
    → (lookup k m ≡ some node) ⊎ (lookup k m ≡ none)
    → successor h m ≡ some v
    → v ≢ node
    → successor h (erase k m) ≡ some v
unfolding successor
successor-erase h k m v node s held e ne = elim (Option-cases (lower_bound h m)) [
  | inr ((j, u), found) ↦
      let same : u ≡ v = ground (arith, found) in
      rw (lower_bound-erase-some h k m j u node s held found (ground arith), successor)
        (ap some same)
  | inl nothing ↦ elim (Option-cases (begin m)) [
    | inl empty ↦ absurd (ground (arith, nothing, empty))
    | inr ((j, u), first) ↦
        let same : u ≡ v = ground (arith, nothing, first) in
        rw
          (
            lower_bound-erase-none h k m nothing,
            begin-erase k m j u node s held first (ground arith),
            successor,
          )
          (ap some same)
  ]
]
