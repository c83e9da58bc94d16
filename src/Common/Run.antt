-- ===== src/Common/Run.antt =====
-- How a call of the program ends: with a value, or by one of the ways in which it does not return.
use mathlib.Core.Path.{◌≡◌, refl}
use mathlib.Core.Bool.{Bool, true, false}

-- A failed `assert`, an uncaught exception, `exit`, a wait that nothing ends, and undefined
-- behaviour (a read through an uninitialised or null pointer or of freed memory, a division by zero).
pub data Fault : Type 0 where
  assertion uncaught exited blocked undefined : Fault

pub data Run {ℓ} (A : Type ℓ) : Type ℓ where
  ok : A → Run A
  fault : Fault → Run A

infixl 5 ◌>>◌ ◌>>=◌
abbrev pub ◌>>=◌ {ℓ κ} : {V : Type ℓ} {W : Type κ} → Run V → (V → Run W) → Run W
fault how >>= next = fault how
ok v >>= next = next v

abbrev pub ◌>>◌ {ℓ} : {W : Type ℓ} → Run (Unit {0}) → Run W → Run W
first >> next = first >>= λ _. next

-- `assert(b)`, and its like for the other faults.
abbrev pub ensure : Bool → Fault → Run (Unit {0})
ensure true e = ok tt
ensure false e = fault e

-- Inversion of a bind that returned.
pub >>=-eq-ok {ℓ κ} :
    {V : Type ℓ} {W : Type κ} (m : Run V) (next : V → Run W) {w : W}
    → (m >>= next) ≡ ok w
    → (v : V) × (m ≡ ok v) × (next v ≡ ok w)
>>=-eq-ok (fault how) next e = cc
>>=-eq-ok (ok v) next e = (v, refl, e)

-- What a run returns, changed by a function.
abbrev pub map_run {ℓ κ} : {V : Type ℓ} {W : Type κ} → (V → W) → Run V → Run W
map_run f (fault how) = fault how
map_run f (ok v) = ok (f v)

-- A second run that follows a first one as long as that returns.
pub >>=-follows {ℓ κ ℓ' κ'} :
    {V : Type ℓ} {W : Type κ} {V' : Type ℓ'} {W' : Type κ'} (f : V → V') (m : Run V)
    (next : V → Run W) (m' : Run V') (next' : V' → Run W') (w : W) (w' : W')
    → (m >>= next) ≡ ok w
    → ((v : V) → m ≡ ok v → next v ≡ ok w → (m' ≡ ok (f v)) × (next' (f v) ≡ ok w'))
    → (m' >>= next') ≡ ok w'
>>=-follows f (fault how) next m' next' w w' e h = absurd (cc e)
>>=-follows f (ok v) next m' next' w w' e h = let (first, second) = h v refl e in rw first second
