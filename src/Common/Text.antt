-- ===== src/Common/Text.antt =====
-- Text as a list of byte codes: C strings and `std::string`.
use hvac_checkpoint.Common.Tests.{Eq, ◌==◌, if◌then◌else◌}
use hvac_checkpoint.Common.Lists.{All}
use Prim.Native.Nat.{ℕ}
use Prim.Native.Char.{code}
use Prim.Native.String.{String}
use mathlib.Core.Path.{◌≡◌, refl}
use mathlib.Core.Logic.{◌↔◌, ◌≢◌}
use mathlib.Core.Bool.{Bool, true, false, ◌&&◌, ◌||◌}
use mathlib.Core.List.{List, [], ◌∷◌, ◌++◌}
use native.Mathlib.Omega.{arith}

abbrev pub Text : Type 0
Text = List ℕ

-- The byte codes of an ASCII literal.
abbrev pub codes : String → Text
codes String.[] = []
codes (String.◌∷◌ c s) = code c ∷ codes s

abbrev pub text_beq : Text → Text → Bool
text_beq [] [] = true
text_beq [] (y ∷ ys) = false
text_beq (x ∷ xs) [] = false
text_beq (x ∷ xs) (y ∷ ys) = x == y && text_beq xs ys

pub text_beq_iff : (s t : Text) → (text_beq s t ≡ true) ↔ (s ≡ t)
text_beq_iff [] [] = ground arith
text_beq_iff [] (y ∷ ys) = ground arith
text_beq_iff (x ∷ xs) [] = ground arith
text_beq_iff (x ∷ xs) (y ∷ ys) = ground (arith, text_beq_iff xs ys)

instance abbrev pub text_eq : Eq Text
text_eq = record { beq = text_beq; beq_iff = text_beq_iff }

-- `s.c_str()` read as a C string: it ends at the first zero byte.
unfoldable pub c_str : Text → Text
c_str [] = []
c_str (c ∷ s) = if c == 0 then [] else c ∷ c_str s

pub c_str_of_nonzero : (s : Text) → All (λ c. c ≢ 0) s → c_str s ≡ s
unfolding c_str
c_str_of_nonzero [] h = refl
c_str_of_nonzero (c ∷ s) h = ground (arith, h.0, c_str_of_nonzero s h.1)

abbrev pub starts_with : Text → Text → Bool
starts_with [] s = true
starts_with (p ∷ ps) [] = false
starts_with (p ∷ ps) (c ∷ s) = p == c && starts_with ps s

-- `s.find(pat) != npos`, and `strstr(s, pat) != NULL`.
unfoldable pub contains : Text → Text → Bool
contains pat [] = starts_with pat []
contains pat (c ∷ s) = starts_with pat (c ∷ s) || contains pat s

pub starts_with-append : (p s : Text) → starts_with p (p ++ s) ≡ true
starts_with-append [] s = refl
starts_with-append (c ∷ p) s = ground (arith, starts_with-append p s)

pub contains_prefix : (p s : Text) → contains p (p ++ s) ≡ true
unfolding contains
contains_prefix [] [] = refl
contains_prefix [] (c ∷ s) = refl
contains_prefix (c ∷ p) s = ground (arith, starts_with-append (c ∷ p) s)

pub contains-append : (p a s : Text) → contains p (a ++ (p ++ s)) ≡ true
unfolding contains
contains-append p [] s = contains_prefix p s
contains-append p (c ∷ a) s = ground (arith, contains-append p a s)
