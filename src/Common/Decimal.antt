-- ===== src/Common/Decimal.antt =====
-- `std::to_string` of an unsigned number, and `std::stoi`.
use hvac_checkpoint.Common.Tests.{◌==◌, if◌then◌else◌, leb, ltb}
use hvac_checkpoint.Common.Text.{Text}
use hvac_checkpoint.Common.Int.{ℤ, pos, negsuc}
use Prim.Native.Nat.{ℕ, zero, suc, ◌+◌, ◌-◌, ◌*◌, ◌/◌, ◌%◌, ◌<◌, ◌≤◌, ◌^◌}
use mathlib.Core.Path.{◌≡◌, refl, ◌∙◌}
use mathlib.Core.Bool.{Bool, true, false, ◌&&◌, ◌||◌}
use mathlib.Core.Option.{Option, none, some}
use mathlib.Core.List.{[], ◌∷◌, ◌++◌}
use native.Mathlib.Omega.{arith}

abbrev pub is_digit : ℕ → Bool
is_digit c = leb b'0' c && leb c b'9'

-- The digits of `n` before `rest`, on fuel; `suc n` is enough.
unfoldable pub digits_from : ℕ → ℕ → Text → Text
digits_from zero n rest = rest
digits_from (suc f) n rest =
    let more = digits_from f (n / 10) ((b'0' + n % 10) ∷ rest) in
    if ltb n 10 then (b'0' + n) ∷ rest else more

-- `std::to_string(n)`
unfoldable pub to_string : ℕ → Text
to_string n = digits_from (suc n) n []

-- The digits at the head of the text as a number, after `acc`.
unfoldable pub read_digits : ℕ → Text → ℕ
read_digits acc [] = acc
read_digits acc (c ∷ s) =
    let more = read_digits (acc * 10 + (c - b'0')) s in if is_digit c then more else acc

abbrev pub is_space : ℕ → Bool
is_space c = c == b' ' || (leb 9 c && leb c 13)

-- The digits at the head as a number; `none` without a digit or outside `int` (`std::stoi` throws).
unfoldable pub parse_unsigned : ℕ → Text → Option ℕ
parse_unsigned limit [] = none
parse_unsigned limit (c ∷ s) =
    let n = read_digits 0 (c ∷ s) in
    if is_digit c then (if leb n limit then some n else none) else none

unfoldable pub negated : Option ℕ → Option ℤ
negated none = none
negated (some zero) = some (pos 0)
negated (some (suc n)) = some (negsuc n)

abbrev pub positive : Option ℕ → Option ℤ
positive none = none
positive (some n) = some (pos n)

-- `std::stoi`: white space, a sign, digits; what follows is ignored, and `none` is a throw.
unfoldable pub stoi : Text → Option ℤ
unfolding parse_unsigned negated
stoi [] = none
stoi (c ∷ s) =
    let after_space = stoi s in
    if is_space c
    then after_space
    else if c == b'-'
    then negated (parse_unsigned (2 ^ 31) s)
    else if c == b'+'
    then positive (parse_unsigned (2 ^ 31 - 1) s)
    else positive (parse_unsigned (2 ^ 31 - 1) (c ∷ s))

-- A text that the digits of a number cannot run into.
abbrev pub Ends : Text → Type 0
Ends [] = Unit {0}
Ends (c ∷ s) = is_digit c ≡ false

pub read_digits-end : (acc : ℕ) (s : Text) → Ends s → read_digits acc s ≡ acc
unfolding read_digits
read_digits-end acc [] h = refl
read_digits-end acc (c ∷ s) h = ground arith

-- Reading the digits that were written gives the number back: what stands behind them is read as
-- if the number had been accumulated.
pub read_digits-digits_from :
    (f n : ℕ) (rest : Text) → n < f → read_digits 0 (digits_from f n rest) ≡ read_digits n rest
unfolding digits_from read_digits
read_digits-digits_from zero n rest h = absurd (omega arith)
read_digits-digits_from (suc f) n rest h =
    ground (arith, read_digits-digits_from f (n / 10) ((b'0' + n % 10) ∷ rest))

digits_from-append :
    (f n : ℕ) (rest s : Text) → digits_from f n (rest ++ s) ≡ digits_from f n rest ++ s
unfolding digits_from
digits_from-append zero n rest s = refl
digits_from-append (suc f) n rest s =
    ground (arith, digits_from-append f (n / 10) ((b'0' + n % 10) ∷ rest) s)

-- The head of a printed number is a digit.
abbrev pub StartsWithDigit : Text → Type 0
StartsWithDigit [] = ⊥
StartsWithDigit (c ∷ s) = is_digit c ≡ true

pub digits_from-StartsWithDigit :
    (f n : ℕ) (rest : Text) → n < f → StartsWithDigit (digits_from f n rest)
unfolding digits_from
digits_from-StartsWithDigit zero n rest h = absurd (omega arith)
digits_from-StartsWithDigit (suc f) n rest h =
    ground (arith, digits_from-StartsWithDigit f (n / 10) ((b'0' + n % 10) ∷ rest))

pub digits-to_string : (n : ℕ) (s : Text) → to_string n ++ s ≡ digits_from (suc n) n s
unfolding to_string
digits-to_string n s = rw (← digits_from-append (suc n) n [] s)

pub read_digits-to_string : (n : ℕ) (s : Text) → Ends s → read_digits 0 (to_string n ++ s) ≡ n
read_digits-to_string n s h =
    rw (digits-to_string n s, read_digits-digits_from (suc n) n s (omega arith))
      (read_digits-end n s h)

parse_digits :
    (limit n : ℕ) (t : Text)
    → StartsWithDigit t
    → read_digits 0 t ≡ n
    → n ≤ limit
    → parse_unsigned limit t ≡ some n
unfolding parse_unsigned
parse_digits limit n [] d e h = absurd d
parse_digits limit n (c ∷ s) d e h = ground arith

stoi_digits :
    (n : ℕ) (t : Text)
    → StartsWithDigit t
    → read_digits 0 t ≡ n
    → n ≤ 2 ^ 31 - 1
    → stoi t ≡ some (pos n)
unfolding stoi
stoi_digits n [] d e h = absurd d
stoi_digits n (c ∷ s) d e h = ground (arith, parse_digits (2 ^ 31 - 1) n (c ∷ s) d e h)

-- A printed number that fits an `int` is read back, whatever stands behind it that is no digit.
pub stoi-to_string :
    (n : ℕ) (s : Text) → n < 2 ^ 31 → Ends s → stoi (to_string n ++ s) ≡ some (pos n)
stoi-to_string n s small h = rw (digits-to_string n s) (
    stoi_digits n _ (digits_from-StartsWithDigit (suc n) n s (omega arith))
      (read_digits-digits_from (suc n) n s (omega arith) ∙ read_digits-end n s h) (omega arith))
