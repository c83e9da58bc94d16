-- ===== src/Hex.antt =====
-- hvac_comm.cpp: `buffer_to_hex`, the debugging print of a buffer.
use hvac_checkpoint.Common.{
  ℕ, ◌+◌, ◌-◌, ◌*◌, ◌/◌, ◌%◌, ◌<◌, ◌≡◌, ◌≢◌, refl, Bool, true, Option, some, none, [], ◌∷◌, ltb,
  All, arith, if◌then◌else◌, ◌++◌, length, length-append,
}
use hvac_checkpoint.Common.Text.{Text, c_str}

-- `hex_digits[n]` for n below 16.
unfoldable pub hex_digit : ℕ → ℕ
hex_digit n = if ltb n 10 then 48 + n else 55 + n

-- The loop over the bytes; `buffer[i] >> 4` is `buffer[i] / 16`.
unfoldable pub hex_digits : Text → Text
hex_digits [] = []
hex_digits (b ∷ buffer) = hex_digit (b / 16 % 16) ∷ hex_digit (b % 16) ∷ hex_digits buffer

-- `allocated` says whether `malloc` succeeds; the bytes of the result with the zero behind them.
unfoldable pub buffer_to_hex : Bool → Text → Option Text
buffer_to_hex allocated buffer = if allocated then some (hex_digits buffer ++ 0 ∷ []) else none

-- The number of a digit, and the bytes of a text of digits.
unfoldable pub digit_value : ℕ → ℕ
digit_value c = if ltb c 58 then c - 48 else c - 55

unfoldable pub from_hex : Text → Text
from_hex [] = []
from_hex (h ∷ []) = []
from_hex (h ∷ l ∷ s) = (digit_value h * 16 + digit_value l) ∷ from_hex s

digit_value-hex_digit : (n : ℕ) → n < 16 → digit_value (hex_digit n) ≡ n
unfolding digit_value hex_digit
digit_value-hex_digit n h = ground arith

hex_digits-nonzero : (buffer : Text) → All (λ c. c ≢ 0) (hex_digits buffer)
unfolding hex_digits hex_digit
hex_digits-nonzero [] = tt
hex_digits-nonzero (b ∷ buffer) = (ground arith, (ground arith, hex_digits-nonzero buffer))

from_hex-hex_digits :
    (buffer : Text) → All (λ b. b < 256) buffer → from_hex (hex_digits buffer) ≡ buffer
unfolding from_hex hex_digits
from_hex-hex_digits [] h = refl
from_hex-hex_digits (b ∷ buffer) h =
    let high = digit_value-hex_digit (b / 16 % 16) (omega arith) in
    let low = digit_value-hex_digit (b % 16) (omega arith) in
    let byte : digit_value (hex_digit (b / 16 % 16)) * 16 + digit_value (hex_digit (b % 16)) ≡ b =
      rw (high, low) (omega (arith, h.0)) in
    rw (byte, from_hex-hex_digits buffer h.1) refl

c_str-append : (s : Text) → All (λ c. c ≢ 0) s → c_str (s ++ 0 ∷ []) ≡ s
unfolding c_str
c_str-append [] h = refl
c_str-append (c ∷ s) h = ground (arith, h.0, c_str-append s h.1)

length-hex_digits : (buffer : Text) → length (hex_digits buffer) ≡ length buffer * 2
unfolding hex_digits
length-hex_digits [] = omega arith
length-hex_digits (b ∷ buffer) = omega (arith, length-hex_digits buffer)

-- Where memory is given, the result for a buffer of bytes has the `size * 2 + 1` bytes that were
-- asked for; read as a C string and decoded, it gives the buffer back.
pub from_hex-buffer_to_hex :
    (buffer : Text)
    → All (λ b. b < 256) buffer
    → (text : Text) × (buffer_to_hex true buffer ≡ some text)
      × (length text ≡ length buffer * 2 + 1)
      × (from_hex (c_str text) ≡ buffer)
unfolding buffer_to_hex
from_hex-buffer_to_hex buffer h = (
  hex_digits buffer ++ 0 ∷ [],
  refl,
  omega (arith, length-hex_digits buffer, length-append (hex_digits buffer) (0 ∷ [])),
  rw (c_str-append (hex_digits buffer) (hex_digits-nonzero buffer)) (from_hex-hex_digits buffer h),
)
