-- ===== src/Common/Int.antt =====
-- Signed integers over the native numbers (`int`, `ssize_t`, `off_t`), and conversion to 32 bits.
use hvac_checkpoint.Common.Tests.{ltb, if◌then◌else◌, ◌==◌, Eq}
use Prim.Native.Nat.{ℕ, suc, ◌-◌, ◌%◌, ◌^◌, ◌<◌, ◌≤◌}
use mathlib.Core.Path.{◌≡◌}
use mathlib.Core.Logic.{◌↔◌}
use mathlib.Core.Bool.{Bool, true, false}
use native.Mathlib.Omega.{arith}

-- `negsuc n` is -(n + 1).
pub data ℤ : Type 0 where
  pos : ℕ → ℤ
  negsuc : ℕ → ℤ

abbrev pub pos_part : ℤ → ℕ
pos_part (pos n) = n
pos_part (negsuc n) = 0

abbrev pub neg_part : ℤ → ℕ
neg_part (pos n) = 0
neg_part (negsuc n) = suc n

abbrev pub is_negative : ℤ → Bool
is_negative (pos n) = false
is_negative (negsuc n) = true

abbrev pub minus_one : ℤ
minus_one = negsuc 0

-- n - 1 as an integer.
abbrev pub pred_int : ℕ → ℤ
pred_int n = if n == 0 then negsuc 0 else pos (n - 1)

abbrev pub int_beq : ℤ → ℤ → Bool
int_beq (pos m) (pos n) = m == n
int_beq (pos m) (negsuc n) = false
int_beq (negsuc m) (pos n) = false
int_beq (negsuc m) (negsuc n) = m == n

pub int_beq_iff : (a b : ℤ) → (int_beq a b ≡ true) ↔ (a ≡ b)
int_beq_iff (pos m) (pos n) = ground arith
int_beq_iff (pos m) (negsuc n) = ground arith
int_beq_iff (negsuc m) (pos n) = ground arith
int_beq_iff (negsuc m) (negsuc n) = ground arith

instance abbrev pub int_eq : Eq ℤ
int_eq = record { beq = int_beq; beq_iff = int_beq_iff }

-- The low `w` bits read as an unsigned number.
abbrev pub to_unsigned : ℕ → ℤ → ℕ
to_unsigned w (pos n) = n % 2 ^ w
to_unsigned w (negsuc n) = 2 ^ w - 1 - n % 2 ^ w

-- The value of an `int32_t` whose bit pattern is `n`.
abbrev pub from_bits32 : ℕ → ℤ
from_bits32 n = if ltb n (2 ^ 31) then pos n else negsuc (2 ^ 32 - 1 - n)

-- The implicit conversion to `int32_t`.
unfoldable pub to_int32 : ℤ → ℤ
to_int32 z = from_bits32 (to_unsigned 32 z)

abbrev pub FitsInt32 : ℤ → Type 0
FitsInt32 z = (pos_part z < 2 ^ 31) × (neg_part z ≤ 2 ^ 31)

-- A value in the range of `int32_t` is kept.
pub to_int32_fits : (z : ℤ) → FitsInt32 z → to_int32 z ≡ z
unfolding to_int32
to_int32_fits (pos n) h = ground arith
to_int32_fits (negsuc n) h = ground arith

-- The result is always in the range.
pub to_int32-FitsInt32 : (z : ℤ) → FitsInt32 (to_int32 z)
unfolding to_int32
to_int32-FitsInt32 (pos n) = ground arith
to_int32-FitsInt32 (negsuc n) = ground arith
