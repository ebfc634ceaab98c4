-- ===== src/Common/Int.antt =====
-- Signed integers over the native numbers, and the int64_t values among them.
use Prim.Native.Nat.{ℕ, suc, ◌+◌, ◌-◌, ◌%◌, ◌^◌, ◌≤◌, ◌<◌}
use mathlib.Core.Path.{◌≡◌, sym, ap, ◌∙◌}
use mathlib.Core.Bool.{Bool, true, false, ◌&&◌}
use mathlib.Core.Option.{Option, none, some}
use native.Mathlib.Omega.{arith}
use iron_ledger.Common.Tests.{ltb, leb, if◌then◌else◌}

-- `negsuc n` is -(n + 1).
pub data ℤ : Type 0 where
  pos : ℕ → ℤ
  negsuc : ℕ → ℤ

abbrev pub pos_part : ℤ → ℕ
pos_part (pos n) = n
pos_part (negsuc n) = 0

abbrev pub neg_part : ℤ → ℕ
neg_part (pos n) = 0
neg_part (negsuc n) = suc n

-- a - b, as an integer.
abbrev pub sub_ℕ : ℕ → ℕ → ℤ
sub_ℕ a b = if leb b a then pos (a - b) else negsuc (b - a - 1)

infixl 65 ◌+ℤ◌
infix 50 ◌≤ℤ◌
unfoldable pub ◌+ℤ◌ : ℤ → ℤ → ℤ
a +ℤ b = sub_ℕ (pos_part a + pos_part b) (neg_part a + neg_part b)

abbrev pub ◌≤ℤ◌ : ℤ → ℤ → Type 0
a ≤ℤ b = pos_part a + neg_part b ≤ pos_part b + neg_part a

abbrev pub is_negative : ℤ → Bool
is_negative (pos n) = false
is_negative (negsuc n) = true

-- With this the sum can stay shut.
pub +ℤ_parts :
    (a b : ℤ)
    → pos_part (a +ℤ b) + neg_part a + neg_part b ≡ neg_part (a +ℤ b) + pos_part a + pos_part b
unfolding ◌+ℤ◌
+ℤ_parts a b = ground arith

pub eq_of_parts : (a b : ℤ) → pos_part a + neg_part b ≡ pos_part b + neg_part a → a ≡ b
eq_of_parts a b h = ground arith

pub ruleset int_laws = (arith, +ℤ_parts, eq_of_parts)

-- The values of an int64_t.
abbrev pub IsI64 : ℤ → Type 0
IsI64 a = (pos_part a < 2 ^ 63) × (neg_part a ≤ 2 ^ 63)

abbrev pub fits_i64 : ℤ → Bool
fits_i64 a = ltb (pos_part a) (2 ^ 63) && leb (neg_part a) (2 ^ 63)

-- static_cast<uint64_t>(a): the two's complement bit pattern.
unfoldable pub to_u64 : ℤ → ℕ
to_u64 (pos n) = n % 2 ^ 64
to_u64 (negsuc n) = 2 ^ 64 - 1 - n % 2 ^ 64

-- static_cast<int64_t>(w).
unfoldable pub to_i64 : ℕ → ℤ
to_i64 w = if ltb (w % 2 ^ 64) (2 ^ 63) then pos (w % 2 ^ 64) else negsuc (2 ^ 64 - 1 - w % 2 ^ 64)

pub to_u64-lt : (a : ℤ) → to_u64 a < 2 ^ 64
unfolding to_u64
to_u64-lt (pos n) = omega arith
to_u64-lt (negsuc n) = omega arith

-- Each cast undoes the other.
pub to_i64-to_u64 : (a : ℤ) → IsI64 a → to_i64 (to_u64 a) ≡ a
unfolding to_i64 to_u64
to_i64-to_u64 (pos n) h = ground arith
to_i64-to_u64 (negsuc n) h = ground arith

pub to_u64-to_i64 : (w : ℕ) → to_u64 (to_i64 w) ≡ w % 2 ^ 64
unfolding to_i64 to_u64
to_u64-to_i64 w = ground arith

pub to_i64-IsI64 : (w : ℕ) → IsI64 (to_i64 w)
unfolding to_i64
to_i64-IsI64 w = ground arith

-- `a += b` on int64_t, as two's complement hardware does it.
unfoldable pub add_i64 : ℤ → ℤ → ℤ
unfolding to_u64 to_i64
add_i64 a b = to_i64 (to_u64 a + to_u64 b)

-- __builtin_add_overflow: `none` is the result true, `some s` is the result false with the sum.
unfoldable pub add_overflow : ℤ → ℤ → Option ℤ
unfolding ◌+ℤ◌
add_overflow a b = if fits_i64 (a +ℤ b) then some (a +ℤ b) else none

pub add_i64-IsI64 : (a b : ℤ) → IsI64 (add_i64 a b)
unfolding add_i64
add_i64-IsI64 a b = to_i64-IsI64 (to_u64 a + to_u64 b)

pub to_u64-add_i64 : (a b : ℤ) → to_u64 (add_i64 a b) ≡ (to_u64 a + to_u64 b) % 2 ^ 64
to_u64-add_i64 a b = unfold add_i64 in to_u64-to_i64 (to_u64 a + to_u64 b)

-- The bit pattern of a sum is the sum of the bit patterns.
pub to_u64-+ℤ : (a b : ℤ) → to_u64 (a +ℤ b) ≡ (to_u64 a + to_u64 b) % 2 ^ 64
unfolding to_u64 ◌+ℤ◌
to_u64-+ℤ (pos n) (pos m) = ground arith
to_u64-+ℤ (pos n) (negsuc m) = ground arith
to_u64-+ℤ (negsuc n) (pos m) = ground arith
to_u64-+ℤ (negsuc n) (negsuc m) = ground arith

to_i64-mod : (w : ℕ) → to_i64 (w % 2 ^ 64) ≡ to_i64 w
unfolding to_i64
to_i64-mod w = ground arith

-- Without overflow the machine's sum is the sum of the integers.
pub add_i64-eq-+ℤ : (a b : ℤ) → IsI64 (a +ℤ b) → add_i64 a b ≡ a +ℤ b
unfolding add_i64
add_i64-eq-+ℤ a b h =
    sym (to_i64-mod (to_u64 a + to_u64 b))
    ∙ ap to_i64 (sym (to_u64-+ℤ a b))
    ∙ to_i64-to_u64 (a +ℤ b) h

pub add_overflow-some : (a b s : ℤ) → add_overflow a b ≡ some s → (s ≡ a +ℤ b) × IsI64 s
unfolding add_overflow
add_overflow-some a b s h = ground arith

pub add_overflow_fits : (a b : ℤ) → IsI64 (a +ℤ b) → add_overflow a b ≡ some (a +ℤ b)
add_overflow_fits a b h = unfold add_overflow in ground arith
