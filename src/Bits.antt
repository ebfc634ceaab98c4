-- ===== src/Bits.antt =====
-- The operators `|`, `&` and `^` of the source on unsigned words, as laws at every width.
mod Step
pub mod Xor
pub use Step.{bit_xor_step}
use Step.{bit_or_step, bit_and_step}
pub use Prim.Native.Nat.{bit_and, bit_or, bit_xor}
use Prim.Native.Nat.{bit_or-bitwise}
use native.Mathlib.Nat.{pow-suc}
use iron_ledger.Common.{ℕ, zero, suc, ◌+◌, ◌*◌, ◌/◌, ◌%◌, ◌^◌, ◌≤◌, ◌<◌, ◌≡◌, refl, ap, arith}

-- x << k and x >> k, before the cast to the width.
infixl 75 ◌<<◌ ◌>>◌
abbrev pub ◌<<◌ : ℕ → ℕ → ℕ
x << k = x * 2 ^ k

abbrev pub ◌>>◌ : ℕ → ℕ → ℕ
x >> k = x / 2 ^ k

bit_or-zero_below : (n a : ℕ) → a ≤ n → bit_or a 0 ≡ a
bit_or-zero_below n zero h = refl
bit_or-zero_below zero (suc a) h = absurd (omega arith)
bit_or-zero_below (suc n) (suc a) h =
    omega (arith, bit_or_step (suc a) 0, bit_or-zero_below n (suc a / 2) (omega arith))

bit_and-zero_below : (n a : ℕ) → a ≤ n → bit_and a 0 ≡ 0
bit_and-zero_below n zero h = refl
bit_and-zero_below zero (suc a) h = absurd (omega arith)
bit_and-zero_below (suc n) (suc a) h =
    omega (arith, bit_and_step (suc a) 0, bit_and-zero_below n (suc a / 2) (omega arith))

bit_and-zero : (a : ℕ) → bit_and a 0 ≡ 0
bit_and-zero a = bit_and-zero_below a a (omega arith)

pub shift_suc : (q k : ℕ) → q << suc k ≡ (q << k) * 2
shift_suc q k = omega (arith, ap (λ (t : ℕ). q * t) (pow-suc 2 k))

-- `hi | lo` and `lo | hi` are sums where `lo` fits the bits below.
pub bit_or_high : (k q r : ℕ) → r < 2 ^ k → bit_or (q << k) r ≡ (q << k) + r
bit_or_high zero q r h = ground (arith, bit_or-zero_below q q)
bit_or_high (suc k) q r h =
    ground (arith, bit_or_step (q << suc k) r, shift_suc q k, pow-suc 2 k, bit_or_high k q (r / 2))

pub bit_or_low : (k q r : ℕ) → r < 2 ^ k → bit_or r (q << k) ≡ (q << k) + r
bit_or_low zero q zero h = omega (arith, bit_or-bitwise 0 (q << 0))
bit_or_low zero q (suc r) h = absurd (omega arith)
bit_or_low (suc k) q r h =
    ground (arith, bit_or_step r (q << suc k), shift_suc q k, pow-suc 2 k, bit_or_low k q (r / 2))

-- A mask of ones, one digit at a time.
mask_step : (a m : ℕ) → bit_and a (m * 2 + 1) ≡ bit_and (a / 2) m * 2 + a % 2
mask_step a m =
    rw (bit_and_step a (m * 2 + 1))
      (let e : (m * 2 + 1) / 2 ≡ m = omega arith in rw e (omega arith))

pub bit_and_byte : (a : ℕ) → bit_and a 255 ≡ a % 256
bit_and_byte a = omega (
  arith,
  mask_step a 127,
  mask_step (a / 2) 63,
  mask_step (a / 2 / 2) 31,
  mask_step (a / 2 / 2 / 2) 15,
  mask_step (a / 2 / 2 / 2 / 2) 7,
  mask_step (a / 2 / 2 / 2 / 2 / 2) 3,
  mask_step (a / 2 / 2 / 2 / 2 / 2 / 2) 1,
  mask_step (a / 2 / 2 / 2 / 2 / 2 / 2 / 2) 0,
  bit_and-zero (a / 2 / 2 / 2 / 2 / 2 / 2 / 2 / 2),
)
