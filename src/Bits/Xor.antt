-- ===== src/Bits/Xor.antt =====
-- Laws of `^`: bounds, cancellation, and the digits above the width of one operand.
use Prim.Native.Nat.{bit_xor, bit_xor-bitwise}
use native.Mathlib.Nat.{pow-suc}
use iron_ledger.Common.{ℕ, zero, suc, ◌+◌, ◌*◌, ◌/◌, ◌^◌, ◌≤◌, ◌<◌, ◌≡◌, refl, sym, ◌∙◌, ap, arith}
use iron_ledger.Bits.Step.{bit_xor_step}

pub bit_xor-lt : (k a b : ℕ) → a < 2 ^ k → b < 2 ^ k → bit_xor a b < 2 ^ k
bit_xor-lt zero zero zero p q = p
bit_xor-lt zero (suc a) b p q = absurd (omega arith)
bit_xor-lt zero zero (suc b) p q = absurd (omega arith)
bit_xor-lt (suc k) a b p q = omega (
  arith,
  bit_xor_step a b,
  pow-suc 2 k,
  bit_xor-lt k (a / 2) (b / 2) (omega (arith, pow-suc 2 k)) (omega (arith, pow-suc 2 k)),
)

zero-bit_xor : (b : ℕ) → bit_xor 0 b ≡ b
zero-bit_xor b = bit_xor-bitwise 0 b

cancel_below : (n a b c : ℕ) → a ≤ n → bit_xor a b ≡ bit_xor a c → b ≡ c
cancel_below n zero b c h e = sym (zero-bit_xor b) ∙ e ∙ zero-bit_xor c
cancel_below zero (suc a) b c h e = absurd (omega arith)
cancel_below (suc n) (suc a) b c h e =
    let halves : b / 2 ≡ c / 2 =
      cancel_below n (suc a / 2) (b / 2) (c / 2) (omega arith)
        (omega (arith, bit_xor_step (suc a) b, bit_xor_step (suc a) c)) in
    omega (arith, bit_xor_step (suc a) b, bit_xor_step (suc a) c, ap (bit_xor (suc a / 2)) halves)

pub bit_xor_cancel : (a b c : ℕ) → bit_xor a b ≡ bit_xor a c → b ≡ c
bit_xor_cancel a b c = cancel_below a a b c (omega arith)

comm_below : (n a b : ℕ) → a ≤ n → b ≤ n → bit_xor a b ≡ bit_xor b a
comm_below zero zero zero p q = refl
comm_below zero (suc a) b p q = absurd (omega arith)
comm_below zero zero (suc b) p q = absurd (omega arith)
comm_below (suc n) a b p q = omega (
  arith,
  bit_xor_step a b,
  bit_xor_step b a,
  comm_below n (a / 2) (b / 2) (omega arith) (omega arith),
)

pub bit_xor_comm : (a b : ℕ) → bit_xor a b ≡ bit_xor b a
bit_xor_comm a b = comm_below (a + b) a b (omega arith) (omega arith)

pub bit_xor-zero : (a : ℕ) → bit_xor a 0 ≡ a
bit_xor-zero a = bit_xor_comm a 0 ∙ zero-bit_xor a

pub bit_xor_cancel_right : (a b c : ℕ) → bit_xor a c ≡ bit_xor b c → a ≡ b
bit_xor_cancel_right a b c e = bit_xor_cancel c a b (bit_xor_comm c a ∙ e ∙ bit_xor_comm b c)

mul-pow-suc : (q k : ℕ) → q * 2 ^ suc k ≡ q * 2 ^ k * 2
mul-pow-suc q k = omega (arith, ap (λ (t : ℕ). q * t) (pow-suc 2 k))

-- An operand below 2 ^ k leaves the digits from k upwards alone.
pub bit_xor_high :
    (k q r s : ℕ) → r < 2 ^ k → s < 2 ^ k → bit_xor (q * 2 ^ k + r) s ≡ q * 2 ^ k + bit_xor r s
bit_xor_high zero q zero zero p h = omega (arith, bit_xor-zero (q * 1 + 0))
bit_xor_high zero q (suc r) s p h = absurd (omega arith)
bit_xor_high zero q zero (suc s) p h = absurd (omega arith)
bit_xor_high (suc k) q r s p h = ground (
  arith,
  bit_xor_step (q * 2 ^ suc k + r) s,
  bit_xor_step r s,
  mul-pow-suc q k,
  pow-suc 2 k,
  bit_xor_high k q (r / 2) (s / 2),
)
