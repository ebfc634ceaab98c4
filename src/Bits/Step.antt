-- ===== src/Bits/Step.antt =====
-- One equation for the lowest digit of each operator, from the recursion on digits that the
-- native operation stands for.
use Prim.Native.Nat.{
  min, max, digits, bitwise, differ, bit_and, bit_or, bit_xor, bit_and-bitwise, bit_or-bitwise,
  bit_xor-bitwise,
}
use iron_ledger.Common.{ℕ, zero, suc, ◌+◌, ◌*◌, ◌/◌, ◌%◌, ◌≤◌, ◌<◌, ◌≡◌, refl, ap, arith}

-- `z` answers for a first operand of zero, `f` for a pair of digits.
module _ (z : ℕ → ℕ) (f : ℕ → ℕ → ℕ) where
  -- Any count of digits that is large enough gives the same number.
  digits_enough : (k l x y : ℕ) → x ≤ k → x ≤ l → digits z f k x y ≡ digits z f l x y
  digits_enough zero l (suc x) y s t = absurd (omega arith)
  digits_enough (suc k) zero (suc x) y s t = absurd (omega arith)
  digits_enough (suc k) (suc l) (suc x) y s t =
      ap (λ (v : ℕ). v * 2 + f (suc x % 2) (y % 2))
        (digits_enough k l (suc x / 2) (y / 2) (omega arith) (omega arith))
  digits_enough zero zero zero y s t = refl
  digits_enough zero (suc l) zero y s t = refl
  digits_enough (suc k) zero zero y s t = refl
  digits_enough (suc k) (suc l) zero y s t = refl

  -- The lowest digit of the result is that of the lowest digits, if zero has no digits of its own.
  low_digit :
      ((y : ℕ) → z y ≡ z (y / 2) * 2 + f 0 (y % 2))
      → (x y : ℕ) → bitwise z f x y ≡ bitwise z f (x / 2) (y / 2) * 2 + f (x % 2) (y % 2)
  low_digit none zero y = none y
  low_digit none (suc x) y =
      ap (λ (v : ℕ). v * 2 + f (suc x % 2) (y % 2))
        (digits_enough x (suc x / 2) (suc x / 2) (y / 2) (omega arith) (omega arith))

pub bit_and_step : (x y : ℕ) → bit_and x y ≡ bit_and (x / 2) (y / 2) * 2 + min (x % 2) (y % 2)
bit_and_step x y = simp bit_and-bitwise (low_digit (λ _. 0) min (λ v. omega arith) x y)

pub bit_or_step : (x y : ℕ) → bit_or x y ≡ bit_or (x / 2) (y / 2) * 2 + max (x % 2) (y % 2)
bit_or_step x y = simp bit_or-bitwise (low_digit (λ v. v) max (λ v. omega arith) x y)

differ_as_sum : (x y : ℕ) → x < 2 → y < 2 → differ x y ≡ (x + y) % 2
differ_as_sum zero y p q = omega arith
differ_as_sum (suc zero) zero p q = refl
differ_as_sum (suc zero) (suc zero) p q = refl
differ_as_sum (suc zero) (suc (suc y)) p q = absurd (omega arith)
differ_as_sum (suc (suc x)) y p q = absurd (omega arith)

xor_digits : (x y : ℕ) → bit_xor x y ≡ bit_xor (x / 2) (y / 2) * 2 + differ (x % 2) (y % 2)
xor_digits x y =
    simp bit_xor-bitwise
      (low_digit (λ v. v) differ (λ v. omega (arith, differ_as_sum 0 (v % 2))) x y)

pub bit_xor_step : (a b : ℕ) → bit_xor a b ≡ bit_xor (a / 2) (b / 2) * 2 + (a % 2 + b % 2) % 2
bit_xor_step a b =
    omega (arith, xor_digits a b, differ_as_sum (a % 2) (b % 2) (omega arith) (omega arith))
