-- ===== src/Crc/Compose.antt =====
-- `Crc32c(b, nb, Crc32c(a, na)) == Crc32c(ab, na + nb)`, the promise of crc32c.h.
use iron_ledger.Common.{ℕ, ◌^◌, ◌<◌, ◌≡◌, refl, ap, List, [], ◌∷◌, ◌++◌, arith}
use iron_ledger.Crc.{crc_step, crc_loop, complement, crc32c}
use iron_ledger.Crc.Bounds.{crc_loop-lt}

pub crc_loop-append : (c : ℕ) (xs ys : List ℕ) → crc_loop c (xs ++ ys) ≡ crc_loop (crc_loop c xs) ys
unfolding crc_loop
crc_loop-append c [] ys = refl
crc_loop-append c (x ∷ xs) ys = crc_loop-append (crc_step c x) xs ys

complement_twice : (x : ℕ) → x < 2 ^ 32 → complement (complement x) ≡ x
complement_twice x h = omega arith

-- The checksum of two adjacent buffers is the checksum of the second, continued from that of the
-- first, whatever value the first was continued from.
pub crc32c-append : (a b : List ℕ) (prev : ℕ) → crc32c b (crc32c a prev) ≡ crc32c (a ++ b) prev
unfolding crc32c
crc32c-append a b prev =
    rw
      (complement_twice (crc_loop (complement prev) a)
        (crc_loop-lt (complement prev) a (omega arith)))
      (ap complement (rw crc_loop-append))
