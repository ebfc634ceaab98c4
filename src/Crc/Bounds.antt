-- ===== src/Crc/Bounds.antt =====
-- Every value of the checksum fits a uint32_t.
use iron_ledger.Common.{
  ℕ, zero, suc, ◌/◌, ◌^◌, ◌<◌, ◌≡◌, refl, Bool, true, List, [], ◌∷◌, arith, ltb, ◌&&◌, get_or,
}
use iron_ledger.Bits.{bit_and, bit_xor}
use iron_ledger.Bits.Xor.{bit_xor-lt}
use iron_ledger.Crc.{table, entry, crc_step, crc_loop, crc32c}

all_lt : ℕ → List ℕ → Bool
all_lt n [] = true
all_lt n (x ∷ xs) = ltb x n && all_lt n xs

all_lt-get_or : (n i : ℕ) (xs : List ℕ) → 0 < n → all_lt n xs ≡ true → get_or xs i 0 < n
unfolding all_lt
all_lt-get_or n i [] p h = p
all_lt-get_or n zero (x ∷ xs) p h = ground arith
all_lt-get_or n (suc i) (x ∷ xs) p h = ground (arith, all_lt-get_or n i xs p)

entries_fit : all_lt (2 ^ 32) table ≡ true
unfolding all_lt table
entries_fit = refl

pub entry-lt : (i : ℕ) → entry i < 2 ^ 32
entry-lt i = unfold entry in all_lt-get_or (2 ^ 32) i table (omega arith) entries_fit

pub crc_step-lt : (c b : ℕ) → c < 2 ^ 32 → crc_step c b < 2 ^ 32
unfolding crc_step
crc_step-lt c b h =
    bit_xor-lt 32 (entry (bit_and (bit_xor c b) 255)) (c / 2 ^ 8)
      (entry-lt (bit_and (bit_xor c b) 255)) (omega arith)

pub crc_loop-lt : (c : ℕ) (bs : List ℕ) → c < 2 ^ 32 → crc_loop c bs < 2 ^ 32
unfolding crc_loop
crc_loop-lt c [] h = h
crc_loop-lt c (b ∷ bs) h = crc_loop-lt (crc_step c b) bs (crc_step-lt c b h)

pub crc32c-lt : (buf : List ℕ) (prev : ℕ) → crc32c buf prev < 2 ^ 32
unfolding crc32c
crc32c-lt buf prev = omega arith
