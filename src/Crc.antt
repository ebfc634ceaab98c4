-- ===== src/Crc.antt =====
-- crc32c.cpp: the table and the byte-at-a-time loop. A uint32_t is a number below 2 ^ 32, and
-- `~x` on it is 2 ^ 32 - 1 - x.
pub mod Bounds
pub mod Compose
pub mod Detect
mod Tests
use iron_ledger.Common.{
  ℕ, zero, suc, ◌+◌, ◌-◌, ◌^◌, List, [], ◌∷◌, ◌==◌, if◌then◌else◌, get_or, ◌≡◌, refl,
}
use iron_ledger.Bits.{◌>>◌, bit_and, bit_xor}

-- kPoly
abbrev pub poly : ℕ
poly = 0x82F6_3B78

-- The inner loop of `BuildTable`, with `k` rounds left.
pub reduce : ℕ → ℕ → ℕ
reduce zero c = c
reduce (suc k) c = reduce k (if bit_and c 1 == 1 then bit_xor poly (c >> 1) else c >> 1)

-- The outer loop of `BuildTable`: the entries from `i` on, with `left` of them to make.
pub build_from : ℕ → ℕ → List ℕ
build_from i zero = []
build_from i (suc left) = reduce 8 i ∷ build_from (i + 1) left

-- kTable
unfoldable pub table : List ℕ
unfolding build_from reduce
table = build_from 0 256

-- kTable[i]; the index is masked to a byte at every use.
unfoldable pub entry : ℕ → ℕ
entry i = get_or table i 0

-- One round of the loop in `Crc32c`.
unfoldable pub crc_step : ℕ → ℕ → ℕ
crc_step c b = bit_xor (entry (bit_and (bit_xor c b) 255)) (c >> 8)

unfoldable pub crc_loop : ℕ → List ℕ → ℕ
crc_loop c [] = c
crc_loop c (b ∷ bs) = crc_loop (crc_step c b) bs

-- ~x on uint32_t
abbrev pub complement : ℕ → ℕ
complement x = 2 ^ 32 - 1 - x

-- Crc32c(buf, n, prev)
unfoldable pub crc32c : List ℕ → ℕ → ℕ
crc32c buf prev = complement (crc_loop (complement prev) buf)

-- "123456789", the check value of CRC-32C.
check_value :
    crc32c (0x31 ∷ 0x32 ∷ 0x33 ∷ 0x34 ∷ 0x35 ∷ 0x36 ∷ 0x37 ∷ 0x38 ∷ 0x39 ∷ []) 0 ≡ 0xE306_9283
unfolding crc32c crc_loop crc_step entry table
check_value = refl
