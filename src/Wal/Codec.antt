-- ===== src/Wal/Codec.antt =====
-- The little-endian codecs of wal.cpp. A write through `uint8_t* p` is the list of the bytes
-- written, a read through it takes the bytes from `p` on.
pub mod RoundTrip
use iron_ledger.Common.{ℕ, zero, suc, ◌+◌, ◌*◌, ◌/◌, ◌%◌, ◌^◌, List, [], ◌∷◌, byte_at}
use iron_ledger.Bits.{◌<<◌, ◌>>◌, bit_or}

-- static_cast<uint8_t>(v)
abbrev pub u8 : ℕ → ℕ
u8 v = v % 256

unfoldable pub put_u32 : ℕ → List ℕ
put_u32 v = u8 v ∷ u8 (v >> 8) ∷ u8 (v >> 16) ∷ u8 (v >> 24) ∷ []

-- The loop of `PutU64` from `i` on, with the count of rounds left.
unfoldable pub put_loop : ℕ → ℕ → ℕ → List ℕ
put_loop v i zero = []
put_loop v i (suc left) = u8 (v >> (8 * i)) ∷ put_loop v (i + 1) left

unfoldable pub put_u64 : ℕ → List ℕ
put_u64 v = put_loop v 0 8

unfoldable pub get_u32 : List ℕ → ℕ
get_u32 p =
    bit_or (bit_or (bit_or (byte_at p 0) (byte_at p 1 << 8)) (byte_at p 2 << 16))
      (byte_at p 3 << 24)

-- The loop of `GetU64` at `i = left - 1`, which counts down; `v << 8` is cut off at 64 bits.
unfoldable pub get_loop : ℕ → ℕ → List ℕ → ℕ
get_loop zero v p = v
get_loop (suc i) v p = get_loop i (bit_or ((v << 8) % 2 ^ 64) (byte_at p i)) p

unfoldable pub get_u64 : List ℕ → ℕ
get_u64 p = get_loop 8 0 p
