-- ===== src/Ledger/Transfer.antt =====
-- Transfers and their wire format: u64 idem_key | u32 n | n x (u64 account, i64 amount).
pub mod Codec
pub mod RoundTrip
pub mod Frames
use iron_ledger.Common.{
  ℕ, zero, suc, ◌+◌, ◌*◌, ◌%◌, ◌^◌, ◌<◌, Bool, not, ◌||◌, Option, none, some, List, [], ◌∷◌, ◌++◌,
  ltb, ◌==◌, if◌then◌else◌, length, drop, byte_at,
}
use iron_ledger.Common.Int.{ℤ, to_u64, to_i64, IsI64}
use iron_ledger.Bits.{◌<<◌, ◌>>◌, bit_or}
use iron_ledger.Wal.Codec.{u8, get_u32}

pub record Posting : Type 0 where
  pub account : ℕ
  pub amount : ℤ

pub record Transfer : Type 0 where
  pub idem_key : ℕ
  pub postings : List Posting

-- kMinPostings and kMaxPostings
abbrev pub min_postings : ℕ
min_postings = 2

abbrev pub max_postings : ℕ
max_postings = 8

-- PutU32, which pushes four bytes back.
unfoldable pub push_u32 : List ℕ → ℕ → List ℕ
push_u32 out v = out ++ u8 v ∷ u8 (v >> 8) ∷ u8 (v >> 16) ∷ u8 (v >> 24) ∷ []

-- The loop of `PutU64` from `i` on, with the count of rounds left.
unfoldable pub push_loop : List ℕ → ℕ → ℕ → ℕ → List ℕ
push_loop out v i zero = out
push_loop out v i (suc left) = push_loop (out ++ u8 (v >> (8 * i)) ∷ []) v (i + 1) left

unfoldable pub push_u64 : List ℕ → ℕ → List ℕ
push_u64 out v = push_loop out v 0 8

-- The loop of `GetU64`, which here counts up; GetU32 is that of wal.cpp.
unfoldable pub read_loop : ℕ → ℕ → ℕ → List ℕ → ℕ
read_loop i zero v p = v
read_loop i (suc left) v p = read_loop (i + 1) left (bit_or v (byte_at p i << (8 * i))) p

unfoldable pub read_u64 : List ℕ → ℕ
read_u64 p = read_loop 0 8 0 p

-- The loop of `EncodeTransfer`.
unfoldable pub encode_postings : List ℕ → List Posting → List ℕ
encode_postings out [] = out
encode_postings out (p ∷ ps) =
    encode_postings (push_u64 (push_u64 out p.account) (to_u64 p.amount)) ps

-- EncodeTransfer
unfoldable pub encode_transfer : List ℕ → Transfer → List ℕ
encode_transfer out t =
    encode_postings (push_u32 (push_u64 out t.idem_key) (length t.postings)) t.postings

-- The loop of `DecodeTransfer`, with the count of rounds left.
unfoldable pub decode_postings : ℕ → List ℕ → List Posting
decode_postings zero p = []
decode_postings (suc left) p =
    record { account = read_u64 p; amount = to_i64 (read_u64 (drop 8 p)) }
    ∷ decode_postings left (drop 16 p)

-- DecodeTransfer; `none` is the result false.
unfoldable pub decode_transfer : List ℕ → Option Transfer
decode_transfer bytes =
    let n = get_u32 (drop 8 bytes) in
    if ltb (length bytes) 12
    then none
    else if ltb n min_postings || ltb max_postings n
    then none
    else if not (length bytes == 12 + 16 * n)
    then none
    else some (record { idem_key = read_u64 bytes; postings = decode_postings n (drop 12 bytes) })

-- The values that the C++ types of the fields can hold.
abbrev pub AreTyped : List Posting → Type 0
AreTyped [] = Unit
AreTyped (p ∷ ps) = (p.account < 2 ^ 64) × IsI64 p.amount × AreTyped ps

abbrev pub IsTyped : Transfer → Type 0
IsTyped t = (t.idem_key < 2 ^ 64) × AreTyped t.postings
