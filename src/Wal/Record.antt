-- ===== src/Wal/Record.antt =====
-- The record format of wal.h, `FillHeader` and `EncodeRecord`.
use iron_ledger.Common.{
  ℕ, ◌^◌, ◌<◌, ◌≡◌, refl, List, [], ◌++◌, length, take, drop, AllLt, arith, AllLt-append,
}
use iron_ledger.Crc.{crc32c}
use iron_ledger.Wal.Codec.{put_u32, put_loop, put_u64, get_u32, get_u64}
use iron_ledger.Wal.Codec.RoundTrip.{put_u32_bytes, put_u64_bytes, get_u32-put_u32, get_u64-put_u64}
use iron_ledger.Crc.Bounds.{crc32c-lt}

-- kRecordMagic
abbrev pub record_magic : ℕ
record_magic = 0x474F_4C49

-- kHeaderSize
abbrev pub header_size : ℕ
header_size = 24

-- kMaxPayloadSize
abbrev pub max_payload_size : ℕ
max_payload_size = 2 ^ 20

-- Bytes 8 to 24 of the header, which the checksum covers.
unfoldable pub header_tail : ℕ → ℕ → ℕ → List ℕ
header_tail lsn type len = put_u64 lsn ++ (put_u32 type ++ put_u32 len)

-- The checksum that `FillHeader` stores and returns.
unfoldable pub header_crc : ℕ → ℕ → List ℕ → ℕ
header_crc lsn type payload = crc32c payload (crc32c (header_tail lsn type (length payload)) 0)

-- The 24 bytes that `FillHeader` leaves at `h`.
unfoldable pub fill_header : ℕ → ℕ → List ℕ → List ℕ
fill_header lsn type payload =
    put_u32 record_magic
    ++ (put_u32 (header_crc lsn type payload) ++ header_tail lsn type (length payload))

-- EncodeRecord: `out` with the record at its end.
unfoldable pub encode_record : List ℕ → ℕ → ℕ → List ℕ → List ℕ
encode_record out lsn type payload = out ++ (fill_header lsn type payload ++ payload)

module _ (lsn type : ℕ) where
  pub length-header_tail : (len : ℕ) → length (header_tail lsn type len) ≡ 16
  unfolding header_tail put_u64 put_loop put_u32
  length-header_tail len = refl

  pub length-fill_header : (payload : List ℕ) → length (fill_header lsn type payload) ≡ header_size
  unfolding fill_header header_tail put_u64 put_loop put_u32
  length-fill_header payload = refl

  pub header_tail_bytes : (len : ℕ) → AllLt 256 (header_tail lsn type len)
  unfolding header_tail
  header_tail_bytes len =
      AllLt-append 256 (put_u64 lsn) (put_u32 type ++ put_u32 len) (put_u64_bytes lsn)
        (AllLt-append 256 (put_u32 type) (put_u32 len) (put_u32_bytes type) (put_u32_bytes len))

  header_crc-lt : (payload : List ℕ) → header_crc lsn type payload < 2 ^ 32
  unfolding header_crc
  header_crc-lt payload = crc32c-lt payload (crc32c (header_tail lsn type (length payload)) 0)

  -- The fields that a reader of the header finds in it.
  pub header_fields :
      (payload : List ℕ)
      → lsn < 2 ^ 64
      → type < 2 ^ 32
      → length payload < 2 ^ 32
      → (get_u32 (fill_header lsn type payload) ≡ record_magic)
        × (get_u32 (drop 4 (fill_header lsn type payload)) ≡ header_crc lsn type payload)
        × (get_u64 (drop 8 (fill_header lsn type payload)) ≡ lsn)
        × (get_u32 (drop 16 (fill_header lsn type payload)) ≡ type)
        × (get_u32 (drop 20 (fill_header lsn type payload)) ≡ length payload)
        × (take 16 (drop 8 (fill_header lsn type payload)) ≡ header_tail lsn type (length payload))
  unfolding fill_header header_tail put_u64 put_loop put_u32
  header_fields payload hl ht hn = (
    get_u32-put_u32 record_magic
        (put_u32 (header_crc lsn type payload) ++ header_tail lsn type (length payload))
        (omega arith) (omega arith),
    get_u32-put_u32 (header_crc lsn type payload) (header_tail lsn type (length payload))
        (header_crc-lt payload) (header_tail_bytes (length payload)),
    get_u64-put_u64 lsn (put_u32 type ++ put_u32 (length payload)) hl (omega arith),
    get_u32-put_u32 type (put_u32 (length payload)) ht (put_u32_bytes (length payload)),
    get_u32-put_u32 (length payload) [] hn tt,
    refl,
  )
