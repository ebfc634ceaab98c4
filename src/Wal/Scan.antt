-- ===== src/Wal/Scan.antt =====
-- `ScanLog`. The visitor is a function of a state that it may change, whether it accepts or not.
pub mod Run
pub mod Holds
pub mod Local
pub mod Truncated
pub mod Visits
use Prim.Native.String.{String}
use iron_ledger.Common.{
  ℕ, zero, suc, ◌+◌, Bool, true, false, ◌&&◌, not, Option, none, some, List, [], ◌∷◌, ltb, ◌==◌,
  if◌then◌else◌, length, take, drop,
}
use iron_ledger.Crc.{crc32c}
use iron_ledger.Device.{SimDevice, read_at, size}
use iron_ledger.Wal.Codec.{get_u32, get_u64}
use iron_ledger.Wal.Record.{record_magic, header_size, max_payload_size}

pub data ScanStop : Type 0 where
  clean_end short_read bad_magic bad_lsn bad_length bad_crc bad_payload : ScanStop

-- ScanStopName
pub scan_stop_name : ScanStop → String
scan_stop_name clean_end = "clean_end"
scan_stop_name short_read = "short_read"
scan_stop_name bad_magic = "bad_magic"
scan_stop_name bad_lsn = "bad_lsn"
scan_stop_name bad_length = "bad_length"
scan_stop_name bad_crc = "bad_crc"
scan_stop_name bad_payload = "bad_payload"

pub record ScanResult : Type 0 where
  pub valid_bytes : ℕ
  pub records : ℕ
  pub stop : ScanStop

-- RecordVisitor: lsn, type and payload to the new state and the answer.
abbrev pub Visitor : Type 0 → Type 0
Visitor S = S → ℕ → ℕ → List ℕ → S × Bool

-- One round of the loop breaks with a reason, or accepts a record and goes on at an offset.
pub data Round (S : Type 0) : Type 0 where
  break : ScanStop → S → Round S
  accept : ℕ → S → Round S

module _ {S : Type 0} where
  -- The end of a round: the visitor is asked, and `off` moves behind the record.
  abbrev pub answer : ℕ → S × Bool → Round S
  answer next (s, true) = accept next s
  answer next (s, false) = break bad_payload s

  abbrev pub or_else : Option (ScanResult × S) → S → ScanResult × S
  or_else (some r) s = r
  or_else none s = (record { valid_bytes = 0; records = 0; stop = clean_end }, s)

module _ {S : Type 0} (d : SimDevice) (verify_crc : Bool) (visitor : Visitor S) where
  -- From the read of the payload on.
  unfoldable pub scan_payload : ℕ → List ℕ → ℕ → S → Round S
  scan_payload off hdr len s =
      let payload = if len == 0 then [] else read_at (off + header_size) len d in
      let want = crc32c payload (crc32c (take 16 (drop 8 hdr)) 0) in
      if ltb (length payload) len
      then break short_read s
      else if verify_crc && not (want == get_u32 (drop 4 hdr))
      then break bad_crc s
      else answer (off + header_size + len) (visitor s off (get_u32 (drop 16 hdr)) payload)

  -- The tests on a whole header.
  unfoldable pub scan_header : ℕ → List ℕ → S → Round S
  scan_header off hdr s =
      let len = get_u32 (drop 20 hdr) in
      if not (get_u32 hdr == record_magic)
      then break bad_magic s
      else if not (get_u64 (drop 8 hdr) == off)
      then break bad_lsn s
      else if ltb max_payload_size len
      then break bad_length s
      else scan_payload off hdr len s

  -- The body of the loop.
  unfoldable pub scan_round : ℕ → S → Round S
  scan_round off s =
      let hdr = read_at off header_size d in
      if length hdr == 0
      then break clean_end s
      else if ltb (length hdr) header_size
      then break short_read s
      else scan_header off hdr s

  -- The loop, with the count of rounds that may still be made; `none` if they run out.
  unfoldable pub scan_loop : ℕ → ℕ → ℕ → S → Option (ScanResult × S)
  scan_loop zero off records s = none
  scan_loop (suc fuel) off records s = elim (scan_round off s) [
    | break why s' ↦ some (record { valid_bytes = off; records = records; stop = why }, s')
    | accept next s' ↦ scan_loop fuel next (records + 1) s'
  ]

  -- ScanLog. Every accepted record moves `off` by a header at least, so that a round for each byte
  -- of the device, and one more, are enough: the other answer of `or_else` is never taken.
  unfoldable pub scan_log : S → ScanResult × S
  scan_log s = or_else (scan_loop (size d + 1) 0 0 s) s
