-- ===== src/Wal/Tests.antt =====
-- The log's theorems on a log of one record.
use iron_ledger.Common.{
  ℕ, suc, ◌+◌, ◌≡◌, refl, ap, true, some, List, [], ◌∷◌, ◌++◌, length, byte_at, arith,
  byte_at-append,
}
use iron_ledger.Device.{SimDevice, from_image, size, read_at}
use iron_ledger.Crc.{crc32c, crc_loop, crc_step, entry, table}
use iron_ledger.Wal.Codec.{put_u32, put_loop, put_u64, get_u32, get_loop, get_u64}
use iron_ledger.Wal.Record.{encode_record, fill_header, header_tail, header_crc}
use iron_ledger.Wal.Scan.{
  ScanResult, clean_end, bad_lsn, Visitor, break, answer, scan_payload, scan_header, scan_round,
  scan_loop, scan_log,
}
use iron_ledger.Wal.Scan.Run.{Runs, here, step, scan_loop_ends}
use iron_ledger.Wal.Scan.Holds.{Holds, scan_round-Holds, scan_round_misplaced}
use iron_ledger.Wal.Scan.Local.{Agree}

abbrev payload : List ℕ
payload = 10 ∷ 20 ∷ 30 ∷ []

abbrev one_record : ℕ → SimDevice
one_record lsn = from_image (encode_record [] lsn 5 payload)

abbrev count_all : Visitor ℕ
count_all s lsn type bytes = (suc s, true)

whole_record : (lsn : ℕ) → Holds (one_record lsn).volatile 0 (encode_record [] lsn 5 payload)
whole_record lsn = record {
  fits = omega arith;
  same = λ i h. ap (byte_at (encode_record [] lsn 5 payload)) (omega arith);
}

one_record_scan :
    scan_log (one_record 0) true count_all 0
    ≡ (record { valid_bytes = 27; records = 1; stop = clean_end }, 1)
unfolding scan_log scan_loop scan_round scan_header scan_payload encode_record fill_header
    header_tail header_crc put_u32 put_u64 put_loop get_u32 get_u64 get_loop read_at crc32c crc_loop
    crc_step entry table
one_record_scan = refl

scan_round-Holds_example : scan_round (one_record 0) true count_all 0 3 ≡ answer 27 (4, true)
scan_round-Holds_example =
    scan_round-Holds (one_record 0) true count_all 0 5 payload 3 (omega arith) (omega arith)
      (omega arith) (whole_record 0)

scan_round_misplaced_example : scan_round (one_record 77) true count_all 0 3 ≡ break bad_lsn 3
scan_round_misplaced_example =
    scan_round_misplaced (one_record 77) true count_all 0 77 5 payload 3 (omega arith) (omega arith)
      (omega arith) (omega arith) (whole_record 77)

scan_loop_ends_example :
    (res : ScanResult) × (last : ℕ) × (t : ℕ) × (scan_loop
        (one_record 0)
        true
        count_all
        (size (one_record 0) + 1)
        0
        0
        3
      ≡ some (res, t))
    × Runs (one_record 0) true count_all res.valid_bytes res.records last 0 0 3
    × (scan_round (one_record 0) true count_all res.valid_bytes last ≡ break res.stop t)
scan_loop_ends_example =
    scan_loop_ends (one_record 0) true count_all (size (one_record 0) + 1) 0 0 3 (omega arith)
      (omega arith)

one_size : length (encode_record [] 0 5 payload) ≡ 27
unfolding encode_record fill_header header_tail put_u32 put_u64 put_loop
one_size = refl

longer_size : length (encode_record [] 0 5 payload ++ 99 ∷ 98 ∷ []) ≡ 29
unfolding encode_record fill_header header_tail put_u32 put_u64 put_loop
longer_size = refl

abbrev longer : SimDevice
longer = from_image (encode_record [] 0 5 payload ++ 99 ∷ 98 ∷ [])

one_run : Runs (one_record 0) true count_all 27 1 1 0 0 0
one_run =
    step
      (scan_round-Holds (one_record 0) true count_all 0 5 payload 0 (omega arith) (omega arith)
        (omega arith) (whole_record 0))
      here

one_agrees : Agree (one_record 0) longer 27
one_agrees = record {
  left = omega (arith, one_size);
  right = omega (arith, longer_size);
  bytes = λ i h.
      ground (arith, byte_at-append (encode_record [] 0 5 payload) (99 ∷ 98 ∷ []) i, one_size);
}
