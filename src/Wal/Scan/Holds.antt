-- ===== src/Wal/Scan/Holds.antt =====
-- A record that the device holds at its own offset, in a round of `ScanLog`.
use iron_ledger.Common.{
  ℕ, ◌+◌, ◌^◌, ◌≤◌, ◌<◌, ◌≡◌, ◌≢◌, refl, ◌∙◌, ap, Bool, List, [], ◌∷◌, ◌++◌, length, take, drop,
  byte_at, arith, ◌==◌, eq→==, le→ltb, subst, if◌then◌else◌, byte_at_ext, byte_at-append,
  byte_at-append_right, length-append,
}
use native.Mathlib.Nat.{add_assoc}
use iron_ledger.Crc.{crc32c}
use iron_ledger.Device.{SimDevice, read_at}
use iron_ledger.Device.Write.{length-read_at, byte_at-read_at}
use iron_ledger.Wal.Codec.{get_u32}
use iron_ledger.Wal.Record.{
  header_size, max_payload_size, header_crc, fill_header, encode_record, length-fill_header,
  header_fields,
}
use iron_ledger.Wal.Scan.{Visitor, break, answer, bad_lsn, scan_payload, scan_header, scan_round}

-- The bytes `bs` stand in the image from `off` on.
pub record Holds (image : List ℕ) (off : ℕ) (bs : List ℕ) : Type 0 where
  pub fits : off + length bs ≤ length image
  pub same : (i : ℕ) → i < length bs → byte_at image (off + i) ≡ byte_at bs i

pub Holds-append_left :
    {image : List ℕ} {off : ℕ} (xs ys : List ℕ) → Holds image off (xs ++ ys) → Holds image off xs
Holds-append_left {image} {off} xs ys h = record {
  fits = omega (arith, h.fits, length-append xs ys);
  same = λ i k. ground (arith, h.same i, length-append xs ys, byte_at-append xs ys i);
}

pub Holds-append_right :
    {image : List ℕ} {off : ℕ} (xs ys : List ℕ)
    → Holds image off (xs ++ ys)
    → Holds image (off + length xs) ys
Holds-append_right {image} {off} xs ys h = record {
  fits = omega (arith, h.fits, length-append xs ys);
  same = λ i k.
      ap (byte_at image) (add_assoc off (length xs) i)
      ∙ h.same (length xs + i) (omega (arith, length-append xs ys))
      ∙ byte_at-append_right xs ys i;
}

pub read_at-Holds :
    (d : SimDevice) (off : ℕ) (bs : List ℕ)
    → Holds d.volatile off bs
    → read_at off (length bs) d ≡ bs
read_at-Holds d off bs h =
    byte_at_ext (read_at off (length bs) d) bs
      (omega (arith, length-read_at off (length bs) d, h.fits))
      (λ i k.
        byte_at-read_at off (length bs) d i (omega (arith, length-read_at off (length bs) d))
          (omega (arith, length-read_at off (length bs) d))
        ∙ h.same i (omega (arith, length-read_at off (length bs) d)))

pub record_parts :
    (image : List ℕ) (off lsn type : ℕ) (payload : List ℕ)
    → Holds image off (encode_record [] lsn type payload)
    → Holds image off (fill_header lsn type payload) × Holds image (off + 24) payload
unfolding encode_record
record_parts image off lsn type payload h = (
  Holds-append_left (fill_header lsn type payload) payload h,
  subst (λ n. Holds image (off + n) payload) (length-fill_header lsn type payload)
      (Holds-append_right (fill_header lsn type payload) payload h),
)

pub header_read :
    (d : SimDevice) (off lsn type : ℕ) (payload : List ℕ)
    → Holds d.volatile off (fill_header lsn type payload)
    → read_at off header_size d ≡ fill_header lsn type payload
header_read d off lsn type payload h =
    subst (λ n. read_at off n d ≡ fill_header lsn type payload)
      (length-fill_header lsn type payload) (read_at-Holds d off (fill_header lsn type payload) h)

payload_read :
    (d : SimDevice) (off : ℕ) (payload : List ℕ)
    → Holds d.volatile off payload
    → (if length payload == 0 then [] else read_at off (length payload) d) ≡ payload
payload_read d off [] h = refl
payload_read d off (b ∷ bs) h = ground (arith, read_at-Holds d off (b ∷ bs) h)

module _ {S : Type 0} (d : SimDevice) (verify_crc : Bool) (visitor : Visitor S) where
  payload_round :
      (off type : ℕ) (payload hdr : List ℕ) (s : S)
      → Holds d.volatile (off + 24) payload
      → crc32c payload (crc32c (take 16 (drop 8 hdr)) 0) ≡ get_u32 (drop 4 hdr)
      → get_u32 (drop 16 hdr) ≡ type
      → scan_payload d verify_crc visitor off hdr (length payload) s
        ≡ answer (off + header_size + length payload) (visitor s off type payload)
  unfolding scan_payload
  payload_round off type payload hdr s h crc_eq type_eq =
      rw (payload_read d (off + 24) payload h, type_eq) (ground arith)

  -- Where the device holds at an offset below 2 ^ 64 the record that EncodeRecord writes for that
  -- offset as lsn, with a type below 2 ^ 32 and a payload of at most 2 ^ 20 bytes, the round of
  -- ScanLog at the offset passes every test, with checksums on or off, and the visitor decides
  -- with the record's type and payload.
  pub scan_round-Holds :
      (off type : ℕ) (payload : List ℕ) (s : S)
      → off < 2 ^ 64
      → type < 2 ^ 32
      → length payload ≤ max_payload_size
      → Holds d.volatile off (encode_record [] off type payload)
      → scan_round d verify_crc visitor off s
        ≡ answer (off + header_size + length payload) (visitor s off type payload)
  unfolding scan_round scan_header header_crc
  scan_round-Holds off type payload s hl ht hn h =
      let parts = record_parts d.volatile off off type payload h in
      let fields = header_fields off type payload hl ht (omega arith) in
      rw
        (
          header_read d off off type payload parts.0,
          length-fill_header off type payload,
          fields.0,
          fields.2,
          fields.4,
        )
        (rw (le→ltb max_payload_size (length payload) hn, eq→== off off refl)
          (payload_round off type payload (fill_header off type payload) s parts.1
            (rw (fields.5, fields.1)) fields.3))

  -- Where the device holds at an offset a record whose lsn, below 2 ^ 64, is another one, with a
  -- type below 2 ^ 32 and a payload of at most 2 ^ 20 bytes, the round of ScanLog there ends the
  -- scan with bad_lsn and leaves the state alone, checksums on or off.
  pub scan_round_misplaced :
      (off lsn type : ℕ) (payload : List ℕ) (s : S)
      → lsn < 2 ^ 64
      → type < 2 ^ 32
      → length payload ≤ max_payload_size
      → off ≢ lsn
      → Holds d.volatile off (encode_record [] lsn type payload)
      → scan_round d verify_crc visitor off s ≡ break bad_lsn s
  unfolding scan_round scan_header
  scan_round_misplaced off lsn type payload s hl ht hn ne h =
      let parts = record_parts d.volatile off lsn type payload h in
      let fields = header_fields lsn type payload hl ht (omega arith) in
      rw
        (
          header_read d off lsn type payload parts.0,
          length-fill_header lsn type payload,
          fields.0,
          fields.2,
          fields.4,
        )
        (ground arith)
