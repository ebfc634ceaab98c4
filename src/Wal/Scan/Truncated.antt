-- ===== src/Wal/Scan/Truncated.antt =====
-- Where the device ends inside a record, and what `ScanLog` returns for a run that is known.
use iron_ledger.Common.{
  le_or_lt, ℕ, ◌+◌, ◌-◌, ◌^◌, ◌≤◌, ◌<◌, ◌≡◌, refl, inl, inr, sym, ◌∙◌, ap, ap₂, Bool, List, [],
  length, byte_at, arith, ◌==◌, eq→==, le→ltb, if◌then◌else◌, byte_at-append, length-append,
}
use iron_ledger.Device.{SimDevice, size}
use iron_ledger.Device.Write.{length-read_at}
use iron_ledger.Wal.Record.{
  header_size, max_payload_size, fill_header, encode_record, length-fill_header, header_fields,
}
use iron_ledger.Wal.Scan.{
  ScanStop, ScanResult, Visitor, break, clean_end, short_read, scan_payload, scan_header,
  scan_round, scan_log,
}
use iron_ledger.Wal.Scan.Run.{Runs, here, step, Runs-to_end, scan_log_ends}
use iron_ledger.Wal.Scan.Holds.{Holds, header_read}

-- The reason for the end of a scan that finds so many bytes of a record.
abbrev pub stop_at : ℕ → ScanStop
stop_at n = if n == 0 then clean_end else short_read

-- The device ends behind the offset `off`, inside the bytes `bs`.
pub record EndsIn (image : List ℕ) (off : ℕ) (bs : List ℕ) : Type 0 where
  pub starts : off ≤ length image
  pub inside : length image < off + length bs
  pub same : (i : ℕ) → off + i < length image → byte_at image (off + i) ≡ byte_at bs i

module _ {S : Type 0} (d : SimDevice) (verify_crc : Bool) (visitor : Visitor S) where
  short_payload :
      (off len : ℕ) (hdr : List ℕ) (s : S)
      → off + 24 ≤ size d
      → size d < off + 24 + len
      → scan_payload d verify_crc visitor off hdr len s ≡ break short_read s
  unfolding scan_payload
  short_payload off len hdr s h k = ground (arith, length-read_at (off + 24) len d)

  header_is_short :
      (off : ℕ) (s : S)
      → size d < off + 24
      → scan_round d verify_crc visitor off s ≡ break (stop_at (size d - off)) s
  unfolding scan_round
  header_is_short off s h = ground (arith, length-read_at off header_size d)

  header_is_whole :
      (off type : ℕ) (payload : List ℕ)
      → off + 24 ≤ size d
      → EndsIn d.volatile off (encode_record [] off type payload)
      → (size d < off + 24 + length payload) × Holds d.volatile off (fill_header off type payload)
  unfolding encode_record
  header_is_whole off type payload room h =
      let whole = length-fill_header off type payload in
      (
        omega (arith, h.inside, length-append (fill_header off type payload) payload),
        record {
          fits = omega arith;
          same = λ i p.
              ground (arith, h.same i, byte_at-append (fill_header off type payload) payload i);
        },
      )

  payload_is_short :
      (off type : ℕ) (payload : List ℕ) (s : S)
      → off < 2 ^ 64
      → type < 2 ^ 32
      → length payload ≤ max_payload_size
      → off + 24 ≤ size d
      → (size d < off + 24 + length payload) × Holds d.volatile off (fill_header off type payload)
      → scan_round d verify_crc visitor off s ≡ break short_read s
  unfolding scan_round scan_header
  payload_is_short off type payload s hl ht hn room (lacks, h) =
      let fields = header_fields off type payload hl ht (omega arith) in
      rw
        (
          header_read d off off type payload h,
          length-fill_header off type payload,
          fields.0,
          fields.2,
          fields.4,
        )
        (rw (le→ltb max_payload_size (length payload) hn, eq→== off off refl)
          (short_payload off (length payload) (fill_header off type payload) s room lacks))

  stop_at_short : (n : ℕ) → 1 ≤ n → stop_at n ≡ short_read
  stop_at_short n h = ground arith

  -- The round breaks and leaves the state alone, whatever part of the record is there.
  pub scan_round-EndsIn :
      (off type : ℕ) (payload : List ℕ) (s : S)
      → off < 2 ^ 64
      → type < 2 ^ 32
      → length payload ≤ max_payload_size
      → EndsIn d.volatile off (encode_record [] off type payload)
      → scan_round d verify_crc visitor off s ≡ break (stop_at (size d - off)) s
  scan_round-EndsIn off type payload s hl ht hn h = elim (le_or_lt (off + 24) (size d)) [
    | inl room ↦
        payload_is_short off type payload s hl ht hn room (header_is_whole off type payload room h)
        ∙ ap (λ why. break why s) (sym (stop_at_short (size d - off) (omega arith)))
    | inr short ↦ header_is_short off s short
  ]

  -- A round at the end of the device.
  pub scan_round_at_end :
      (off : ℕ) (s : S) → off ≡ size d → scan_round d verify_crc visitor off s ≡ break clean_end s
  unfolding scan_round
  scan_round_at_end off s h = ground (arith, length-read_at off header_size d)

  stuck :
      {end n' mid m : ℕ} {s' u t : S} {why : ScanStop}
      → scan_round d verify_crc visitor mid u ≡ break why t
      → Runs d verify_crc visitor end n' s' mid m u
      → (end ≡ mid) × (n' ≡ m) × (s' ≡ u)
  stuck stop here = (refl, refl, refl)
  stuck stop (step e r) = cc

  scan_result :
      (r : ScanResult × S) (off n : ℕ) (end last t : S) (why : ScanStop)
      → r.0.valid_bytes ≡ off
      → r.0.records ≡ n
      → end ≡ last
      → scan_round d verify_crc visitor r.0.valid_bytes end ≡ break r.0.stop r.1
      → scan_round d verify_crc visitor off last ≡ break why t
      → r ≡ (record { valid_bytes = off; records = n; stop = why }, t)
  scan_result (res, u) off n end last t why p q e ends stop =
      let both = ap₂ (scan_round d verify_crc visitor) p e in
      let same : break res.stop u ≡ break why t = sym ends ∙ both ∙ stop in
      let a : res.stop ≡ why = cc in let b : u ≡ t = cc in rw (sym p, sym q, sym a, sym b) refl

  -- A run that leads to a round that breaks is the whole scan.
  pub scan_log-Runs :
      (off n : ℕ) (s last t : S) (why : ScanStop)
      → Runs d verify_crc visitor off n last 0 0 s
      → scan_round d verify_crc visitor off last ≡ break why t
      → scan_log d verify_crc visitor s ≡ (record { valid_bytes = off; records = n; stop = why }, t)
  scan_log-Runs off n s last t why run stop =
      let (end, whole, ends) = scan_log_ends d verify_crc visitor s in
      let same = stuck stop (Runs-to_end d verify_crc visitor ends whole run) in
      scan_result (scan_log d verify_crc visitor s) off n end last t why same.0 same.1 same.2 ends
        stop
