-- ===== src/Wal/Scan/Visits.antt =====
-- The state of a scan changes only by calls of the visitor.
use iron_ledger.Common.{
  ℕ, ◌+◌, ◌≡◌, ◌⊎◌, inl, inr, sym, subst, ap, Bool, true, false, List, [], ◌==◌, if◌then◌else◌,
  drop, arith,
}
use iron_ledger.Device.{SimDevice, read_at}
use iron_ledger.Wal.Codec.{get_u32}
use iron_ledger.Wal.Record.{header_size}
use iron_ledger.Wal.Scan.{
  ScanStop, Visitor, break, accept, answer, scan_payload, scan_header, scan_round, scan_log,
}
use iron_ledger.Wal.Scan.Run.{answer_accept, Runs, Runs-to_end, Runs-keeps, scan_log_ends}

answer_break :
    {S : Type 0} (end : ℕ) (r : S × Bool) (why : ScanStop) (t : S)
    → answer end r ≡ break why t
    → r ≡ (t, false)
answer_break end (s, true) why t e = cc
answer_break end (s, false) why t e = cc

module _ {S : Type 0} (d : SimDevice) (verify_crc : Bool) (visitor : Visitor S) where
  abbrev payload_at : ℕ → ℕ → List ℕ
  payload_at off len = if len == 0 then [] else read_at (off + header_size) len d

  payload_visits :
      (off len next : ℕ) (hdr : List ℕ) (s t : S)
      → scan_payload d verify_crc visitor off hdr len s ≡ accept next t
      → visitor s off (get_u32 (drop 16 hdr)) (payload_at off len) ≡ (t, true)
  unfolding scan_payload
  payload_visits off len next hdr s t e = ground (
    arith,
    answer_accept (off + 24 + len) next (visitor s off (get_u32 (drop 16 hdr)) (payload_at off len))
        t,
  )

  -- An accepted round is an accepting call of the visitor.
  pub round_visits :
      (off next : ℕ) (s t : S)
      → scan_round d verify_crc visitor off s ≡ accept next t
      → (type : ℕ) × (payload : List ℕ) × (visitor s off type payload ≡ (t, true))
  unfolding scan_round scan_header
  round_visits off next s t e =
      let hdr : List ℕ = read_at off header_size d in
      let len : ℕ = get_u32 (drop 20 hdr) in
      (
        get_u32 (drop 16 hdr),
        payload_at off len,
        ground (arith, payload_visits off len next hdr s t),
      )

  payload_leaves :
      (off len : ℕ) (hdr : List ℕ) (why : ScanStop) (s t : S)
      → scan_payload d verify_crc visitor off hdr len s ≡ break why t
      → (t ≡ s) ⊎ (visitor s off (get_u32 (drop 16 hdr)) (payload_at off len) ≡ (t, false))
  unfolding scan_payload
  payload_leaves off len hdr why s t e = ground (
    arith,
    answer_break (off + 24 + len) (visitor s off (get_u32 (drop 16 hdr)) (payload_at off len)) why
        t,
  )

  -- A round that breaks leaves the state alone, but for a call of the visitor that rejects.
  pub round_leaves :
      (off : ℕ) (why : ScanStop) (s t : S)
      → scan_round d verify_crc visitor off s ≡ break why t
      → (t ≡ s)
        ⊎ (visitor s off
              (get_u32 (drop 16 (read_at off header_size d)))
              (payload_at off (get_u32 (drop 20 (read_at off header_size d))))
            ≡ (t, false))
  unfolding scan_round scan_header
  round_leaves off why s t e =
      let hdr : List ℕ = read_at off header_size d in
      ground (arith, payload_leaves off (get_u32 (drop 20 hdr)) hdr why s t)

  module _ {P : S → Type 0}
      (keep : (s : S) (lsn type : ℕ) (payload : List ℕ)
        → P s
        → P (visitor s lsn type payload).0) where
    round_keeps :
        (off next : ℕ) (s t : S) → P s → scan_round d verify_crc visitor off s ≡ accept next t → P t
    round_keeps off next s t p e =
        let (type, payload, called) = round_visits off next s t e in
        subst P (ap (λ (r : S × Bool). r.0) called) (keep s off type payload p)

    -- What every call of the visitor keeps holds of the state that `ScanLog` leaves, if it holds
    -- where some run from the start has come to.
    pub scan_log_keeps :
        {mid m : ℕ} {u s : S}
        → Runs d verify_crc visitor mid m u 0 0 s
        → P u
        → P (scan_log d verify_crc visitor s).1
    scan_log_keeps {s} r p =
        let (last, whole, stop) = scan_log_ends d verify_crc visitor s in
        let at_last : P last =
          Runs-keeps d verify_crc visitor round_keeps
            (Runs-to_end d verify_crc visitor stop whole r) p in
        elim (round_leaves _ _ last _ stop) [
          | inl same ↦ subst P (sym same) at_last
          | inr called ↦ subst P (ap (λ (r : S × Bool). r.0) called) (keep last _ _ _ at_last)
        ]
