-- ===== src/Wal/Scan/Run.antt =====
-- The rounds of `ScanLog` as a relation, with no count of rounds left, and the end of the loop.
use iron_ledger.Common.{
  ℕ, zero, suc, ◌+◌, ◌≤◌, ◌<◌, ◌≡◌, refl, ◌⊎◌, inl, inr, Bool, true, false, some, List, [], ==_iff,
  arith, ◌==◌, if◌then◌else◌, drop,
}
use mathlib.Core.Path.{subst₂}
use iron_ledger.Device.{SimDevice, read_at, size}
use iron_ledger.Device.Write.{length-read_at}
use iron_ledger.Wal.Record.{header_size}
use iron_ledger.Wal.Codec.{get_u32}
use iron_ledger.Wal.Scan.{
  ScanStop, ScanResult, Visitor, Round, break, accept, answer, scan_payload, scan_header,
  scan_round, scan_loop, scan_log,
}

Round-cases :
    {S : Type 0} (r : Round S)
    → ((why : ScanStop) × (t : S) × (r ≡ break why t))
      ⊎ ((next : ℕ) × (t : S) × (r ≡ accept next t))
Round-cases (break why t) = inl (why, t, refl)
Round-cases (accept next t) = inr (next, t, refl)

pub answer_accept :
    {S : Type 0} (end next : ℕ) (r : S × Bool) (t : S)
    → answer end r ≡ accept next t
    → (end ≡ next) × (r ≡ (t, true))
answer_accept end next (s, true) t e = (cc, cc)
answer_accept end next (s, false) t e = cc

module _ {S : Type 0} (d : SimDevice) (verify_crc : Bool) (visitor : Visitor S) where
  abbrev pub round : ℕ → S → Round S
  round = scan_round d verify_crc visitor

  -- Rounds that accept lead from an offset, count and state to the last of each.
  pub data Runs (off' n' : ℕ) (s' : S) : ℕ → ℕ → S → Type 0 where
    here : Runs off' n' s' off' n' s'
    step :
        {off n next : ℕ} {s t : S}
        → round off s ≡ accept next t
        → Runs off' n' s' next (n + 1) t
        → Runs off' n' s' off n s

  payload_accept :
      (off : ℕ) (hdr : List ℕ) (len next : ℕ) (s t : S)
      → off + 24 ≤ size d
      → scan_payload d verify_crc visitor off hdr len s ≡ accept next t
      → (next ≡ off + 24 + len) × (next ≤ size d)
  unfolding scan_payload
  payload_accept off hdr len next s t room e = ground (
    arith,
    ==_iff len 0,
    length-read_at (off + 24) len d,
    answer_accept (off + 24 + len) next
        (visitor s off (get_u32 (drop 16 hdr)) (if len == 0 then [] else read_at (off + 24) len d))
        t,
  )

  -- An accepted record lies inside the device, and is a header at least.
  pub round_accept :
      (off next : ℕ) (s t : S)
      → round off s ≡ accept next t
      → (off + 24 ≤ next)
        × (next ≤ size d)
        × (next ≡ off + 24 + get_u32 (drop 20 (read_at off header_size d)))
  unfolding scan_round scan_header
  round_accept off next s t e = ground (
    arith,
    length-read_at off header_size d,
    payload_accept off (read_at off header_size d) (get_u32 (drop 20 (read_at off header_size d)))
        next s t,
  )

  -- The end of the loop is behind its start, and inside the device if any record was accepted.
  pub Runs-le :
      {off' n' : ℕ} {s' : S} {off n : ℕ} {s : S}
      → Runs off' n' s' off n s
      → (off ≤ off') × (off ≤ size d → off' ≤ size d)
  Runs-le here = omega arith
  Runs-le (step {off} {next} {s} {t} e r) =
      let inside = round_accept off next s t e in
      (omega (arith, (Runs-le r).0), λ _. (Runs-le r).1 inside.1)

  -- Where the loop broke off is where every run from its start leads.
  pub Runs-to_end :
      {end n' mid m : ℕ} {s' u : S} {off n : ℕ} {s t : S} {why : ScanStop}
      → round end s' ≡ break why t
      → Runs end n' s' off n s
      → Runs mid m u off n s
      → Runs end n' s' mid m u
  Runs-to_end stop whole here = whole
  Runs-to_end stop here (step e r) = cc
  Runs-to_end {mid} {m} {u} {n} stop (step {next} {t} e r) (step {next = next'} {t = t'} e' r') =
      let p : next' ≡ next = cc in
      let q : t' ≡ t = cc in Runs-to_end stop r (subst₂ (λ o x. Runs mid m u o (n + 1) x) p q r')

  -- A property of states that accepted records keep holds at the end of a run.
  pub Runs-keeps :
      {P : S → Type 0} {off' n' : ℕ} {s' : S} {off n : ℕ} {s : S}
      → ((off : ℕ) (next : ℕ) (s t : S) → P s → round off s ≡ accept next t → P t)
      → Runs off' n' s' off n s
      → P s
      → P s'
  Runs-keeps keep here p = p
  Runs-keeps keep (step {off} {next} {s} {t} e r) p = Runs-keeps keep r (keep off next s t p e)

  pub Runs-trans :
      {b c j k : ℕ} {t u : S} {a i : ℕ} {s : S}
      → Runs b j t a i s
      → Runs c k u b j t
      → Runs c k u a i s
  Runs-trans here q = q
  Runs-trans (step e r) q = step e (Runs-trans r q)

  -- From an offset in the device, with one round more than there are bytes left, the loop of
  -- ScanLog returns: accepted rounds lead from the offset to the valid_bytes and the records of
  -- its result, and the next round breaks with its stop.
  pub scan_loop_ends :
      (fuel off n : ℕ) (s : S)
      → off ≤ size d
      → size d < off + fuel
      → (res : ScanResult) × (last : S) × (t : S) × (scan_loop d verify_crc visitor fuel off n s
          ≡ some (res, t))
        × Runs res.valid_bytes res.records last off n s
        × (round res.valid_bytes last ≡ break res.stop t)
  unfolding scan_loop
  scan_loop_ends zero off n s h k = absurd (omega arith)
  scan_loop_ends (suc fuel) off n s h k = elim (Round-cases (round off s)) [
    | inl (why, t, e) ↦
        (record { valid_bytes = off; records = n; stop = why }, s, t, rw (e, scan_loop), here, e)
    | inr (next, t, e) ↦
        let inside = round_accept off next s t e in
        let (res, last, u, done, run, stop) =
          scan_loop_ends fuel next (n + 1) t (omega arith) (omega arith) in
        (res, last, u, rw (e, scan_loop) done, step e run, stop)
  ]

  -- `ScanLog` returns: its result is where the accepted rounds from the start of the device lead,
  -- and the reason is why the next round breaks.
  pub scan_log_ends :
      (s : S)
      → (last : S) × Runs
          (scan_log d verify_crc visitor s).0.valid_bytes
          (scan_log d verify_crc visitor s).0.records
          last
          0
          0
          s
        × (round (scan_log d verify_crc visitor s).0.valid_bytes last
            ≡ break (scan_log d verify_crc visitor s).0.stop (scan_log d verify_crc visitor s).1)
  unfolding scan_log
  scan_log_ends s =
      let (res, last, t, done, run, stop) =
        scan_loop_ends (size d + 1) 0 0 s (omega arith) (omega arith) in
      (last, rw done run, rw done stop)
