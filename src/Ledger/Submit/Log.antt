-- ===== src/Ledger/Submit/Log.antt =====
-- The log of a list of transfers, and its replay.
use mathlib.Core.List.{append_assoc, append-nil}
use iron_ledger.Common.{
  ℕ, ◌+◌, ◌*◌, ◌^◌, ◌<◌, ◌≡◌, refl, sym, ◌∙◌, ap, Bool, List, [], ◌∷◌, ◌++◌, length, arith,
  length-append,
}
use native.Mathlib.Nat.{add_assoc}
use iron_ledger.Device.{from_image}
use iron_ledger.Wal.Record.{encode_record, fill_header, length-fill_header, header_size}
use iron_ledger.Wal.Scan.{accept, scan_round}
use iron_ledger.Wal.Scan.Run.{Runs, here, step, Runs-trans}
use iron_ledger.Wal.Scan.Holds.{Holds, Holds-append_left, Holds-append_right, scan_round-Holds}
use iron_ledger.Ledger.Modes.{ok}
use iron_ledger.Ledger.Transfer.{Transfer, IsTyped, encode_transfer}
use iron_ledger.Ledger.Transfer.RoundTrip.{encode_transfer_lem, length-transfer_bytes}
use iron_ledger.Ledger.Book.{Book, empty_book, validate, apply}
use iron_ledger.Ledger.Book.Deltas.{validate-IsAcceptable}
use iron_ledger.Ledger.Recovery.{RecoveryReport, rec_transfer, replay_record, empty_report}
use iron_ledger.Ledger.Recovery.Replay.{replay_record-encode_transfer}

-- The record of a transfer at an offset.
abbrev pub log_record : ℕ → Transfer → List ℕ
log_record off t = encode_record [] off rec_transfer (encode_transfer [] t)

unfoldable pub log_bytes : ℕ → List Transfer → List ℕ
log_bytes off [] = []
log_bytes off (t ∷ ts) = log_record off t ++ log_bytes (off + length (log_record off t)) ts

abbrev pub replay : List Transfer → Book → Book
replay [] b = b
replay (t ∷ ts) b = replay ts (apply t b)

-- Each transfer is accepted in the state that those before it lead to.
abbrev pub AllValid : List Transfer → Book → Type 0
AllValid [] b = Unit
AllValid (t ∷ ts) b = IsTyped t × (validate t b ≡ ok) × AllValid ts (apply t b)

pub length-log_record :
    (off : ℕ) (t : Transfer)
    → length (log_record off t) ≡ header_size + length (encode_transfer [] t)
unfolding encode_record
length-log_record off t =
    length-append (fill_header off rec_transfer (encode_transfer [] t)) (encode_transfer [] t)
    ∙ rw (length-fill_header off rec_transfer (encode_transfer [] t))

pub length-encode_transfer :
    (t : Transfer) → length (encode_transfer [] t) ≡ 12 + 16 * length t.postings
length-encode_transfer t = rw (encode_transfer_lem [] t) (length-transfer_bytes t)

pub log_bytes-snoc :
    (off : ℕ) (ts : List Transfer) (t : Transfer)
    → log_bytes off (ts ++ t ∷ [])
      ≡ log_bytes off ts ++ log_record (off + length (log_bytes off ts)) t
unfolding log_bytes
log_bytes-snoc off [] t =
    let e : off + 0 ≡ off = omega arith in rw e (append-nil (log_record off t))
log_bytes-snoc off (u ∷ ts) t =
    let next : ℕ = off + length (log_record off u) in
    rw
      (
        log_bytes-snoc next ts t,
        length-append (log_record off u) (log_bytes next ts),
        ← add_assoc off (length (log_record off u)) (length (log_bytes next ts)),
      )
      (sym (
        append_assoc (log_record off u) (log_bytes next ts)
          (log_record (next + length (log_bytes next ts)) t)))

pub replay-snoc :
    (ts : List Transfer) (t : Transfer) (b : Book) → replay (ts ++ t ∷ []) b ≡ apply t (replay ts b)
replay-snoc [] t b = refl
replay-snoc (u ∷ ts) t b = replay-snoc ts t (apply u b)

pub AllValid-snoc :
    (ts : List Transfer) (t : Transfer) (b : Book)
    → AllValid ts b
    → IsTyped t
    → validate t (replay ts b) ≡ ok
    → AllValid (ts ++ t ∷ []) b
AllValid-snoc [] t b h typed v = (typed, v, tt)
AllValid-snoc (u ∷ ts) t b h typed v = (h.0, h.1, AllValid-snoc ts t (apply u b) h.2 typed v)

-- Accepted records of the image lead from its start to the offset, and their replay to the book.
pub record Recovers (image : List ℕ) (verify_crc : Bool) (off : ℕ) (b : Book) : Type 0 where
  pub count : ℕ
  pub report : RecoveryReport
  pub run :
      Runs
        (from_image image)
        verify_crc
        replay_record
        off
        count
        (b, report)
        0
        0
        (empty_book, empty_report)

record_accepted :
    (image : List ℕ) (verify_crc : Bool) (off : ℕ) (t : Transfer) (b : Book) (r : RecoveryReport)
    → IsTyped t
    → validate t b ≡ ok
    → off < 2 ^ 64
    → Holds image off (log_record off t)
    → scan_round (from_image image) verify_crc replay_record off (b, r)
      ≡ accept
          (off + length (log_record off t))
          (apply t b, record r { records_applied = r.records_applied + 1 })
record_accepted image verify_crc off t b r typed v fits h =
    let a = validate-IsAcceptable t b v in
    scan_round-Holds (from_image image) verify_crc replay_record off rec_transfer
      (encode_transfer [] t) (b, r) fits (omega arith)
      (omega (arith, length-encode_transfer t, a.at_most)) h
    ∙ rw (
      replay_record-encode_transfer t b r off typed v,
      length-log_record off t,
      add_assoc off header_size (length (encode_transfer [] t)),
    )

-- A report after so many more accepted records.
abbrev pub applied_more : RecoveryReport → ℕ → RecoveryReport
applied_more r n = record r { records_applied = r.records_applied + n }

-- The rounds of a scan over the log of accepted transfers.
pub log_bytes-Runs :
    (image : List ℕ) (verify_crc : Bool) (ts : List Transfer) (off n : ℕ) (b : Book)
    (r : RecoveryReport)
    → AllValid ts b
    → off + length (log_bytes off ts) < 2 ^ 64
    → Holds image off (log_bytes off ts)
    → Runs
        (from_image image)
        verify_crc
        replay_record
        (off + length (log_bytes off ts))
        (n + length ts)
        (replay ts b, applied_more r (length ts))
        off
        n
        (b, r)
unfolding log_bytes
log_bytes-Runs image v [] off n b r valid fits h =
    let e : off + 0 ≡ off = omega arith in
    let c : n + 0 ≡ n = omega arith in
    let a : r.records_applied + 0 ≡ r.records_applied = omega arith in rw (e, c, a) here
log_bytes-Runs image v (t ∷ ts) off n b r valid fits h =
    let one : List ℕ = log_record off t in
    let next : ℕ = off + length one in
    let rest : List ℕ = log_bytes next ts in
    let sizes : off + length (one ++ rest) ≡ next + length rest =
      omega (arith, length-append one rest) in
    let counts : n + length (t ∷ ts) ≡ n + 1 + length ts = omega arith in
    let reports : r.records_applied + length (t ∷ ts) ≡ r.records_applied + 1 + length ts =
      omega arith in
    rw (sizes, counts, reports)
      (step
        (record_accepted image v off t b r valid.0 valid.1 (omega (arith, fits))
          (Holds-append_left one rest h))
        (log_bytes-Runs image v ts next (n + 1) (apply t b) (applied_more r 1) valid.2
          (rw sizes at fits) (Holds-append_right one rest h)))

-- If recovery of an image reaches an offset with a book, and the image holds at that offset the
-- records of transfers that Validate accepts one after the other from that book, with integers in
-- the range of their C++ types, and these end below 2 ^ 64, then recovery reaches the end of the
-- records with the book that applying the transfers gives, with checksums on or off.
pub Recovers-log_bytes :
    (image : List ℕ) (verify_crc : Bool) (ts : List Transfer) (off : ℕ) (b : Book)
    → Recovers image verify_crc off b
    → AllValid ts b
    → off + length (log_bytes off ts) < 2 ^ 64
    → Holds image off (log_bytes off ts)
    → Recovers image verify_crc (off + length (log_bytes off ts)) (replay ts b)
Recovers-log_bytes image v ts off b r valid fits h = record {
  count = r.count + length ts;
  report = applied_more r.report (length ts);
  run =
      Runs-trans (from_image image) v replay_record r.run
        (log_bytes-Runs image v ts off r.count b r.report valid fits h);
}

-- A record has at least its header, so an empty log has no record.
pub log_bytes_empty : (off : ℕ) (ts : List Transfer) → log_bytes off ts ≡ [] → ts ≡ []
unfolding log_bytes
log_bytes_empty off [] e = refl
log_bytes_empty off (t ∷ ts) e =
    let next = off + length (log_record off t) in
    absurd (
      omega (
        arith,
        ap length e,
        length-append (log_record off t) (log_bytes next ts),
        length-log_record off t,
      ))

pub log_bytes-nil : (off : ℕ) → log_bytes off [] ≡ []
unfolding log_bytes
log_bytes-nil off = refl
