-- ===== src/Ledger/Recovery/Replay.antt =====
-- Replay: what the visitor does, and the state that recovery leaves on any image.
use iron_ledger.Common.{
  ℕ, ◌+◌, ◌≡◌, refl, ap, inl, inr, Bool, true, false, ◌||◌, Option, none, some, List, [], ◌==◌,
  arith, Bool-cases,
}
use iron_ledger.Device.{SimDevice, contains}
use iron_ledger.Wal.Scan.Run.{here}
use iron_ledger.Wal.Scan.Visits.{scan_log_keeps}
use iron_ledger.Ledger.Modes.{
  SubmitStatus, ok, duplicate, bad_posting_count, unbalanced, insufficient_funds,
}
use iron_ledger.Ledger.Transfer.{Transfer, IsTyped, encode_transfer, decode_transfer}
use iron_ledger.Ledger.Transfer.RoundTrip.{decode_transfer-encode_transfer}
use iron_ledger.Ledger.Book.{Book, validate, apply, insert_key}
use iron_ledger.Ledger.Book.Deltas.{validate-IsAcceptable}
use iron_ledger.Ledger.Book.Sound.{IsSound, empty_book-IsSound, apply-IsSound}
use iron_ledger.Ledger.Recovery.{
  RecoveryReport, Replay, replay_status, replay_decoded, replay_record, recover, rec_transfer,
}

-- The visitor accepts the encoding of a transfer that `Validate` accepts, and applies it.
pub replay_record-encode_transfer :
    (t : Transfer) (b : Book) (r : RecoveryReport) (lsn : ℕ)
    → IsTyped t
    → validate t b ≡ ok
    → replay_record (b, r) lsn rec_transfer (encode_transfer [] t)
      ≡ ((apply t b, record r { records_applied = r.records_applied + 1 }), true)
unfolding replay_record replay_decoded replay_status
replay_record-encode_transfer t b r lsn typed h =
    let a = validate-IsAcceptable t b h in
    rw (decode_transfer-encode_transfer t typed a.at_least a.at_most, h)

-- A call of the visitor leaves the book as it was, or applies a transfer that `Validate` accepts.
data Visit (b : Book) : Book → Type 0 where
  kept : Visit b b
  applied : (t : Transfer) → validate t b ≡ ok → Visit b (apply t b)

status-Visit :
    (st : SubmitStatus) (t : Transfer) (b : Book) (r : RecoveryReport)
    → validate t b ≡ st
    → Visit b (replay_status st t b r).0.0
unfolding replay_status
status-Visit ok t b r h = applied t h
status-Visit duplicate t b r h = kept
status-Visit bad_posting_count t b r h = kept
status-Visit unbalanced t b r h = kept
status-Visit insufficient_funds t b r h = kept

decoded-Visit :
    (o : Option Transfer) (b : Book) (r : RecoveryReport) → Visit b (replay_decoded o b r).0.0
unfolding replay_decoded
decoded-Visit none b r = kept
decoded-Visit (some t) b r = status-Visit (validate t b) t b r refl

record-Visit :
    (s : Replay) (lsn type : ℕ) (payload : List ℕ)
    → Visit s.0 (replay_record s lsn type payload).0.0
unfolding replay_record
record-Visit (b, r) lsn type payload = elim (Bool-cases (type == rec_transfer)) [
  | inl e ↦ rw e (decoded-Visit (decode_transfer payload) b r)
  | inr e ↦ rw e kept
]

Visit-IsSound : {b c : Book} → Visit b c → IsSound b → IsSound c
Visit-IsSound kept s = s
Visit-IsSound (applied t h) s = apply-IsSound t _ s h

same_key : (k j : ℕ) (ks : List ℕ) → k ≡ j → contains k ks ≡ contains j ks
same_key k j ks e = ap (λ (x : ℕ). contains x ks) e

pub contains-insert_key :
    (k j : ℕ) (ks : List ℕ) → contains k (insert_key j ks) ≡ (k == j || contains k ks)
unfolding insert_key
contains-insert_key k j ks = ground (arith, same_key k j ks)

pub apply_has_key :
    (t : Transfer) (b : Book)
    → (contains t.idem_key (apply t b).seen_keys ≡ true)
      × ((k : ℕ) → contains k b.seen_keys ≡ true → contains k (apply t b).seen_keys ≡ true)
unfolding apply
apply_has_key t b = (
  ground (arith, contains-insert_key t.idem_key t.idem_key b.seen_keys),
  λ k h. ground (arith, contains-insert_key k t.idem_key b.seen_keys),
)

Visit-keeps_key :
    {b c : Book} (k : ℕ) → Visit b c → contains k b.seen_keys ≡ true → contains k c.seen_keys ≡ true
Visit-keeps_key k kept h = h
Visit-keeps_key k (applied t v) h = (apply_has_key t _).1 k h

-- Whatever bytes the device holds, with checksums on or off: in the book that recovery leaves,
-- the accounts ascend, the balances fit an int64_t, their total is zero, and no account but the
-- world's is negative.
pub recover-IsSound :
    (d : SimDevice) (verify_crc : Bool) (report : RecoveryReport)
    → IsSound (recover d verify_crc report).0.0
unfolding recover
recover-IsSound d verify_crc report =
    scan_log_keeps d verify_crc replay_record {P = λ s. IsSound s.0}
      (λ s lsn type payload. Visit-IsSound (record-Visit s lsn type payload)) here
      empty_book-IsSound

-- No call of the visitor forgets a key.
pub replay-keeps_key :
    (k : ℕ) (s : Replay) (lsn type : ℕ) (payload : List ℕ)
    → contains k s.0.seen_keys ≡ true
    → contains k (replay_record s lsn type payload).0.0.seen_keys ≡ true
replay-keeps_key k s lsn type payload h = Visit-keeps_key k (record-Visit s lsn type payload) h

status_refusal :
    (st : SubmitStatus) (t : Transfer) (b : Book) (r : RecoveryReport) (s : Replay)
    → replay_status st t b r ≡ (s, false)
    → s.0 ≡ b
unfolding replay_status
status_refusal ok t b r s e = cc
status_refusal duplicate t b r s e = cc
status_refusal bad_posting_count t b r s e = cc
status_refusal unbalanced t b r s e = cc
status_refusal insufficient_funds t b r s e = cc

decoded_refusal :
    (o : Option Transfer) (b : Book) (r : RecoveryReport) (s : Replay)
    → replay_decoded o b r ≡ (s, false)
    → s.0 ≡ b
unfolding replay_decoded
decoded_refusal none b r s e = cc
decoded_refusal (some t) b r s e = status_refusal (validate t b) t b r s e

-- A call of the visitor that rejects leaves the book alone.
pub replay_record-refusal :
    (s t : Replay) (lsn type : ℕ) (payload : List ℕ)
    → replay_record s lsn type payload ≡ (t, false)
    → t.0 ≡ s.0
unfolding replay_record
replay_record-refusal (b, r) t lsn type payload e =
    ground (arith, decoded_refusal (decode_transfer payload) b r t)
