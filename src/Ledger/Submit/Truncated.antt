-- ===== src/Ledger/Submit/Truncated.antt =====
-- What recovery finds in a log that is cut off anywhere.
use mathlib.Core.List.{append_assoc}
use iron_ledger.Common.{
  ℕ, ◌+◌, ◌^◌, ◌<◌, ◌≡◌, refl, sym, ◌∙◌, ap, subst, Bool, List, [], ◌∷◌, ◌++◌, length, take,
  byte_at, arith, length-append, byte_at-append, byte_at-append_right, byte_at-take,
}
use iron_ledger.Device.{from_image}
use iron_ledger.Wal.Scan.{break, scan_round}
use iron_ledger.Wal.Scan.Holds.{Holds}
use iron_ledger.Wal.Scan.Truncated.{
  stop_at, EndsIn, scan_round-EndsIn, scan_round_at_end, scan_log-Runs,
}
use iron_ledger.Ledger.Transfer.{Transfer, encode_transfer}
use iron_ledger.Ledger.Book.{empty_book}
use iron_ledger.Ledger.Book.Deltas.{validate-IsAcceptable}
use iron_ledger.Ledger.Recovery.{Replay, rec_transfer, recover, replay_record, empty_report}
use iron_ledger.Ledger.Submit.Pieces.{
  AllValid-append, Begins, IsCut, take-IsCut, log_joined, log_joined_le,
}
use iron_ledger.Ledger.Submit.Log.{
  log_record, log_bytes, length-encode_transfer, replay, AllValid, log_bytes-Runs,
}

-- What recovery returns for whole records and a beginning of the next one.
abbrev pub recovered : List Transfer → List ℕ → Replay × ℕ
recovered whole part = (
  (
    replay whole empty_book,
    record empty_report {
      records_applied = length whole;
      stop = stop_at (length part);
      valid_bytes = length (log_bytes 0 whole);
    },
  ),
  length (log_bytes 0 whole),
)

part_EndsIn :
    (xs one part : List ℕ)
    → length part < length one
    → part ≡ take (length part) one
    → EndsIn (xs ++ part) (length xs) one
part_EndsIn xs one part short e = record {
  starts = omega (arith, length-append xs part);
  inside = omega (arith, length-append xs part);
  same = λ i h.
      let near : i < length part = omega (arith, length-append xs part) in
      byte_at-append_right xs part i
      ∙ ap (λ (bs : List ℕ). byte_at bs i) e
      ∙ ground (arith, byte_at-take (length part) one i);
}

round_at_part :
    (v : Bool) (whole rest : List Transfer) (part : List ℕ) (s : Replay)
    → AllValid rest (replay whole empty_book)
    → length (log_bytes 0 whole) < 2 ^ 64
    → Begins (length (log_bytes 0 whole)) rest part
    → scan_round
        (from_image (log_bytes 0 whole ++ part))
        v
        replay_record
        (length (log_bytes 0 whole))
        s
      ≡ break (stop_at (length part)) s
round_at_part v whole [] part s valid fits b =
    let xs = log_bytes 0 whole in
    scan_round_at_end (from_image (xs ++ part)) v replay_record (length xs) s
      (omega (arith, length-append xs part, ap length b))
    ∙ ap (λ (bs : List ℕ). break (stop_at (length bs)) s) (sym b)
round_at_part v whole (t ∷ ts) part s valid fits b =
    let xs = log_bytes 0 whole in
    let a = validate-IsAcceptable t (replay whole empty_book) valid.1 in
    scan_round-EndsIn (from_image (xs ++ part)) v replay_record (length xs) rec_transfer
      (encode_transfer [] t) s fits (omega arith)
      (omega (arith, length-encode_transfer t, a.at_most))
      (part_EndsIn xs (log_record (length xs) t) part b.0 b.1)
    ∙ ap (λ (n : ℕ). break (stop_at n) s) (omega (arith, length-append xs part))

Holds-front : (xs ys : List ℕ) → Holds (xs ++ ys) 0 xs
Holds-front xs ys = record {
  fits = omega (arith, length-append xs ys);
  same = λ i h.
      let at : 0 + i ≡ i = omega arith in
      ap (byte_at (xs ++ ys)) at ∙ ground (arith, byte_at-append xs ys i);
}

-- Recovery of whole records and a beginning of the next one, with checksums on or off.
pub recover-part :
    (v : Bool) (whole rest : List Transfer) (part : List ℕ)
    → AllValid whole empty_book
    → AllValid rest (replay whole empty_book)
    → length (log_bytes 0 whole) < 2 ^ 64
    → Begins (length (log_bytes 0 whole)) rest part
    → recover (from_image (log_bytes 0 whole ++ part)) v empty_report ≡ recovered whole part
unfolding recover
recover-part v whole rest part valid more fits b =
    let xs = log_bytes 0 whole in
    let zero_off : 0 + length xs ≡ length xs = omega arith in
    let zero_count : 0 + length whole ≡ length whole = omega arith in
    let run =
      log_bytes-Runs (xs ++ part) v whole 0 0 empty_book empty_report valid (omega arith)
        (Holds-front xs part) in
    let state : Replay =
      (replay whole empty_book, record empty_report { records_applied = length whole }) in
    rw
      (scan_log-Runs (from_image (xs ++ part)) v replay_record (length xs) (length whole)
        (empty_book, empty_report) state state (stop_at (length part))
        (rw (zero_off, zero_count) at run) (round_at_part v whole rest part state more fits b))
      refl

-- If a device holds the log of transfers and behind it any beginning of the log of more, all of
-- which Validate accepts one after the other, with integers in the range of their C++ types and a
-- log below 2 ^ 64 bytes, then, with checksums on or off, recovery applies exactly the transfers
-- whose records are whole, counts no corruption, stops with clean_end between two records and
-- with short_read inside one, and the writer goes on right behind the last whole record.
pub recover-take :
    (v : Bool) (ts more : List Transfer) (n : ℕ)
    → AllValid (ts ++ more) empty_book
    → length (log_bytes 0 (ts ++ more)) < 2 ^ 64
    → (c : IsCut (length (log_bytes 0 ts)) more (take n (log_bytes (length (log_bytes 0 ts)) more)))
      × (recover
            (from_image (log_bytes 0 ts ++ take n (log_bytes (length (log_bytes 0 ts)) more)))
            v
            empty_report
          ≡ recovered (ts ++ c.whole) c.part)
recover-take v ts more n valid fits =
    let off = length (log_bytes 0 ts) in
    let c = take-IsCut n off more in
    let together : ts ++ more ≡ (ts ++ c.whole) ++ c.rest =
      ap (λ (us : List Transfer). ts ++ us) c.together ∙ sym (append_assoc ts c.whole c.rest) in
    let joined = log_joined ts c.whole in
    let split =
      AllValid-append (ts ++ c.whole) c.rest empty_book
        (subst (λ us. AllValid us empty_book) together valid) in
    (
      c,
      ap (λ image. recover (from_image image) v empty_report)
            (ap (λ bs. log_bytes 0 ts ++ bs) c.same
              ∙ sym (append_assoc (log_bytes 0 ts) (log_bytes off c.whole) c.part)
              ∙ ap (λ bs. bs ++ c.part) (sym joined))
          ∙ recover-part v (ts ++ c.whole) c.rest c.part split.0 split.1
              (omega (
                arith,
                fits,
                ap (λ (us : List Transfer). length (log_bytes 0 us)) together,
                log_joined_le (ts ++ c.whole) c.rest,
              ))
              (subst (λ k. Begins k c.rest c.part)
                (sym (ap length joined ∙ length-append (log_bytes 0 ts) (log_bytes off c.whole)))
                c.begins),
    )
