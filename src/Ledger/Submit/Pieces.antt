-- ===== src/Ledger/Submit/Pieces.antt =====
-- The log of two lists of transfers, and the log that is cut off anywhere.
use mathlib.Core.List.{append_assoc}
use iron_ledger.Common.{
  le_or_lt, ℕ, zero, suc, ◌+◌, ◌-◌, ◌*◌, ◌≤◌, ◌<◌, ◌≡◌, inl, inr, refl, sym, ◌∙◌, ap, subst, List,
  [], ◌∷◌, ◌++◌, length, take, arith, length-append, length-take, take_all,
}
use iron_ledger.Ledger.Transfer.{Transfer}
use iron_ledger.Ledger.Book.{Book, apply}
use iron_ledger.Ledger.Book.Deltas.{validate-IsAcceptable}
use iron_ledger.Ledger.Submit.Log.{
  log_record, log_bytes, length-log_record, length-encode_transfer, replay, AllValid,
}

pub log_bytes-append :
    (off : ℕ) (xs ys : List Transfer)
    → log_bytes off (xs ++ ys) ≡ log_bytes off xs ++ log_bytes (off + length (log_bytes off xs)) ys
unfolding log_bytes
log_bytes-append off [] ys = let e : off + 0 ≡ off = omega arith in rw e refl
log_bytes-append off (x ∷ xs) ys =
    let one = log_record off x in
    let next = off + length one in
    ap (λ (bs : List ℕ). one ++ bs) (log_bytes-append next xs ys)
    ∙ sym (append_assoc one (log_bytes next xs) (log_bytes (next + length (log_bytes next xs)) ys))
    ∙ ap (λ (n : ℕ). (one ++ log_bytes next xs) ++ log_bytes n ys)
        (omega (arith, length-append one (log_bytes next xs)))

pub replay-append :
    (xs ys : List Transfer) (b : Book) → replay (xs ++ ys) b ≡ replay ys (replay xs b)
replay-append [] ys b = refl
replay-append (x ∷ xs) ys b = replay-append xs ys (apply x b)

pub AllValid-append :
    (xs ys : List Transfer) (b : Book)
    → AllValid (xs ++ ys) b
    → AllValid xs b × AllValid ys (replay xs b)
AllValid-append [] ys b h = (tt, h)
AllValid-append (x ∷ xs) ys b h =
    let rest = AllValid-append xs ys (apply x b) h.2 in ((h.0, h.1, rest.0), rest.1)

-- A record takes at most 164 bytes.
pub log_bytes-le :
    (off : ℕ) (ts : List Transfer) (b : Book)
    → AllValid ts b
    → length (log_bytes off ts) ≤ 164 * length ts
unfolding log_bytes
log_bytes-le off [] b h = omega arith
log_bytes-le off (t ∷ ts) b h =
    let next = off + length (log_record off t) in
    omega (
      arith,
      log_bytes-le next ts (apply t b) h.2,
      length-append (log_record off t) (log_bytes next ts),
      length-log_record off t,
      length-encode_transfer t,
      (validate-IsAcceptable t b h.1).at_most,
    )

-- A proper beginning of the record of the first of the transfers; nothing if there are none.
abbrev pub Begins : ℕ → List Transfer → List ℕ → Type 0
Begins off [] part = part ≡ []
Begins off (t ∷ ts) part =
    (length part < length (log_record off t)) × (part ≡ take (length part) (log_record off t))

-- The first bytes of a log are whole records and a proper beginning of the next one.
pub record IsCut (off : ℕ) (ts : List Transfer) (bytes : List ℕ) : Type 0 where
  pub whole : List Transfer
  pub rest : List Transfer
  pub part : List ℕ
  pub together : ts ≡ whole ++ rest
  pub same : bytes ≡ log_bytes off whole ++ part
  pub begins : Begins (off + length (log_bytes off whole)) rest part

take-append_left : (n : ℕ) (xs ys : List ℕ) → n ≤ length xs → take n (xs ++ ys) ≡ take n xs
take-append_left zero xs ys h = refl
take-append_left (suc n) [] ys h = absurd (omega arith)
take-append_left (suc n) (x ∷ xs) ys h = ap (◌∷◌ x) (take-append_left n xs ys (omega arith))

pub take-append_right : (n : ℕ) (xs ys : List ℕ) → take (length xs + n) (xs ++ ys) ≡ xs ++ take n ys
take-append_right n [] ys = let e : 0 + n ≡ n = omega arith in rw e refl
take-append_right n (x ∷ xs) ys =
    let e : length (x ∷ xs) + n ≡ suc (length xs + n) = omega arith in
    rw e (ap (◌∷◌ x) (take-append_right n xs ys))

IsCut-nil : (m off : ℕ) → IsCut off [] (take m (log_bytes off []))
unfolding log_bytes
IsCut-nil m off = record {
  whole = [];
  rest = [];
  part = [];
  together = refl;
  same = take_all m [] (omega arith);
  begins = refl;
}

IsCut-part :
    (m off : ℕ) (t : Transfer) (ts : List Transfer)
    → m < length (log_record off t)
    → IsCut off (t ∷ ts) (take m (log_bytes off (t ∷ ts)))
unfolding log_bytes
IsCut-part m off t ts h =
    let one = log_record off t in
    let size : length (take m one) ≡ m = omega (arith, length-take m one) in
    let from : off + 0 ≡ off = omega arith in
    record {
      whole = [];
      rest = t ∷ ts;
      part = take m one;
      together = refl;
      same = take-append_left m one (log_bytes (off + length one) ts) (omega arith);
      begins = rw (from, size) (h, refl);
    }

IsCut-whole :
    (m off : ℕ) (t : Transfer) (ts : List Transfer)
    → length (log_record off t) ≤ m
    → IsCut
        (off + length (log_record off t))
        ts
        (take (m - length (log_record off t)) (log_bytes (off + length (log_record off t)) ts))
    → IsCut off (t ∷ ts) (take m (log_bytes off (t ∷ ts)))
unfolding log_bytes
IsCut-whole m off t ts h c =
    let one = log_record off t in
    let next = off + length one in
    record {
      whole = t ∷ c.whole;
      rest = c.rest;
      part = c.part;
      together = ap (◌∷◌ t) c.together;
      same =
          ap (λ (n : ℕ). take n (one ++ log_bytes next ts)) (omega arith)
          ∙ take-append_right (m - length one) one (log_bytes next ts)
          ∙ ap (λ (bs : List ℕ). one ++ bs) c.same
          ∙ sym (append_assoc one (log_bytes next c.whole) c.part);
      begins =
          subst (λ (n : ℕ). Begins n c.rest c.part)
            (omega (arith, length-append one (log_bytes next c.whole))) c.begins;
    }

pub take-IsCut : (m off : ℕ) (ts : List Transfer) → IsCut off ts (take m (log_bytes off ts))
take-IsCut m off [] = IsCut-nil m off
take-IsCut m off (t ∷ ts) = elim (le_or_lt (length (log_record off t)) m) [
  | inl whole ↦
      IsCut-whole m off t ts whole
        (take-IsCut (m - length (log_record off t)) (off + length (log_record off t)) ts)
  | inr part ↦ IsCut-part m off t ts part
]

-- The log of two lists of transfers.
pub log_joined :
    (xs ys : List Transfer)
    → log_bytes 0 (xs ++ ys) ≡ log_bytes 0 xs ++ log_bytes (length (log_bytes 0 xs)) ys
log_joined xs ys =
    let from : 0 + length (log_bytes 0 xs) ≡ length (log_bytes 0 xs) = omega arith in
    log_bytes-append 0 xs ys ∙ ap (λ (n : ℕ). log_bytes 0 xs ++ log_bytes n ys) from

pub log_joined_le :
    (xs ys : List Transfer) → length (log_bytes 0 xs) ≤ length (log_bytes 0 (xs ++ ys))
log_joined_le xs ys = omega (
  arith,
  ap length (log_joined xs ys),
  length-append (log_bytes 0 xs) (log_bytes (length (log_bytes 0 xs)) ys),
)
