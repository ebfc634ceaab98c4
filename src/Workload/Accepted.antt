-- ===== src/Workload/Accepted.antt =====
-- Whether a ledger that starts empty accepts the stream of transfers that `Next` returns.
use native.Mathlib.Nat.{suc-mul}
use iron_ledger.Common.{
  ℕ, ◌+◌, ◌*◌, ◌^◌, ◌≤◌, ◌<◌, ◌≡◌, ◌≢◌, ◌⊎◌, inl, inr, refl, sym, ◌∙◌, ap, subst, false, List, [],
  ◌∷◌, length, arith,
}
use iron_ledger.Common.Int.{ℤ, pos_part, neg_part, ◌+ℤ◌, IsI64, is_negative, +ℤ_parts, int_laws}
use iron_ledger.Device.{contains}
use iron_ledger.Ledger.Modes.{ok}
use iron_ledger.Ledger.Transfer.{Transfer}
use iron_ledger.Ledger.Book.{Book, empty_book, balance, find, world_account, validate, apply}
use iron_ledger.Ledger.Book.Deltas.{net, IsAcceptable}
use iron_ledger.Ledger.Book.Complete.{validate_complete, +ℤ_parts_le}
use iron_ledger.Ledger.Book.Sound.{IsSound, empty_book-IsSound, apply-IsSound, balance-apply}
use iron_ledger.Ledger.Recovery.Replay.{contains-insert_key}
use iron_ledger.Ledger.Submit.Log.{AllValid}
use iron_ledger.Workload.{WorkloadOptions}
use iron_ledger.Workload.Legs.{IsSane}
use iron_ledger.Workload.Payment.{IsIssued, AreIssued}
use iron_ledger.Workload.Moves.{most_moved, IsMoved, moves, issued-IsModest}

-- The book after the transfers of the keys up to `i`, with a bound on what an account has given or
-- received in payments.
record CanPay (o : WorkloadOptions) (i spent : ℕ) (b : Book) : Type 0 where
  sound : IsSound b
  unseen : (k : ℕ) → i < k → contains k b.seen_keys ≡ false
  waiting : (k : ℕ) → i < k → pos_part (balance k b.balances) ≡ 0
  at_least :
      (k : ℕ)
      → k ≢ world_account
      → k ≤ i
      → k ≤ o.accounts
      → pos_part o.funding ≤ pos_part (balance k b.balances) + spent
  at_most :
      (k : ℕ) → k ≢ world_account → pos_part (balance k b.balances) ≤ pos_part o.funding + spent

not_negative : (a : ℤ) → is_negative a ≡ false → neg_part a ≡ 0
not_negative a h = ground arith

left_over : (a : ℤ) → pos_part a < 2 ^ 63 → neg_part a ≡ 0 → IsI64 a × (is_negative a ≡ false)
left_over a h e = ground arith

covers : (a b : ℤ) → neg_part a ≡ 0 → neg_part b ≤ pos_part a → neg_part (a +ℤ b) ≡ 0
unfolding ◌+ℤ◌
covers a b e h = ground arith

covered :
    (a b : ℤ)
    → neg_part a ≡ 0
    → neg_part b ≤ pos_part a
    → pos_part a ≤ pos_part (a +ℤ b) + neg_part b
unfolding ◌+ℤ◌
covered a b e h = ground arith

empty_book-CanPay : (o : WorkloadOptions) → CanPay o 0 0 empty_book
empty_book-CanPay o = record {
  sound = empty_book-IsSound;
  unseen = λ k _. refl;
  waiting = λ k _. (unfold balance find in refl);
  at_least = λ k ne le _. absurd (ne (omega arith));
  at_most = λ k _. (unfold balance find in omega arith);
}

module _ (o : WorkloadOptions) (sane : IsSane o) (i spent : ℕ) (t : Transfer) (b : Book)
    (issued : IsIssued o (i + 1) t) (h : CanPay o i spent b)
    (affordable : spent + most_moved o ≤ pos_part o.funding)
    (fits : pos_part o.funding + (spent + most_moved o) < 2 ^ 63) where
  -- What a net amount does to an account.
  after_move :
      (k : ℕ)
      → k ≢ world_account
      → IsMoved o (i + 1) k (net k t.postings)
      → (balance k b.balances +ℤ net k t.postings ≡ balance k b.balances)
        ⊎ (IsI64 (balance k b.balances +ℤ net k t.postings)
            × (is_negative (balance k b.balances +ℤ net k t.postings) ≡ false))
  after_move k ne (inl (e, _)) = inl (rw e (omega int_laws))
  after_move k ne (inr (inl (same, le, e))) =
      let from = not_negative (balance k b.balances) (h.sound.funded k ne) in
      let zero_balance = h.waiting k (omega arith) in
      let add = +ℤ_parts_le (balance k b.balances) (net k t.postings) in
      inr (
        left_over (balance k b.balances +ℤ net k t.postings) (omega (arith, add.0, ap pos_part e))
          (omega (arith, add.1, ap neg_part e)))
  after_move k ne (inr (inr (le, lt, up, down))) =
      let from = not_negative (balance k b.balances) (h.sound.funded k ne) in
      let enough = h.at_least k ne (omega arith) le in
      let room = h.at_most k ne in
      let add = +ℤ_parts_le (balance k b.balances) (net k t.postings) in
      inr (
        left_over (balance k b.balances +ℤ net k t.postings) (omega arith)
          (covers (balance k b.balances) (net k t.postings) from (omega arith)))

  issued-IsAcceptable : IsAcceptable t b
  issued-IsAcceptable = record {
    at_least = issued.at_least;
    at_most = issued.at_most;
    balanced = issued.balanced;
    new_key =
        subst (λ k. contains k b.seen_keys ≡ false) (sym issued.same_key)
          (h.unseen (i + 1) (omega arith));
    funded = λ k ne. after_move k ne (moves o (i + 1) t issued k ne);
  }

  -- Validate accepts the next transfer of the stream.
  issued_ok : validate t b ≡ ok
  issued_ok =
      (validate_complete t b h.sound
          (issued-IsModest o (i + 1) t issued sane.funds_fit sane.amount_to)).1
        issued-IsAcceptable

  moved :
      (k : ℕ)
      → k ≢ world_account
      → balance k (apply t b).balances ≡ balance k b.balances +ℤ net k t.postings
  moved k ne = balance-apply k t b h.sound issued_ok ne

  key_kept : (k : ℕ) → i + 1 < k → contains k (apply t b).seen_keys ≡ false
  unfolding apply
  key_kept k lt =
      ground (arith, contains-insert_key k t.idem_key b.seen_keys, issued.same_key, h.unseen k)

  still_waiting :
      (k : ℕ)
      → i + 1 < k
      → IsMoved o (i + 1) k (net k t.postings)
      → pos_part (balance k b.balances +ℤ net k t.postings) ≡ 0
  still_waiting k lt (inl (e, _)) =
      let add = +ℤ_parts_le (balance k b.balances) (net k t.postings) in
      omega (arith, add.0, h.waiting k, ap pos_part e)
  still_waiting k lt (inr (inl (same, le, e))) = absurd (omega arith)
  still_waiting k lt (inr (inr (le, above, up, down))) = absurd (omega arith)

  before_key : (k : ℕ) → k ≤ i + 1 → k ≤ o.accounts → (k ≢ i + 1) ⊎ (o.accounts < i + 1) → k ≤ i
  before_key k le real (inl other) = omega (arith, other)
  before_key k le real (inr past) = omega arith

  still_enough :
      (k : ℕ)
      → k ≢ world_account
      → k ≤ i + 1
      → k ≤ o.accounts
      → IsMoved o (i + 1) k (net k t.postings)
      → pos_part o.funding
        ≤ pos_part (balance k b.balances +ℤ net k t.postings) + (spent + most_moved o)
  still_enough k ne le real (inl (e, untouched)) =
      let from = not_negative (balance k b.balances) (h.sound.funded k ne) in
      let c =
        covered (balance k b.balances) (net k t.postings) from (omega (arith, ap neg_part e)) in
      omega (arith, h.at_least k ne (before_key k le real untouched) real, ap neg_part e)
  still_enough k ne le real (inr (inl (same, few, e))) =
      let from = not_negative (balance k b.balances) (h.sound.funded k ne) in
      let add = +ℤ_parts (balance k b.balances) (net k t.postings) in
      omega (arith, ap pos_part e, ap neg_part e)
  still_enough k ne le real (inr (inr (few, above, up, down))) =
      let from = not_negative (balance k b.balances) (h.sound.funded k ne) in
      let enough = h.at_least k ne (omega arith) real in
      let c = covered (balance k b.balances) (net k t.postings) from (omega arith) in omega arith

  still_bounded :
      (k : ℕ)
      → k ≢ world_account
      → IsMoved o (i + 1) k (net k t.postings)
      → pos_part (balance k b.balances +ℤ net k t.postings)
        ≤ pos_part o.funding + (spent + most_moved o)
  still_bounded k ne (inl (e, _)) =
      let add = +ℤ_parts_le (balance k b.balances) (net k t.postings) in
      omega (arith, add.0, h.at_most k ne, ap pos_part e)
  still_bounded k ne (inr (inl (same, few, e))) =
      let add = +ℤ_parts_le (balance k b.balances) (net k t.postings) in
      omega (arith, add.0, h.waiting k (omega arith), ap pos_part e)
  still_bounded k ne (inr (inr (few, above, up, down))) =
      let add = +ℤ_parts_le (balance k b.balances) (net k t.postings) in
      omega (arith, add.0, h.at_most k ne)

  next_key-CanPay : CanPay o (i + 1) (spent + most_moved o) (apply t b)
  next_key-CanPay = record {
    sound = apply-IsSound t b h.sound issued_ok;
    unseen = key_kept;
    waiting = λ k lt.
        ap pos_part (moved k (omega arith))
        ∙ still_waiting k lt (moves o (i + 1) t issued k (omega arith));
    at_least =
        λ k ne le real. rw (moved k ne) (still_enough k ne le real (moves o (i + 1) t issued k ne));
    at_most = λ k ne. rw (moved k ne) (still_bounded k ne (moves o (i + 1) t issued k ne));
  }

stream-AllValid :
    (o : WorkloadOptions) (i spent : ℕ) (ts : List Transfer) (b : Book)
    → IsSane o
    → AreIssued o i ts
    → spent + length ts * most_moved o ≤ pos_part o.funding
    → pos_part o.funding + (spent + length ts * most_moved o) < 2 ^ 63
    → CanPay o i spent b
    → AllValid ts b
stream-AllValid o i spent [] b sane issued less fits h = tt
stream-AllValid o i spent (t ∷ ts) b sane issued less fits h =
    let step = suc-mul (length ts) (most_moved o) in
    let now = issued_ok o sane i spent t b issued.0 h (omega arith) (omega arith) in
    (
      issued.0.typed,
      now,
      stream-AllValid o (i + 1) (spent + most_moved o) ts (apply t b) sane issued.1 (omega arith)
          (omega arith) (next_key-CanPay o sane i spent t b issued.0 h (omega arith) (omega arith)),
    )

-- For sane options, a stream whose transfers could at most move what an account is funded with,
-- which with it fits an int64_t.
pub issued-AllValid :
    (o : WorkloadOptions) (ts : List Transfer)
    → IsSane o
    → AreIssued o 0 ts
    → length ts * most_moved o ≤ pos_part o.funding
    → 2 * pos_part o.funding < 2 ^ 63
    → AllValid ts empty_book
issued-AllValid o ts sane issued less fits =
    stream-AllValid o 0 0 ts empty_book sane issued (omega arith) (omega arith)
      (empty_book-CanPay o)
