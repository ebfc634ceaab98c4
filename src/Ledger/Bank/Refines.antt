-- ===== src/Ledger/Bank/Refines.antt =====
-- The class `Ledger`, recovery included, beside the bank.
use mathlib.Core.Path.{fun_ext, subst₂}
use iron_ledger.Common.{
  ℕ, ◌^◌, ◌<◌, ◌≡◌, ◌≢◌, inl, inr, refl, sym, ◌∙◌, ap, ap₂, subst, Bool, false, ◌||◌, List, [], ◌∷◌,
  ◌==◌, if◌then◌else◌, length, Bool-cases, arith,
}
use iron_ledger.Common.Int.{ℤ, pos, ◌+ℤ◌, IsI64, is_negative}
use iron_ledger.Device.{contains, from_image}
use iron_ledger.Ledger.Modes.{
  LedgerOptions, SubmitStatus, ok, duplicate, bad_posting_count, unbalanced, insufficient_funds,
}
use iron_ledger.Ledger.Transfer.{Transfer, IsTyped}
use iron_ledger.Ledger.Book.{Book, empty_book, balance, find, world_account, validate, apply}
use iron_ledger.Ledger.Book.Deltas.{net, IsAcceptable}
use iron_ledger.Ledger.Book.Sound.{IsSound, empty_book-IsSound, apply-IsSound, balance-apply}
use iron_ledger.Ledger.Book.Complete.{IsModest, validate_complete}
use iron_ledger.Ledger.Recovery.{recover, empty_report}
use iron_ledger.Ledger.Recovery.Replay.{contains-insert_key}
use iron_ledger.Ledger.Submit.{
  Ledger, set_ack_sink, log_transfer, submit, submit_validated, perform, perform_all, op_submit,
}
use iron_ledger.Ledger.Submit.Booked.{settle-book, commit-book}
use iron_ledger.Ledger.Submit.Budget.{submits, length-submits}
use iron_ledger.Ledger.Submit.Life.{reopened}
use iron_ledger.Ledger.Submit.Logging.{set_ack_sink-IsLogged}
use iron_ledger.Ledger.Submit.Reopen.{AllTypedOps, committed, commit-recover, fresh-IsLogged}
use iron_ledger.Ledger.Bank.{
  Bank, new_bank, IsAllowed, paid, BankStep, allows, refuses, BankRun, bank_of,
}

abbrev bank : (ℕ → ℤ) → (ℕ → Bool) → Bank
bank f g = record { holds = f; knows = g }

abbrev held : ℕ → Book → ℤ
held k b = if k == world_account then pos 0 else balance k b.balances

held_real : (k : ℕ) (b : Book) → k ≢ world_account → held k b ≡ balance k b.balances
held_real k b ne = ground arith

module _ (t : Transfer) (b : Book) (s : IsSound b) where
  left_over :
      (k : ℕ)
      → k ≢ world_account
      → IsAcceptable t b
      → IsI64 (balance k b.balances +ℤ net k t.postings)
        × (is_negative (balance k b.balances +ℤ net k t.postings) ≡ false)
  left_over k ne a = elim (a.funded k ne) [
    | inl same ↦ rw same (s.ranges k, s.funded k ne)
    | inr left ↦ left
  ]

  acceptable-IsAllowed : IsAcceptable t b → IsAllowed t (bank_of b)
  acceptable-IsAllowed a = record {
    at_least = a.at_least;
    at_most = a.at_most;
    balanced = a.balanced;
    new_key = a.new_key;
    enough = λ k ne. rw (held_real k b ne) (left_over k ne a);
  }

  allowed-IsAcceptable : IsAllowed t (bank_of b) → IsAcceptable t b
  allowed-IsAcceptable a = record {
    at_least = a.at_least;
    at_most = a.at_most;
    balanced = a.balanced;
    new_key = a.new_key;
    funded = λ k ne. inr (
        subst (λ v. IsI64 (v +ℤ net k t.postings) × (is_negative (v +ℤ net k t.postings) ≡ false))
          (held_real k b ne) (a.enough k ne));
  }

  held-apply :
      (k : ℕ)
      → validate t b ≡ ok
      → held k (apply t b) ≡ (if k == world_account then pos 0 else held k b +ℤ net k t.postings)
  held-apply k h = elim (Bool-cases (k == world_account)) [
    | inl e ↦ rw e refl
    | inr e ↦ rw e (balance-apply k t b s h (ground (arith, e)))
  ]

  known-apply :
      (k : ℕ) → contains k (apply t b).seen_keys ≡ (k == t.idem_key || contains k b.seen_keys)
  unfolding apply
  known-apply k = contains-insert_key k t.idem_key b.seen_keys

  -- Applying what is accepted is what the bank does.
  bank_of-apply : validate t b ≡ ok → bank_of (apply t b) ≡ paid t (bank_of b)
  bank_of-apply h = ap₂ bank (fun_ext λ k. held-apply k h) (fun_ext known-apply)

  refused :
      IsModest t → (st : SubmitStatus) → st ≢ ok → validate t b ≡ st → ¬ IsAllowed t (bank_of b)
  refused h st ne v a = ne (sym v ∙ (validate_complete t b s h).1 (allowed-IsAcceptable a))

-- What `Submit` has made of a book, by its verdict.
abbrev book_after : SubmitStatus → Transfer → Book → Book
book_after ok t b = apply t b
book_after _ t b = b

book_after-BankStep :
    (t : Transfer) (b : Book) (st : SubmitStatus)
    → IsSound b
    → IsModest t
    → validate t b ≡ st
    → BankStep t (bank_of b) (bank_of (book_after st t b)) × IsSound (book_after st t b)
book_after-BankStep t b ok s h v = (
  allows (acceptable-IsAllowed t b s ((validate_complete t b s h).0 v)) (bank_of-apply t b s v),
  apply-IsSound t b s v,
)
book_after-BankStep t b duplicate s h v = (refuses (refused t b s h duplicate (λ e. cc) v) refl, s)
book_after-BankStep t b bad_posting_count s h v =
    (refuses (refused t b s h bad_posting_count (λ e. cc) v) refl, s)
book_after-BankStep t b unbalanced s h v =
    (refuses (refused t b s h unbalanced (λ e. cc) v) refl, s)
book_after-BankStep t b insufficient_funds s h v =
    (refuses (refused t b s h insufficient_funds (λ e. cc) v) refl, s)

validated_book :
    (st : SubmitStatus) (t : Transfer) (l : Ledger)
    → (submit_validated st t l).0.book ≡ book_after st t l.book
unfolding submit_validated log_transfer
validated_book ok t l = settle-book l.opts.mode (log_transfer t l)
validated_book duplicate t l = refl
validated_book bad_posting_count t l = refl
validated_book unbalanced t l = refl
validated_book insufficient_funds t l = refl

submit_book :
    (t : Transfer) (l : Ledger)
    → (perform (op_submit t) l).book ≡ book_after (validate t l.book) t l.book
unfolding perform submit
submit_book t l = validated_book (validate t l.book) t l

-- The specification leaves no choice.
pub BankStep-unique : {t : Transfer} {s u v : Bank} → BankStep t s u → BankStep t s v → u ≡ v
BankStep-unique (allows a e) (allows b f) = e ∙ sym f
BankStep-unique (allows a e) (refuses b f) = absurd (b a)
BankStep-unique (refuses a e) (allows b f) = absurd (a b)
BankStep-unique (refuses a e) (refuses b f) = e ∙ sym f

-- Transfers in the range of their C++ types, no sum of which overflows.
abbrev pub AreModest : List Transfer → Type 0
AreModest [] = Unit
AreModest (t ∷ ts) = IsTyped t × IsModest t × AreModest ts

submits-BankRun :
    (ts : List Transfer) (l : Ledger)
    → IsSound l.book
    → AreModest ts
    → BankRun ts (bank_of l.book) (bank_of (perform_all (submits ts) l).book)
unfolding perform_all
submits-BankRun [] l s h = refl
submits-BankRun (t ∷ ts) l s h =
    let now = book_after-BankStep t l.book (validate t l.book) s h.1 refl in
    let next = submit_book t l in
    (
      bank_of (perform (op_submit t) l).book,
      subst (λ b. BankStep t (bank_of l.book) (bank_of b)) (sym next) now.0,
      submits-BankRun ts (perform (op_submit t) l) (subst IsSound (sym next) now.1) h.2,
    )

submits-AllTypedOps : (ts : List Transfer) → AreModest ts → AllTypedOps (submits ts)
submits-AllTypedOps [] h = tt
submits-AllTypedOps (t ∷ ts) h = (h.0, submits-AllTypedOps ts h.2)

new_book : bank_of empty_book ≡ new_bank
unfolding balance find
new_book = ap₂ bank (fun_ext λ k. ground arith) refl

-- For a ledger that is opened on an empty device in any mode, less than 2 ^ 32 submits of
-- transfers with integers in the range of their C++ types, none of whose sums over some legs
-- overflows an int64_t, and a Commit: what recovery of the device then finds, with checksums on
-- or off, is, in the amounts of the real accounts and the known keys, the state to which these
-- submits lead a bank that starts with nothing. The bank carries out a transfer as a whole
-- exactly if it has 2 to 8 legs that sum to zero, its key is new, and each real account is left
-- with an amount that is not negative and fits an int64_t; otherwise it stays as it is.
pub recover-BankRun :
    (opts : LedgerOptions) (ts : List Transfer) (v : Bool)
    → AreModest ts
    → length ts < 2 ^ 32
    → BankRun ts new_bank (
        bank_of
          (recover
            (from_image (committed opts (submits ts)).world.dev.volatile)
            v
            empty_report).0.0)
recover-BankRun opts ts v h few =
    let start = set_ack_sink (reopened [] opts []) in
    let empty : start.book ≡ empty_book =
      (set_ack_sink-IsLogged (reopened [] opts []) (fresh-IsLogged opts)).current in
    let run = submits-BankRun ts start (subst IsSound (sym empty) empty_book-IsSound) h in
    let found =
      commit-recover opts (submits ts) v (submits-AllTypedOps ts h)
        (omega (arith, length-submits ts)) in
    let book = ap (λ r. r.0.0) found ∙ commit-book (perform_all (submits ts) start) in
    subst₂ (BankRun ts) (ap bank_of empty ∙ new_book) (ap bank_of (sym book)) run
