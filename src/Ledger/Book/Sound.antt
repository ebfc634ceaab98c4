-- ===== src/Ledger/Book/Sound.antt =====
-- The invariant of the ledger's state: money is conserved, and no account but the world's is
-- overdrawn.
use iron_ledger.Common.{ℕ, ◌≡◌, ◌≢◌, inl, inr, refl, ◌∙◌, false, arith}
use iron_ledger.Common.Int.{pos, ◌+ℤ◌, is_negative}
use iron_ledger.Ledger.Modes.{ok}
use iron_ledger.Ledger.Transfer.{Transfer}
use iron_ledger.Ledger.Book.{
  Book, empty_book, balance, find, total_balance, total_from, apply, validate, world_account,
}
use iron_ledger.Ledger.Book.Deltas.{net, validate-IsAcceptable}
use iron_ledger.Ledger.Book.Apply.{
  IsSorted, AreI64, add_postings-IsSorted, add_postings-AreI64, balance-add_postings,
}
use iron_ledger.Ledger.Book.Total.{total_balance-add_postings}

pub record IsSound (b : Book) : Type 0 where
  pub sorted : IsSorted b.balances
  pub ranges : AreI64 b.balances
  -- ConservationHolds
  pub conserved : total_balance b.balances ≡ pos 0
  pub funded : (k : ℕ) → k ≢ world_account → is_negative (balance k b.balances) ≡ false

pub empty_book-IsSound : IsSound empty_book
unfolding total_balance total_from balance find
empty_book-IsSound = record {
  sorted = tt;
  ranges = λ k. omega arith;
  conserved = refl;
  funded = λ k _. refl;
}

-- A transfer that Validate accepts keeps a sound book sound: the total stays zero, every balance
-- fits an int64_t and no account but the world's becomes negative, also where the transfer
-- touches an account several times.
pub apply-IsSound : (t : Transfer) (b : Book) → IsSound b → validate t b ≡ ok → IsSound (apply t b)
unfolding apply
apply-IsSound t b s h =
    let a = validate-IsAcceptable t b h in
    record {
      sorted = add_postings-IsSorted t.postings b.balances s.sorted;
      ranges = add_postings-AreI64 t.postings b.balances s.sorted s.ranges;
      conserved = total_balance-add_postings t.postings b.balances a.balanced ∙ s.conserved;
      funded = λ k ne. elim (a.funded k ne) [
        | inl same ↦
            rw
              (
                balance-add_postings k t.postings b.balances s.sorted s.ranges
                    (rw same (s.ranges k)),
                same,
              )
              (s.funded k ne)
        | inr (fits, up) ↦
            rw (balance-add_postings k t.postings b.balances s.sorted s.ranges fits) up
      ];
    }

-- In a sound book, a transfer that Validate accepts moves every account but the world's by
-- exactly its net amount.
pub balance-apply :
    (k : ℕ) (t : Transfer) (b : Book)
    → IsSound b
    → validate t b ≡ ok
    → k ≢ world_account
    → balance k (apply t b).balances ≡ balance k b.balances +ℤ net k t.postings
unfolding apply
balance-apply k t b s h ne = elim ((validate-IsAcceptable t b h).funded k ne) [
  | inl same ↦ balance-add_postings k t.postings b.balances s.sorted s.ranges (rw same (s.ranges k))
  | inr (fits, up) ↦ balance-add_postings k t.postings b.balances s.sorted s.ranges fits
]
