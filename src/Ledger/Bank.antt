-- ===== src/Ledger/Bank.antt =====
-- What the class `Ledger` promises its callers, without its log and without its containers: an
-- amount for each real account, and the keys that were used.
pub mod Refines
use iron_ledger.Common.{
  ℕ, ◌≤◌, ◌≡◌, ◌≢◌, Bool, false, ◌||◌, List, [], ◌∷◌, ◌==◌, if◌then◌else◌, length,
}
use iron_ledger.Common.Int.{ℤ, pos, ◌+ℤ◌, IsI64, is_negative}
use iron_ledger.Device.{contains}
use iron_ledger.Ledger.Transfer.{Transfer}
use iron_ledger.Ledger.Book.{Book, balance, world_account}
use iron_ledger.Ledger.Book.Deltas.{sum, net}

pub record Bank : Type 0 where
  -- The world's account counts as empty.
  pub holds : ℕ → ℤ
  pub knows : ℕ → Bool

abbrev pub new_bank : Bank
new_bank = record { holds = λ _. pos 0; knows = λ _. false }

-- A transfer that a bank carries out: it balances, its key is new, and no real account is
-- overdrawn or overflows.
pub record IsAllowed (t : Transfer) (s : Bank) : Type 0 where
  pub at_least : 2 ≤ length t.postings
  pub at_most : length t.postings ≤ 8
  pub balanced : sum t.postings ≡ pos 0
  pub new_key : s.knows t.idem_key ≡ false
  pub enough :
      (k : ℕ)
      → k ≢ world_account
      → IsI64 (s.holds k +ℤ net k t.postings)
        × (is_negative (s.holds k +ℤ net k t.postings) ≡ false)

-- The bank afterwards: each account has moved by its net amount, and the key is used.
abbrev pub paid : Transfer → Bank → Bank
paid t s = record {
  holds = λ k. if k == world_account then pos 0 else s.holds k +ℤ net k t.postings;
  knows = λ k. k == t.idem_key || s.knows k;
}

-- A transfer is carried out as a whole if it is allowed, and leaves no trace otherwise.
pub data BankStep (t : Transfer) (s s' : Bank) : Type 0 where
  allows : IsAllowed t s → s' ≡ paid t s → BankStep t s s'
  refuses : ¬ IsAllowed t s → s' ≡ s → BankStep t s s'

abbrev pub BankRun : List Transfer → Bank → Bank → Type 0
BankRun [] s s' = s' ≡ s
BankRun (t ∷ ts) s s' = (m : Bank) × BankStep t s m × BankRun ts m s'

-- The bank that a book stands for.
abbrev pub bank_of : Book → Bank
bank_of b = record {
  holds = λ k. if k == world_account then pos 0 else balance k b.balances;
  knows = λ k. contains k b.seen_keys;
}
