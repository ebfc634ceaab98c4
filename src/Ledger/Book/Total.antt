-- ===== src/Ledger/Book/Total.antt =====
-- `TotalBalance`: the sum over all accounts, as the machine adds it up.
use iron_ledger.Common.{ℕ, ◌+◌, ◌%◌, ◌^◌, ◌≡◌, refl, sym, ◌∙◌, ap, List, [], ◌∷◌, arith}
use iron_ledger.Common.Int.{
  ℤ, pos, to_u64, to_i64, to_u64-lt, to_u64-+ℤ, to_u64-add_i64, add_i64, add_i64-IsI64,
  to_i64-to_u64, IsI64,
}
use iron_ledger.Ledger.Transfer.{Posting}
use iron_ledger.Ledger.Book.{Balances, add_balance, add_postings, total_from, total_balance}
use iron_ledger.Ledger.Book.Deltas.{sum}

-- The sum of the bit patterns of all balances.
words : Balances → ℕ
words [] = 0
words ((_, v) ∷ m) = to_u64 v + words m

zero_word : to_u64 (pos 0) ≡ 0
unfolding to_u64
zero_word = refl

total_from-word :
    (acc : ℤ) (m : Balances) → to_u64 (total_from acc m) ≡ (to_u64 acc + words m) % 2 ^ 64
unfolding total_from words
total_from-word acc [] = omega (arith, to_u64-lt acc)
total_from-word acc ((k, v) ∷ m) =
    total_from-word (add_i64 acc v) m ∙ rw (to_u64-add_i64 acc v) (omega arith)

total_from-IsI64 : (acc : ℤ) (m : Balances) → IsI64 acc → IsI64 (total_from acc m)
unfolding total_from
total_from-IsI64 acc [] h = h
total_from-IsI64 acc ((k, v) ∷ m) h = total_from-IsI64 (add_i64 acc v) m (add_i64-IsI64 acc v)

words-add_balance :
    (k : ℕ) (a : ℤ) (m : Balances)
    → words (add_balance k a m) % 2 ^ 64 ≡ (words m + to_u64 a) % 2 ^ 64
unfolding add_balance words
words-add_balance k a [] = omega (arith, to_u64-add_i64 (pos 0) a, zero_word)
words-add_balance k a ((j, v) ∷ m) =
    ground (arith, words-add_balance k a m, to_u64-add_i64 (pos 0) a, to_u64-add_i64 v a, zero_word)

words-add_postings :
    (ps : List Posting) (m : Balances)
    → words (add_postings ps m) % 2 ^ 64 ≡ (words m + to_u64 (sum ps)) % 2 ^ 64
unfolding add_postings sum
words-add_postings [] m = omega (arith, zero_word)
words-add_postings (p ∷ ps) m = omega (
  arith,
  words-add_postings ps (add_balance p.account p.amount m),
  words-add_balance p.account p.amount m,
  to_u64-+ℤ p.amount (sum ps),
)

-- Postings whose amounts sum to zero leave the total over all accounts as it was, whatever wraps
-- around on the way.
pub total_balance-add_postings :
    (ps : List Posting) (m : Balances)
    → sum ps ≡ pos 0
    → total_balance (add_postings ps m) ≡ total_balance m
unfolding total_balance
total_balance-add_postings ps m h =
    sym (
      to_i64-to_u64 (total_from (pos 0) (add_postings ps m))
        (total_from-IsI64 (pos 0) (add_postings ps m) (omega arith)))
    ∙ ap to_i64 (
        omega (
          arith,
          total_from-word (pos 0) (add_postings ps m),
          total_from-word (pos 0) m,
          words-add_postings ps m,
          ap to_u64 h,
          zero_word,
        ))
    ∙ to_i64-to_u64 (total_from (pos 0) m) (total_from-IsI64 (pos 0) m (omega arith))
