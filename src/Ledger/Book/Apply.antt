-- ===== src/Ledger/Book/Apply.antt =====
-- `Apply`: the map stays in order, and every account moves by its net amount.
use iron_ledger.Common.{
  ℕ, ◌+◌, ◌%◌, ◌^◌, ◌≤◌, ◌<◌, ◌≡◌, inl, inr, Bool-cases, refl, sym, ◌∙◌, ap, Bool, true, false,
  none, List, [], ◌∷◌, ◌==◌, if◌then◌else◌, arith,
}
use iron_ledger.Common.Int.{
  ℤ, pos, ◌+ℤ◌, IsI64, to_u64, to_u64-lt, to_u64-+ℤ, to_u64-add_i64, add_i64, add_i64-IsI64,
  to_i64-to_u64, to_i64,
}
use iron_ledger.Ledger.Transfer.{Posting}
use iron_ledger.Ledger.Book.{Balances, find, balance, add_balance, add_postings}
use iron_ledger.Ledger.Book.Deltas.{net}

abbrev pub Above : ℕ → Balances → Type 0
Above j [] = Unit
Above j ((i, _) ∷ m) = (j < i) × Above j m

-- The keys of a std::map ascend.
abbrev pub IsSorted : Balances → Type 0
IsSorted [] = Unit
IsSorted ((j, _) ∷ m) = Above j m × IsSorted m

Above-trans : (i j : ℕ) (m : Balances) → i < j → Above j m → Above i m
Above-trans i j [] h a = tt
Above-trans i j ((k, v) ∷ m) h a = (omega arith, Above-trans i j m h a.1)

find-Above : (j k : ℕ) (m : Balances) → k ≤ j → Above j m → find k m ≡ none
unfolding find
find-Above j k [] h a = refl
find-Above j k ((i, v) ∷ m) h a = ground (arith, find-Above j k m h a.1)

Above-add_balance :
    (j k : ℕ) (a : ℤ) (m : Balances) → j < k → Above j m → Above j (add_balance k a m)
unfolding add_balance
Above-add_balance j k a [] h p = (h, tt)
Above-add_balance j k a ((i, v) ∷ m) h p = ground (arith, Above-add_balance j k a m h p.1)

add_balance-IsSorted : (k : ℕ) (a : ℤ) (m : Balances) → IsSorted m → IsSorted (add_balance k a m)
unfolding add_balance
add_balance-IsSorted k a [] h = (tt, tt)
add_balance-IsSorted k a ((j, v) ∷ m) h =
    ground (arith, add_balance-IsSorted k a m h.1, Above-add_balance j k a m, Above-trans k j m)

balance-add_balance :
    (i k : ℕ) (a : ℤ) (m : Balances)
    → IsSorted m
    → balance i (add_balance k a m) ≡ (if k == i then add_i64 (balance i m) a else balance i m)
unfolding balance find add_balance
balance-add_balance i k a [] h = ground arith
balance-add_balance i k a ((j, v) ∷ m) h =
    ground (arith, balance-add_balance i k a m h.1, find-Above j k m)

pub add_postings-IsSorted :
    (ps : List Posting) (m : Balances) → IsSorted m → IsSorted (add_postings ps m)
unfolding add_postings
add_postings-IsSorted [] m h = h
add_postings-IsSorted (p ∷ ps) m h =
    add_postings-IsSorted ps (add_balance p.account p.amount m)
      (add_balance-IsSorted p.account p.amount m h)

-- Every balance is an int64_t.
abbrev pub AreI64 : Balances → Type 0
AreI64 m = (k : ℕ) → IsI64 (balance k m)

pub add_postings-AreI64 :
    (ps : List Posting) (m : Balances) → IsSorted m → AreI64 m → AreI64 (add_postings ps m)
unfolding add_postings
add_postings-AreI64 [] m s h = h
add_postings-AreI64 (p ∷ ps) m s h =
    add_postings-AreI64 ps (add_balance p.account p.amount m)
      (add_balance-IsSorted p.account p.amount m s)
      (λ k. rw (balance-add_balance k p.account p.amount m s) (either (p.account == k) k))
  where
    either : (b : Bool) (k : ℕ) → IsI64 (if b then add_i64 (balance k m) p.amount else balance k m)
    either true k = add_i64-IsI64 (balance k m) p.amount
    either false k = h k

word_zero : (w : ℕ) → w < 2 ^ 64 → (w + to_u64 (pos 0)) % 2 ^ 64 ≡ w
unfolding to_u64
word_zero w h = omega arith

-- As bit patterns, every balance moves by the net amount of its account.
word-add_postings :
    (k : ℕ) (ps : List Posting) (m : Balances)
    → IsSorted m
    → to_u64 (balance k (add_postings ps m)) ≡ (to_u64 (balance k m) + to_u64 (net k ps)) % 2 ^ 64
unfolding add_postings net
word-add_postings k [] m s = sym (word_zero (to_u64 (balance k m)) (to_u64-lt (balance k m)))
word-add_postings k (p ∷ ps) m s =
    let m1 : Balances = add_balance p.account p.amount m in
    let ih = word-add_postings k ps m1 (add_balance-IsSorted p.account p.amount m s) in
    let moved = balance-add_balance k p.account p.amount m s in
    elim (Bool-cases (p.account == k)) [
      | inl e ↦
          rw (e, ih, moved, e, to_u64-add_i64 (balance k m) p.amount, to_u64-+ℤ p.amount (net k ps))
            (omega arith)
      | inr e ↦ rw (e, ih, moved, e)
    ]

-- Where the net amount leaves an account within int64_t, the balance is the exact sum, whatever
-- the sums over the single legs were.
pub balance-add_postings :
    (k : ℕ) (ps : List Posting) (m : Balances)
    → IsSorted m
    → AreI64 m
    → IsI64 (balance k m +ℤ net k ps)
    → balance k (add_postings ps m) ≡ balance k m +ℤ net k ps
balance-add_postings k ps m s r fits =
    sym (to_i64-to_u64 (balance k (add_postings ps m)) (add_postings-AreI64 ps m s r k))
    ∙ ap to_i64 (word-add_postings k ps m s ∙ sym (to_u64-+ℤ (balance k m) (net k ps)))
    ∙ to_i64-to_u64 (balance k m +ℤ net k ps) fits
