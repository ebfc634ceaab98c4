-- ===== src/Ledger/Book.antt =====
-- The state that the log determines (`balances_`, `seen_keys_`, `applied_keys_`), with `Validate`,
-- `Apply` and the queries. `balances_` is the ascending list of the std::map's entries; the
-- std::unordered_map `delta` is kept in the order of its first insertions.
pub mod Deltas
pub mod Apply
pub mod Total
pub mod Sound
pub mod Order
pub mod Complete
use iron_ledger.Common.{
  ℕ, ◌+◌, Bool, true, false, not, ◌||◌, Option, none, some, List, [], ◌∷◌, ◌++◌, ltb, ◌==◌,
  if◌then◌else◌, length,
}
use mathlib.Core.Option
use iron_ledger.Common.Int.{ℤ, pos, is_negative, add_i64, add_overflow}
use iron_ledger.Device.{contains}
use iron_ledger.Ledger.Modes.{
  SubmitStatus, ok, duplicate, bad_posting_count, unbalanced, insufficient_funds,
}
use iron_ledger.Ledger.Transfer.{Posting, Transfer, min_postings, max_postings}

-- kWorldAccount
abbrev pub world_account : ℕ
world_account = 0

abbrev pub Balances : Type 0
Balances = List (ℕ × ℤ)

pub record Book : Type 0 where
  pub balances : Balances
  pub seen_keys : List ℕ
  pub applied_keys : List ℕ

abbrev pub empty_book : Book
empty_book = record { balances = []; seen_keys = []; applied_keys = [] }

-- balances_.find(account), delta.find(account)
unfoldable pub find : ℕ → Balances → Option ℤ
find k [] = none
find k ((j, v) ∷ m) = if j == k then some v else find k m

-- Balance
unfoldable pub balance : ℕ → Balances → ℤ
balance k m = Option.get_or (find k m) (pos 0)

-- `balances_[account] += amount`: a missing account is put in at zero first.
unfoldable pub add_balance : ℕ → ℤ → Balances → Balances
add_balance k a [] = (k, add_i64 (pos 0) a) ∷ []
add_balance k a ((j, v) ∷ m) =
    if ltb k j
    then (k, add_i64 (pos 0) a) ∷ (j, v) ∷ m
    else if j == k
    then (j, add_i64 v a) ∷ m
    else (j, v) ∷ add_balance k a m

-- The loop of `Apply`.
unfoldable pub add_postings : List Posting → Balances → Balances
add_postings [] m = m
add_postings (p ∷ ps) m = add_postings ps (add_balance p.account p.amount m)

-- seen_keys_.insert(key)
unfoldable pub insert_key : ℕ → List ℕ → List ℕ
insert_key k ks = if contains k ks then ks else k ∷ ks

-- Apply
unfoldable pub apply : Transfer → Book → Book
apply t b = record {
  balances = add_postings t.postings b.balances;
  seen_keys = insert_key t.idem_key b.seen_keys;
  applied_keys = b.applied_keys ++ t.idem_key ∷ [];
}

-- HasKey
abbrev pub has_key : ℕ → Book → Bool
has_key k b = contains k b.seen_keys

-- The loop of `TotalBalance`, and the whole of it.
unfoldable pub total_from : ℤ → Balances → ℤ
total_from total [] = total
total_from total ((_, v) ∷ m) = total_from (add_i64 total v) m

unfoldable pub total_balance : Balances → ℤ
total_balance m = total_from (pos 0) m

-- The first loop of `Validate`; `none` is an overflow.
unfoldable pub sum_amounts : ℤ → List Posting → Option ℤ
sum_amounts sum [] = some sum
sum_amounts sum (p ∷ ps) = elim (add_overflow sum p.amount) [
  | none ↦ none
  | some s ↦ sum_amounts s ps
]

-- `int64_t& d = delta[account]; __builtin_add_overflow(d, amount, &d)`
unfoldable pub add_delta : ℕ → ℤ → Balances → Option Balances
add_delta k a [] = Option.map (λ s. (k, s) ∷ []) (add_overflow (pos 0) a)
add_delta k a ((j, v) ∷ m) =
    if j == k
    then Option.map (λ s. (j, s) ∷ m) (add_overflow v a)
    else Option.map (λ m'. (j, v) ∷ m') (add_delta k a m)

-- The second loop of `Validate`.
unfoldable pub deltas : List Posting → Balances → Option Balances
deltas [] m = some m
deltas (p ∷ ps) m = elim (add_delta p.account p.amount m) [ none ↦ none | some m' ↦ deltas ps m' ]

-- The third loop of `Validate`.
unfoldable pub check_deltas : Balances → Balances → SubmitStatus
check_deltas balances [] = ok
check_deltas balances ((account, d) ∷ rest) =
    if account == world_account
    then check_deltas balances rest
    else elim (add_overflow (balance account balances) d) [
      | none ↦ unbalanced
      | some after ↦ if is_negative after then insufficient_funds else check_deltas balances rest
    ]

abbrev pub is_zero : ℤ → Bool
is_zero (pos n) = n == 0
is_zero _ = false

-- The tests of `Validate` after the first loop.
unfoldable pub validate_sum : Option ℤ → Transfer → Book → SubmitStatus
validate_sum none t b = unbalanced
validate_sum (some sum) t b =
    if not (is_zero sum)
    then unbalanced
    else if contains t.idem_key b.seen_keys
    then duplicate
    else elim (deltas t.postings []) [ none ↦ unbalanced | some m ↦ check_deltas b.balances m ]

-- Validate
unfoldable pub validate : Transfer → Book → SubmitStatus
validate t b =
    if ltb (length t.postings) min_postings || ltb max_postings (length t.postings)
    then bad_posting_count
    else validate_sum (sum_amounts (pos 0) t.postings) t b
