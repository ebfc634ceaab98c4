-- ===== src/Ledger/Book/Deltas.antt =====
-- What `Validate` computes: the sum of all amounts, and the net amount of every account.
use iron_ledger.Common.{
  ℕ, ◌≤◌, ◌≡◌, ◌≢◌, ◌⊎◌, inl, inr, refl, sym, ◌∙◌, ap, true, false, none, some, List, [], ◌∷◌, ◌==◌,
  ==_iff, if◌then◌else◌, length, arith, Option-cases, Bool-cases,
}
use mathlib.Core.Path.{subst₂}
use iron_ledger.Common.Int.{
  ℤ, pos, negsuc, ◌+ℤ◌, IsI64, is_negative, add_overflow, add_overflow-some, int_laws,
}
use iron_ledger.Device.{contains}
use iron_ledger.Ledger.Modes.{ok, unbalanced}
use iron_ledger.Ledger.Transfer.{Posting, Transfer}
use iron_ledger.Ledger.Book.{
  Balances, Book, find, balance, world_account, is_zero, sum_amounts, add_delta, deltas,
  check_deltas, validate_sum, validate,
}

-- The sum of the amounts, as integers.
unfoldable pub sum : List Posting → ℤ
sum [] = pos 0
sum (p ∷ ps) = p.amount +ℤ sum ps

-- The sum of the amounts of one account.
unfoldable pub net : ℕ → List Posting → ℤ
net k [] = pos 0
net k (p ∷ ps) = if p.account == k then p.amount +ℤ net k ps else net k ps

+ℤ_assoc : (a b c : ℤ) → a +ℤ b +ℤ c ≡ a +ℤ (b +ℤ c)
+ℤ_assoc a b c = omega int_laws

+ℤ-zero : (a : ℤ) → a +ℤ pos 0 ≡ a
+ℤ-zero a = omega int_laws

zero-+ℤ : (a : ℤ) → pos 0 +ℤ a ≡ a
zero-+ℤ a = omega int_laws

pub sum_amounts-some :
    (acc : ℤ) (ps : List Posting) (s : ℤ) → sum_amounts acc ps ≡ some s → s ≡ acc +ℤ sum ps
unfolding sum_amounts sum
sum_amounts-some acc [] s h = let e : acc ≡ s = cc in sym e ∙ (omega int_laws)
sum_amounts-some acc (p ∷ ps) s h = elim (Option-cases (add_overflow acc p.amount)) [
  | inl e ↦ ground (arith, e)
  | inr (a, e) ↦
      let tail : sum_amounts a ps ≡ some s = ground arith in
      let added = add_overflow-some acc p.amount a e in
      sum_amounts-some a ps s tail ∙ rw added.0 (+ℤ_assoc acc p.amount (sum ps))
]

balance-add_delta :
    (k j : ℕ) (a : ℤ) (m m' : Balances)
    → add_delta j a m ≡ some m'
    → balance k m' ≡ (if j == k then balance k m +ℤ a else balance k m)
unfolding add_delta balance find
balance-add_delta k j a [] m' h = elim (Option-cases (add_overflow (pos 0) a)) [
  | inl e ↦ ground (arith, e)
  | inr (s, e) ↦ ground (arith, e, add_overflow-some (pos 0) a s e)
]
balance-add_delta k j a ((i, v) ∷ m) m' h = elim (Option-cases (add_overflow v a)) [
  | inl e ↦ elim (Option-cases (add_delta j a m)) [
    | inl f ↦ ground (arith, e, f)
    | inr (n, f) ↦ ground (arith, e, f, balance-add_delta k j a m n f)
  ]
  | inr (s, e) ↦ elim (Option-cases (add_delta j a m)) [
    | inl f ↦ ground (arith, e, f, add_overflow-some v a s e)
    | inr (n, f) ↦ ground (arith, e, f, add_overflow-some v a s e, balance-add_delta k j a m n f)
  ]
]

balance-deltas :
    (k : ℕ) (ps : List Posting) (m m' : Balances)
    → deltas ps m ≡ some m'
    → balance k m' ≡ balance k m +ℤ net k ps
unfolding deltas net
balance-deltas k [] m m' h = let e : m ≡ m' = cc in rw (← e) (omega int_laws)
balance-deltas k (p ∷ ps) m m' h = elim (Option-cases (add_delta p.account p.amount m)) [
  | inl e ↦ ground (arith, e)
  | inr (n, e) ↦
      let tail : deltas ps n ≡ some m' = ground arith in
      balance-deltas k ps n m' tail
      ∙ ground (
        arith,
        balance-add_delta k p.account p.amount m n e,
        +ℤ_assoc (balance k m) p.amount (net k ps),
      )
]

not_world :
    (b : Balances) (j : ℕ) (v : ℤ)
    → (j ≡ 0) ⊎ (IsI64 (balance j b +ℤ v) × (is_negative (balance j b +ℤ v) ≡ false))
    → j ≢ 0
    → IsI64 (balance j b +ℤ v) × (is_negative (balance j b +ℤ v) ≡ false)
not_world b j v (inl z) ne = absurd (ne z)
not_world b j v (inr h) ne = h

-- One round of the third loop that lets an account other than the world's pass.
check_round :
    (b m : Balances) (j : ℕ) (v : ℤ)
    → check_deltas b ((j, v) ∷ m) ≡ ok
    → (check_deltas b m ≡ ok)
      × ((j ≡ 0) ⊎ (IsI64 (balance j b +ℤ v) × (is_negative (balance j b +ℤ v) ≡ false)))
unfolding check_deltas
check_round b m j v h = elim (Option-cases (add_overflow (balance j b) v)) [
  | inl f ↦ ground (arith, f)
  | inr (s, f) ↦
      let added = add_overflow-some (balance j b) v s f in
      rw (← added.0) (ground (arith, f, added.1))
]

-- The verdict of the third loop on one account.
check_deltas_ok :
    (k : ℕ) (b m : Balances) (d : ℤ)
    → check_deltas b m ≡ ok
    → k ≢ world_account
    → find k m ≡ some d
    → IsI64 (balance k b +ℤ d) × (is_negative (balance k b +ℤ d) ≡ false)
unfolding find
check_deltas_ok k b [] d h ne e = cc
check_deltas_ok k b ((j, v) ∷ m) d h ne e =
    let now = check_round b m j v h in
    elim (Bool-cases (j == k)) [
      | inl same ↦
          let p : j ≡ k = (==_iff j k).0 same in
          let q : v ≡ d = ground arith in
          subst₂ (λ x y. IsI64 (balance x b +ℤ y) × (is_negative (balance x b +ℤ y) ≡ false)) p q
            (not_world b j v now.1 (λ z. ne (sym p ∙ z)))
      | inr other ↦ check_deltas_ok k b m d now.0 ne (ground arith)
    ]

-- What `Validate` has made sure of when it accepts a transfer.
pub record IsAcceptable (t : Transfer) (b : Book) : Type 0 where
  pub at_least : 2 ≤ length t.postings
  pub at_most : length t.postings ≤ 8
  pub balanced : sum t.postings ≡ pos 0
  pub new_key : contains t.idem_key b.seen_keys ≡ false
  pub funded :
      (k : ℕ)
      → k ≢ world_account
      → (balance k b.balances +ℤ net k t.postings ≡ balance k b.balances)
        ⊎ (IsI64 (balance k b.balances +ℤ net k t.postings)
            × (is_negative (balance k b.balances +ℤ net k t.postings) ≡ false))

zero_of : (s : ℤ) → is_zero s ≡ true → s ≡ pos 0
zero_of (pos n) h = ap pos ((==_iff n 0).0 h)
zero_of (negsuc n) h = cc

validate_none : (t : Transfer) (b : Book) → validate_sum none t b ≡ unbalanced
unfolding validate_sum
validate_none t b = refl

pub net-balance :
    (k : ℕ) (t : Transfer) (m : Balances)
    → deltas t.postings [] ≡ some m
    → balance k m ≡ net k t.postings
net-balance k t m e =
    balance-deltas k t.postings [] m e ∙ (unfold balance find in zero-+ℤ (net k t.postings))

no_delta : (k : ℕ) (b m : Balances) → find k m ≡ none → balance k b +ℤ balance k m ≡ balance k b
no_delta k b m f =
    let e : balance k m ≡ pos 0 = (unfold balance in rw f) in rw e (+ℤ-zero (balance k b))

pub balance_found : (k : ℕ) (m : Balances) (d : ℤ) → find k m ≡ some d → balance k m ≡ d
unfolding balance
balance_found k m d f = rw f

validate_sum_ok :
    (t : Transfer) (b : Book) (s : ℤ)
    → validate_sum (some s) t b ≡ ok
    → (s ≡ pos 0)
      × (contains t.idem_key b.seen_keys ≡ false)
      × (m : Balances) × (deltas t.postings [] ≡ some m)
      × (check_deltas b.balances m ≡ ok)
unfolding validate_sum
validate_sum_ok t b s h = elim (Option-cases (deltas t.postings [])) [
  | inl e ↦ ground (arith, e)
  | inr (m, e) ↦ (zero_of s (ground (arith, e)), ground (arith, e), m, e, ground (arith, e))
]

validate_ok :
    (t : Transfer) (b : Book)
    → validate t b ≡ ok
    → (2 ≤ length t.postings)
      × (length t.postings ≤ 8)
      × (s : ℤ) × (sum_amounts (pos 0) t.postings ≡ some s)
      × (validate_sum (some s) t b ≡ ok)
unfolding validate
validate_ok t b h = elim (Option-cases (sum_amounts (pos 0) t.postings)) [
  | inl e ↦ ground (arith, e, validate_none t b)
  | inr (s, e) ↦ (ground (arith, e), ground (arith, e), s, e, ground (arith, e))
]

net_of_delta :
    (k : ℕ) (t : Transfer) (b m : Balances)
    → deltas t.postings [] ≡ some m
    → check_deltas b m ≡ ok
    → k ≢ world_account
    → (balance k b +ℤ net k t.postings ≡ balance k b)
      ⊎ (IsI64 (balance k b +ℤ net k t.postings)
          × (is_negative (balance k b +ℤ net k t.postings) ≡ false))
net_of_delta k t b m e c ne =
    let total = net-balance k t m e in
    elim (Option-cases (find k m)) [
      | inl f ↦ inl (rw (← total) (no_delta k b m f))
      | inr (d, f) ↦ inr (rw (← total, balance_found k m d f) (check_deltas_ok k b m d c ne f))
    ]

-- Validate accepts a transfer only if it has 2 to 8 postings that sum to zero, its key is new,
-- and every account but the world's is either left at its balance by the net amount or ends with
-- a balance that is not negative and fits an int64_t.
pub validate-IsAcceptable : (t : Transfer) (b : Book) → validate t b ≡ ok → IsAcceptable t b
validate-IsAcceptable t b h =
    let (lo, hi, s, e, rest) = validate_ok t b h in
    let (zero_sum, fresh_key, m, f, checked) = validate_sum_ok t b s rest in
    record {
      at_least = lo;
      at_most = hi;
      balanced =
          sym (zero-+ℤ (sum t.postings)) ∙ sym (sum_amounts-some (pos 0) t.postings s e) ∙ zero_sum;
      new_key = fresh_key;
      funded = λ k ne. net_of_delta k t b.balances m f checked ne;
    }
