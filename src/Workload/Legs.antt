-- ===== src/Workload/Legs.antt =====
-- What `PickLegs`, `PickAccounts` and the loop of `Next` return.
use native.Mathlib.Nat.{mod-lt, mul-suc}
use iron_ledger.Common.{
  ℕ, ◌+◌, ◌-◌, ◌*◌, ◌%◌, ◌^◌, ◌≤◌, ◌<◌, ◌≡◌, refl, sym, ◌∙◌, ap, subst, false, List, [], ◌∷◌, ◌++◌,
  ◌==◌, length, arith,
}
use iron_ledger.Common.Int.{
  ℤ, pos, negsuc, pos_part, neg_part, ◌+ℤ◌, to_u64, to_i64, add_i64, int_laws,
}
use iron_ledger.Device.{contains}
use iron_ledger.Ledger.Transfer.{Posting}
use iron_ledger.Ledger.Book.Deltas.{sum}
use iron_ledger.Workload.{
  WorkloadOptions, default_options, most_legs, pick_legs, amount_of, receive,
}

-- Options with which no number of the generator overflows and no loop of it lacks accounts.
pub record IsSane (o : WorkloadOptions) : Type 0 where
  pub two : 2 ≤ o.accounts
  pub few : o.accounts < 2 ^ 32
  pub legs : o.max_postings ≤ 8
  pub funds : neg_part o.funding ≡ 0
  pub funds_fit : pos_part o.funding < 2 ^ 63
  pub amount_from : 0 < pos_part o.max_amount
  pub amount_neg : neg_part o.max_amount ≡ 0
  pub amount_to : 8 * pos_part o.max_amount < 2 ^ 63

pub default_options-IsSane :
    (n : ℕ) → 2 ≤ n → n < 2 ^ 32 → IsSane (record default_options { accounts = n })
default_options-IsSane n two few = record {
  two = two;
  few = few;
  legs = omega arith;
  funds = refl;
  funds_fit = omega arith;
  amount_from = omega arith;
  amount_neg = refl;
  amount_to = omega arith;
}

-- The accounts of a list are real ones, 1 to `n`.
abbrev pub AreReal : ℕ → List ℕ → Type 0
AreReal n [] = Unit
AreReal n (a ∷ xs) = (1 ≤ a) × (a ≤ n) × AreReal n xs

abbrev pub AreDistinct : List ℕ → Type 0
AreDistinct [] = Unit
AreDistinct (a ∷ xs) = (contains a xs ≡ false) × AreDistinct xs

-- Postings that receive an amount of 1 to `m`.
abbrev pub AreReceipts : ℕ → List Posting → Type 0
AreReceipts m [] = Unit
AreReceipts m (p ∷ ps) =
    (neg_part p.amount ≡ 0) × (1 ≤ pos_part p.amount) × (pos_part p.amount ≤ m) × AreReceipts m ps

abbrev pub accounts_of : List Posting → List ℕ
accounts_of [] = []
accounts_of (p ∷ ps) = p.account ∷ accounts_of ps

pub AreReal-snoc : (n a : ℕ) (xs : List ℕ) → AreReal n xs → 1 ≤ a → a ≤ n → AreReal n (xs ++ a ∷ [])
AreReal-snoc n a [] h p q = (p, q, tt)
AreReal-snoc n a (b ∷ xs) h p q = (h.0, h.1, AreReal-snoc n a xs h.2 p q)

contains-snoc_false :
    (a b : ℕ) (xs : List ℕ)
    → contains b xs ≡ false
    → (b == a) ≡ false
    → contains b (xs ++ a ∷ []) ≡ false
contains-snoc_false a b [] h e = ground arith
contains-snoc_false a b (c ∷ xs) h e = ground (arith, contains-snoc_false a b xs)

pub AreDistinct-snoc :
    (a : ℕ) (xs : List ℕ) → AreDistinct xs → contains a xs ≡ false → AreDistinct (xs ++ a ∷ [])
AreDistinct-snoc a [] h e = (refl, tt)
AreDistinct-snoc a (b ∷ xs) h e =
    (contains-snoc_false a b xs h.0 (ground arith), AreDistinct-snoc a xs h.1 (ground arith))

pub length-snoc : (a : ℕ) (xs : List ℕ) → length (xs ++ a ∷ []) ≡ length xs + 1
length-snoc a [] = refl
length-snoc a (b ∷ xs) = omega (arith, length-snoc a xs)

amount_pos :
    (m : ℤ) (v : ℕ)
    → neg_part m ≡ 0
    → 0 < pos_part m
    → 8 * pos_part m < 2 ^ 63
    → add_i64 (pos 1) (to_i64 (v % to_u64 m)) ≡ pos (1 + v % pos_part m)
unfolding add_i64 to_i64 to_u64
amount_pos (pos n) v h p q =
    let r : v % n < n = mod-lt v p in
    let same : n % 2 ^ 64 ≡ n = omega arith in rw same (ground arith)
amount_pos (negsuc n) v h p q = absurd (omega arith)

pos_sum : (a b : ℕ) → pos a +ℤ pos b ≡ pos (a + b)
pos_sum a b = omega int_laws

add_pos : (a b : ℕ) → a + b < 2 ^ 63 → add_i64 (pos a) (pos b) ≡ pos (a + b)
unfolding add_i64 to_i64 to_u64
add_pos a b h = ground arith

most_legs_bounds :
    {S : Type 0} (rng : S → ℕ × S) (o : WorkloadOptions)
    → IsSane o
    → (2 ≤ most_legs rng o) × (most_legs rng o ≤ 8) × (most_legs rng o ≤ o.accounts)
most_legs_bounds rng o sane = ground arith

legs_in_span :
    (v hi : ℕ)
    → 2 ≤ hi
    → hi ≤ 8
    → (2 ≤ (2 + v % ((hi + 2 ^ 32 - 2 + 1) % 2 ^ 32)) % 2 ^ 32)
      × ((2 + v % ((hi + 2 ^ 32 - 2 + 1) % 2 ^ 32)) % 2 ^ 32 ≤ hi)
legs_in_span v hi p q =
    let span : (hi + 2 ^ 32 - 2 + 1) % 2 ^ 32 ≡ hi - 1 = omega arith in
    let r : v % (hi - 1) < hi - 1 = mod-lt v (omega arith) in rw span (omega arith)

module _ {S : Type 0} (rng : S → ℕ × S) (o : WorkloadOptions) (sane : IsSane o) where
  -- `PickLegs` returns 2 to 8 legs, and no more than there are accounts.
  pub pick_legs_bounds :
      (s : S)
      → (2 ≤ (pick_legs rng o s).0)
        × ((pick_legs rng o s).0 ≤ 8)
        × ((pick_legs rng o s).0 ≤ o.accounts)
  unfolding pick_legs
  pick_legs_bounds s =
      let most = most_legs_bounds rng o sane in
      let span = legs_in_span (rng s).0 (most_legs rng o) most.0 most.1 in
      (span.0, omega (arith, span.1, most.1), omega (arith, span.1, most.2))

  pub amount_of_lem : (v : ℕ) → amount_of rng o v ≡ pos (1 + v % pos_part o.max_amount)
  amount_of_lem v = amount_pos o.max_amount v sane.amount_neg sane.amount_from sane.amount_to

  -- What the loop over the accounts that receive returns, started with a total.
  abbrev pub IsReceived : List ℕ → ℕ → List Posting × ℤ × S → Type 0
  IsReceived rest total r =
      (got : ℕ) × (r.1 ≡ pos (total + got))
      × (sum r.0 ≡ pos got)
      × (length rest ≤ got)
      × (got ≤ pos_part o.max_amount * length rest)
      × AreReceipts (pos_part o.max_amount) r.0
      × (accounts_of r.0 ≡ rest)

  IsReceived-first :
      (a : ℕ) (rest : List ℕ) (total x : ℕ) (r : List Posting × ℤ × S)
      → 1 ≤ x
      → x ≤ pos_part o.max_amount
      → IsReceived rest (total + x) r
      → IsReceived (a ∷ rest) total (record { account = a; amount = pos x } ∷ r.0, r.1, r.2)
  IsReceived-first a rest total x r lo hi (got, t, whole, from, to, legs, names) = (
    x + got,
    t ∙ ap pos (omega arith),
    (unfold sum in ap (λ (z : ℤ). pos x +ℤ z) whole ∙ pos_sum x got),
    omega arith,
    omega (arith, mul-suc (pos_part o.max_amount) (length rest)),
    (refl, lo, hi, legs),
    ap (◌∷◌ a) names,
  )

  receive_step :
      (a : ℕ) (rest : List ℕ) (total : ℤ) (s : S) (amount next : ℤ)
      → amount_of rng o (rng s).0 ≡ amount
      → add_i64 total amount ≡ next
      → receive rng o (a ∷ rest) total s ≡ (
        record { account = a; amount = amount } ∷ (receive rng o rest next (rng s).1).0,
        (receive rng o rest next (rng s).1).1,
        (receive rng o rest next (rng s).1).2,
      )
  unfolding receive
  receive_step a rest total s amount next e f = rw (← f, ← e) refl

  pub receive-IsReceived :
      (rest : List ℕ) (total : ℕ) (s : S)
      → total + pos_part o.max_amount * length rest < 2 ^ 63
      → IsReceived rest total (receive rng o rest (pos total) s)
  receive-IsReceived [] total s h =
      unfold receive sum in (0, ap pos (omega arith), refl, omega arith, omega arith, tt, refl)
  receive-IsReceived (a ∷ rest) total s h =
      let v = (rng s).0 in
      let x : ℕ = 1 + v % pos_part o.max_amount in
      let small : v % pos_part o.max_amount < pos_part o.max_amount = mod-lt v sane.amount_from in
      let room = mul-suc (pos_part o.max_amount) (length rest) in
      subst (IsReceived (a ∷ rest) total)
        (sym (
          receive_step a rest (pos total) s (pos x) (pos (total + x)) (amount_of_lem v)
            (add_pos total x (omega arith))))
        (IsReceived-first a rest total x (receive rng o rest (pos (total + x)) (rng s).1)
          (omega arith) (omega arith) (receive-IsReceived rest (total + x) (rng s).1 (omega arith)))
