-- ===== src/Workload/Payment.antt =====
-- The transfers that `Next` can return: a funding or a payment, each with a sum of zero and as many
-- legs as a transfer may have.
use iron_ledger.Common.{
  ℕ, zero, suc, ◌+◌, ◌*◌, ◌^◌, ◌≤◌, ◌<◌, ◌≡◌, ◌⊎◌, inl, inr, refl, sym, ◌∙◌, ap, ap₂, subst, List,
  [], ◌∷◌, length, arith,
}
use iron_ledger.Common.Int.{
  ℤ, pos, negsuc, pos_part, neg_part, ◌+ℤ◌, IsI64, to_u64, to_i64, int_laws,
}
use iron_ledger.Ledger.Transfer.{Posting, Transfer, AreTyped, IsTyped}
use iron_ledger.Ledger.Book.Deltas.{sum}
use iron_ledger.Workload.{WorkloadOptions, receive, negate_i64, pay, fund}
use iron_ledger.Workload.Legs.{
  IsSane, AreReal, AreDistinct, AreReceipts, accounts_of, receive-IsReceived, IsReceived,
}

-- -n
abbrev pub minus : ℕ → ℤ
minus zero = pos 0
minus (suc n) = negsuc n

negate_pos : (n : ℕ) → n < 2 ^ 63 → negate_i64 (pos n) ≡ minus n
unfolding negate_i64 to_i64 to_u64
negate_pos zero h = refl
negate_pos (suc n) h = ground arith

minus-+ℤ : (n : ℕ) → minus n +ℤ pos n ≡ pos 0
minus-+ℤ zero = omega int_laws
minus-+ℤ (suc n) = omega int_laws

minus-IsI64 : (n : ℕ) → n < 2 ^ 63 → IsI64 (minus n)
minus-IsI64 zero h = omega arith
minus-IsI64 (suc n) h = omega arith

-- A payment: one account gives what the others, distinct and real, receive in amounts of 1 to the
-- largest.
pub record IsPayment (o : WorkloadOptions) (t : Transfer) : Type 0 where
  pub payer : ℕ
  pub receipts : List Posting
  pub paid : ℕ
  pub legs : t.postings ≡ record { account = payer; amount = minus paid } ∷ receipts
  pub real : AreReal o.accounts (payer ∷ accounts_of receipts)
  pub distinct : AreDistinct (payer ∷ accounts_of receipts)
  pub amounts : AreReceipts (pos_part o.max_amount) receipts
  pub total : sum receipts ≡ pos paid
  pub at_least : 1 ≤ length receipts
  pub at_most : length receipts ≤ 7
  pub bounded : paid ≤ 7 * pos_part o.max_amount

-- A transfer as the stream issues it under a key.
pub record IsIssued (o : WorkloadOptions) (key : ℕ) (t : Transfer) : Type 0 where
  pub same_key : t.idem_key ≡ key
  pub typed : IsTyped t
  pub at_least : 2 ≤ length t.postings
  pub at_most : length t.postings ≤ 8
  pub balanced : sum t.postings ≡ pos 0
  pub shape :
      ((key ≤ o.accounts)
        × (t.postings
            ≡ record { account = 0; amount = minus (pos_part o.funding) }
              ∷ record { account = key; amount = pos (pos_part o.funding) }
              ∷ []))
      ⊎ ((o.accounts < key) × IsPayment o t)

typed_receipts :
    (m n : ℕ) (ps : List Posting)
    → n < 2 ^ 32
    → m < 2 ^ 63
    → AreReal n (accounts_of ps)
    → AreReceipts m ps
    → AreTyped ps
typed_receipts m n [] few small h q = tt
typed_receipts m n (p ∷ ps) few small h q =
    (omega (arith, h.0, h.1), omega (arith, q.0, q.1, q.2), typed_receipts m n ps few small h.2 q.3)

length-accounts_of : (ps : List Posting) → length (accounts_of ps) ≡ length ps
length-accounts_of [] = refl
length-accounts_of (p ∷ ps) = omega (arith, length-accounts_of ps)

funds_cancel :
    (f key : ℕ)
    → sum (record { account = 0; amount = minus f } ∷ record { account = key; amount = pos f } ∷ [])
      ≡ pos 0
unfolding sum
funds_cancel zero key = omega int_laws
funds_cancel (suc f) key = omega int_laws

-- At most seven receive.
seven : (m n : ℕ) → n ≤ 7 → m * n ≤ 7 * m
seven m n h = grind arith

-- The transfers with the keys behind `from`, one after the other.
abbrev pub AreIssued : WorkloadOptions → ℕ → List Transfer → Type 0
AreIssued o from [] = Unit
AreIssued o from (t ∷ ts) = IsIssued o (from + 1) t × AreIssued o (from + 1) ts

module _ {S : Type 0} (rng : S → ℕ × S) (o : WorkloadOptions) (sane : IsSane o) where
  funding_pos : o.funding ≡ pos (pos_part o.funding)
  funding_pos = nonnegative o.funding sane.funds
    where
      nonnegative : (a : ℤ) → neg_part a ≡ 0 → a ≡ pos (pos_part a)
      nonnegative (pos n) e = refl
      nonnegative (negsuc n) e = absurd (omega arith)

  pub fund-IsIssued : (key : ℕ) → key ≤ o.accounts → IsIssued o key (fund rng o key)
  fund-IsIssued key h =
      let f = pos_part o.funding in
      let gives : negate_i64 o.funding ≡ minus f =
        ap negate_i64 funding_pos ∙ negate_pos f sane.funds_fit in
      let same : (fund rng o key).postings
          ≡ record { account = 0; amount = minus f }
            ∷ record { account = key; amount = pos f }
            ∷ [] =
        ap₂
          (λ (a b : ℤ).
            record { account = 0; amount = a } ∷ record { account = key; amount = b } ∷ [])
          gives funding_pos in
      record {
        same_key = refl;
        typed = (
          omega (arith, sane.few),
          subst AreTyped (sym same) (
            omega arith,
            minus-IsI64 f sane.funds_fit,
            (omega (arith, sane.few), (sane.funds_fit, omega arith), tt),
          ),
        );
        at_least = omega arith;
        at_most = omega arith;
        balanced = ap sum same ∙ funds_cancel f key;
        shape = inl (h, same);
      }

  -- The postings of a payment, with what was received.
  paid-IsIssued :
      (key payer : ℕ) (rest : List ℕ) (r : List Posting × ℤ × S)
      → o.accounts < key
      → key < 2 ^ 64
      → AreReal o.accounts (payer ∷ rest)
      → AreDistinct (payer ∷ rest)
      → 1 ≤ length rest
      → length rest ≤ 7
      → IsReceived rng o sane rest 0 r
      → IsIssued o key (record {
        idem_key = key;
        postings = record { account = payer; amount = negate_i64 r.1 } ∷ r.0;
      })
  paid-IsIssued key payer rest r above small real distinct lo hi
        (got, t, whole, from, to, amounts, names) =
      let m = pos_part o.max_amount in
      let bound : got ≤ 7 * m = omega (arith, seven m (length rest) hi) in
      let count : length r.0 ≡ length rest = sym (length-accounts_of r.0) ∙ ap length names in
      let got_small : got < 2 ^ 63 = omega (arith, sane.amount_to) in
      let gives : negate_i64 r.1 ≡ minus got =
        ap negate_i64 (t ∙ ap pos (omega arith)) ∙ negate_pos got got_small in
      let same : record { account = payer; amount = negate_i64 r.1 } ∷ r.0
          ≡ record { account = payer; amount = minus got } ∷ r.0 =
        ap (λ (a : ℤ). record { account = payer; amount = a } ∷ r.0) gives in
      let real' : AreReal o.accounts (accounts_of r.0) =
        subst (AreReal o.accounts) (sym names) real.2 in
      record {
        same_key = refl;
        typed = (
          small,
          subst AreTyped (sym same) (
            omega (arith, sane.few, real.1),
            minus-IsI64 got got_small,
            typed_receipts m o.accounts r.0 sane.few (omega (arith, sane.amount_to)) real' amounts,
          ),
        );
        at_least = omega arith;
        at_most = omega arith;
        balanced =
            ap sum same ∙ (unfold sum in ap (λ (z : ℤ). minus got +ℤ z) whole ∙ minus-+ℤ got);
        shape = inr (
          above,
          record {
            payer = payer;
            receipts = r.0;
            paid = got;
            legs = same;
            real = (real.0, real.1, real');
            distinct = subst (λ (xs : List ℕ). AreDistinct (payer ∷ xs)) (sym names) distinct;
            amounts = amounts;
            total = whole;
            at_least = omega arith;
            at_most = omega arith;
            bounded = bound;
          },
        );
      }

  pub pay-IsIssued :
      (key : ℕ) (chosen : List ℕ) (s : S)
      → o.accounts < key
      → key < 2 ^ 64
      → AreReal o.accounts chosen
      → AreDistinct chosen
      → 2 ≤ length chosen
      → length chosen ≤ 8
      → IsIssued o key (pay rng o key chosen s).0
  unfolding pay
  pay-IsIssued key [] s above small real distinct lo hi = absurd (omega arith)
  pay-IsIssued key (payer ∷ rest) s above small real distinct lo hi =
      paid-IsIssued key payer rest (receive rng o rest (pos 0) s) above small real distinct
        (omega arith) (omega arith)
        (receive-IsReceived rng o sane rest 0 s (
          omega (arith, seven (pos_part o.max_amount) (length rest) (omega arith), sane.amount_to)))
