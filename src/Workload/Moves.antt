-- ===== src/Workload/Moves.antt =====
-- What an issued transfer moves: the net amount of each account, and the sums over the legs.
use iron_ledger.Common.{
  ℕ, zero, suc, ◌*◌, ◌^◌, ◌≤◌, ◌<◌, ◌≡◌, ◌≢◌, ◌⊎◌, inl, inr, refl, sym, ◌∙◌, ap, subst, true, false,
  List, [], ◌∷◌, ◌==◌, ==_iff, ltb, Bool-cases, arith,
}
use iron_ledger.Common.Int.{ℤ, pos, pos_part, neg_part, ◌+ℤ◌, int_laws}
use iron_ledger.Device.{contains}
use iron_ledger.Ledger.Transfer.{Posting, Transfer}
use iron_ledger.Ledger.Book.{world_account}
use iron_ledger.Ledger.Book.Deltas.{sum, net}
use iron_ledger.Ledger.Book.Complete.{gains, losses, IsModest, +ℤ_parts_le}
use iron_ledger.Workload.{WorkloadOptions}
use iron_ledger.Workload.Legs.{AreReal, AreReceipts, accounts_of}
use iron_ledger.Workload.Payment.{IsIssued, IsPayment, minus}

-- The most that one transfer moves: seven legs receive.
abbrev pub most_moved : WorkloadOptions → ℕ
most_moved o = 7 * pos_part o.max_amount

-- How the account `k`, not the world's, comes out of the transfer of a key.
abbrev pub IsMoved : WorkloadOptions → ℕ → ℕ → ℤ → Type 0
IsMoved o key k d =
    ((d ≡ pos 0) × ((k ≢ key) ⊎ (o.accounts < key)))
    ⊎ (((k ≡ key) × (key ≤ o.accounts) × (d ≡ pos (pos_part o.funding)))
        ⊎ ((k ≤ o.accounts)
            × (o.accounts < key)
            × (pos_part d ≤ most_moved o)
            × (neg_part d ≤ most_moved o)))

receipts_add :
    (m : ℕ) (ps : List Posting) → AreReceipts m ps → (sum ps ≡ pos (gains ps)) × (losses ps ≡ 0)
unfolding sum
receipts_add m [] h = (refl, refl)
receipts_add m (p ∷ ps) h =
    let tail = receipts_add m ps h.3 in
    (rw tail.0 (omega (int_laws, h.0)), omega (arith, tail.1, h.0))

net-receipts :
    (m k : ℕ) (ps : List Posting)
    → AreReceipts m ps
    → (neg_part (net k ps) ≡ 0) × (pos_part (net k ps) ≤ gains ps)
unfolding net
net-receipts m k [] h = (refl, omega arith)
net-receipts m k (p ∷ ps) h =
    let tail = net-receipts m k ps h.3 in
    elim (Bool-cases (p.account == k)) [
      | inl e ↦
          let add = +ℤ_parts_le p.amount (net k ps) in
          rw e (omega (arith, add.1, h.0, tail.0), omega (arith, add.0, tail.1))
      | inr e ↦ rw e (tail.0, omega (arith, tail.1))
    ]

net_absent : (k : ℕ) (ps : List Posting) → contains k (accounts_of ps) ≡ false → net k ps ≡ pos 0
unfolding net
net_absent k [] h = refl
net_absent k (p ∷ ps) h = ground (arith, net_absent k ps)

absent_of_real : (n k : ℕ) (xs : List ℕ) → AreReal n xs → n < k → contains k xs ≡ false
absent_of_real n k [] h lt = refl
absent_of_real n k (a ∷ xs) h lt = ground (arith, absent_of_real n k xs h.2 lt)

minus_parts : (n : ℕ) → (pos_part (minus n) ≡ 0) × (neg_part (minus n) ≡ n)
minus_parts zero = (refl, refl)
minus_parts (suc n) = (refl, refl)

-- The two legs that fund an account.
abbrev funding_legs : ℕ → ℕ → List Posting
funding_legs f key =
    record { account = 0; amount = minus f } ∷ record { account = key; amount = pos f } ∷ []

pos_zero : (f : ℕ) → pos f +ℤ pos 0 ≡ pos f
pos_zero f = omega int_laws

world_apart : (k : ℕ) → k ≢ world_account → (0 == k) ≡ false
world_apart k ne = ground arith

funding_net :
    (f key k : ℕ)
    → k ≢ world_account
    → ((net k (funding_legs f key) ≡ pos 0) × (k ≢ key))
      ⊎ ((k ≡ key) × (net k (funding_legs f key) ≡ pos f))
unfolding net
funding_net f key k ne = elim (Bool-cases (key == k)) [
  | inl e ↦ inr (sym ((==_iff key k).0 e), rw (e, world_apart k ne) (pos_zero f))
  | inr e ↦ inl (rw (e, world_apart k ne) refl, ground (arith, e))
]

-- The legs of a payment.
abbrev payment_legs : ℕ → ℕ → List Posting → List Posting
payment_legs payer paid receipts = record { account = payer; amount = minus paid } ∷ receipts

payment_net :
    (m payer paid k : ℕ) (ps : List Posting)
    → AreReceipts m ps
    → contains payer (accounts_of ps) ≡ false
    → gains ps ≡ paid
    → (pos_part (net k (payment_legs payer paid ps)) ≤ paid)
      × (neg_part (net k (payment_legs payer paid ps)) ≤ paid)
payment_net m payer paid k ps h apart e =
    let parts = minus_parts paid in
    elim (Bool-cases (payer == k)) [
      | inl same ↦
          let alone : net k ps ≡ pos 0 =
            net_absent k ps
              (subst (λ j. contains j (accounts_of ps) ≡ false) ((==_iff payer k).0 same) apart) in
          let add = +ℤ_parts_le (minus paid) (pos 0) in
          unfold net in
          rw (same, alone) (omega (arith, add.0, parts.0), omega (arith, add.1, parts.1))
      | inr other ↦
          let got = net-receipts m k ps h in
          unfold net in rw other (omega (arith, got.1), omega (arith, got.0))
    ]

paid_gains : (o : WorkloadOptions) (t : Transfer) (p : IsPayment o t) → gains p.receipts ≡ p.paid
paid_gains o t p =
    ap pos_part (sym (receipts_add (pos_part o.max_amount) p.receipts p.amounts).0 ∙ p.total)

module _ (o : WorkloadOptions) (key : ℕ) (t : Transfer) (h : IsIssued o key t) where
  moves_funding :
      (k : ℕ)
      → k ≢ world_account
      → key ≤ o.accounts
      → t.postings ≡ funding_legs (pos_part o.funding) key
      → IsMoved o key k (net k t.postings)
  moves_funding k ne le e =
      subst (λ ps. IsMoved o key k (net k ps)) (sym e)
        (elim (funding_net (pos_part o.funding) key k ne) [
          | inl (none, other) ↦ inl (none, inl other)
          | inr (same, d) ↦ inr (inl (same, le, d))
        ])

  moves_payment : (k : ℕ) → o.accounts < key → IsPayment o t → IsMoved o key k (net k t.postings)
  moves_payment k lt p =
      subst (λ ps. IsMoved o key k (net k ps)) (sym p.legs)
        (elim (Bool-cases (contains k (accounts_of (payment_legs p.payer p.paid p.receipts)))) [
          | inl named ↦
              let d =
                payment_net (pos_part o.max_amount) p.payer p.paid k p.receipts p.amounts
                  p.distinct.0 (paid_gains o t p) in
              inr (
                inr (
                  real_named k p.payer p.receipts p.real named,
                  lt,
                  omega (arith, d.0, p.bounded),
                  omega (arith, d.1, p.bounded),
                ))
          | inr apart ↦ inl (net_absent k (payment_legs p.payer p.paid p.receipts) apart, inr lt)
        ])
    where
      real_named :
          (k payer : ℕ) (ps : List Posting)
          → AreReal o.accounts (payer ∷ accounts_of ps)
          → contains k (payer ∷ accounts_of ps) ≡ true
          → k ≤ o.accounts
      real_named k payer ps r named = elim (Bool-cases (ltb o.accounts k)) [
        | inl above ↦
            absurd (ground (arith, absent_of_real o.accounts k (payer ∷ accounts_of ps) r))
        | inr below ↦ ground arith
      ]

  -- Every account but the world's is left alone, is funded, or gains or loses a bounded amount.
  pub moves : (k : ℕ) → k ≢ world_account → IsMoved o key k (net k t.postings)
  moves k ne = elim h.shape [
    | inl (le, e) ↦ moves_funding k ne le e
    | inr (lt, p) ↦ moves_payment k lt p
  ]

  -- No sum over its legs overflows.
  pub issued-IsModest :
      pos_part o.funding < 2 ^ 63 → 8 * pos_part o.max_amount < 2 ^ 63 → IsModest t
  issued-IsModest fits small = elim h.shape [
    | inl (le, e) ↦
        let parts = minus_parts (pos_part o.funding) in
        subst (λ ps. (gains ps < 2 ^ 63) × (losses ps ≤ 2 ^ 63)) (sym e)
          (omega (arith, parts.0, parts.1), omega (arith, parts.0, parts.1))
    | inr (lt, p) ↦
        let parts = minus_parts p.paid in
        let whole = receipts_add (pos_part o.max_amount) p.receipts p.amounts in
        subst (λ ps. (gains ps < 2 ^ 63) × (losses ps ≤ 2 ^ 63)) (sym p.legs)
          (
            omega (arith, parts.0, paid_gains o t p, p.bounded),
            omega (arith, parts.1, whole.1, p.bounded),
          )
  ]
