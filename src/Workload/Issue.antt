-- ===== src/Workload/Issue.antt =====
-- `Next` returns, and issues dense keys.
use iron_ledger.Common.{
  ℕ, zero, suc, ◌+◌, ◌%◌, ◌^◌, ◌≤◌, ◌<◌, ◌≡◌, inl, inr, refl, subst, true, false, Bool-cases, some,
  List, [], ◌∷◌, leb, length, arith,
}
use iron_ledger.Ledger.Transfer.{Transfer}
use iron_ledger.Workload.{
  WorkloadOptions, Workload, pick_legs, pick_accounts, pay, fund, next, issue,
}
use iron_ledger.Workload.Legs.{IsSane, pick_legs_bounds}
use iron_ledger.Workload.Accounts.{IsVaried, pick_accounts-AreChosen, pick_from}
use iron_ledger.Workload.Payment.{IsIssued, AreIssued, fund-IsIssued, pay-IsIssued}

module _ {S : Type 0} (rng : S → ℕ × S) (o : WorkloadOptions) (sane : IsSane o) where
  module _ (fuel : ℕ) (w : Workload S) where
    next_funds :
        leb ((w.issued + 1) % 2 ^ 64) o.accounts ≡ true
        → next rng o fuel w
          ≡ some
              (fund rng o ((w.issued + 1) % 2 ^ 64), record w { issued = (w.issued + 1) % 2 ^ 64 })
    unfolding next
    next_funds e = rw e refl

    next_pays :
        (res : List ℕ × S)
        → leb ((w.issued + 1) % 2 ^ 64) o.accounts ≡ false
        → pick_accounts rng o fuel
            (pick_legs rng o w.rng_state).0
            []
            (pick_legs rng o w.rng_state).1
          ≡ some res
        → next rng o fuel w
          ≡ some (
            (pay rng o ((w.issued + 1) % 2 ^ 64) res.0 res.1).0,
            record {
              rng_state = (pay rng o ((w.issued + 1) % 2 ^ 64) res.0 res.1).1;
              issued = (w.issued + 1) % 2 ^ 64;
            },
          )
    unfolding next
    next_pays res e f = ground arith

  -- `Next` returns the transfer of the next key.
  pub next-IsIssued :
      (varied : IsVaried rng o.accounts) (w : Workload S)
      → w.issued + 1 < 2 ^ 64
      → (fuel : ℕ) × (t : Transfer) × (w' : Workload S) × ((g : ℕ)
          → fuel ≤ g
          → next rng o g w ≡ some (t, w'))
        × IsIssued o (w.issued + 1) t
        × (w'.issued ≡ w.issued + 1)
  next-IsIssued varied w small =
      let key = (w.issued + 1) % 2 ^ 64 in
      let same : key ≡ w.issued + 1 = omega arith in
      elim (Bool-cases (leb key o.accounts)) [
        | inl e ↦ (
          0,
          fund rng o key,
          record w { issued = key },
          λ g _. next_funds g w e,
          subst (λ (k : ℕ). IsIssued o k (fund rng o key)) same
              (fund-IsIssued rng o sane key (ground arith)),
          same,
        )
        | inr e ↦
            let s = (pick_legs rng o w.rng_state).1 in
            let legs = pick_legs_bounds rng o sane w.rng_state in
            let (fuel, res, picked, (real, distinct, count)) =
              pick_accounts-AreChosen rng o varied (pick_legs rng o w.rng_state).0 s
                (omega (arith, sane.two)) legs.2 in
            (
              fuel,
              (pay rng o key res.0 res.1).0,
              record { rng_state = (pay rng o key res.0 res.1).1; issued = key },
              λ g h.
                  next_pays g w res e
                    (pick_from rng o fuel g (pick_legs rng o w.rng_state).0 [] s res h picked),
              subst (λ (k : ℕ). IsIssued o k (pay rng o key res.0 res.1).0) same
                  (pay-IsIssued rng o sane key res.0 res.1 (ground arith) (omega arith) real
                    distinct (omega (arith, legs.0)) (omega (arith, legs.1))),
              same,
            )
      ]

  -- The transfers are issued under the keys behind `from`, without a gap.
  issue_step :
      (g n : ℕ) (w w' : Workload S) (t : Transfer) (ts : List Transfer)
      → next rng o g w ≡ some (t, w')
      → issue rng o g n w' ≡ some ts
      → issue rng o g (suc n) w ≡ some (t ∷ ts)
  unfolding issue
  issue_step g n w w' t ts e f = ground arith

  -- For options with at least two and less than 2 ^ 32 accounts, at most 8 postings, a funding
  -- that is not negative and a positive largest amount, both small enough for int64_t, and an
  -- engine that does not repeat chosen accounts for ever: the generator returns every count of
  -- transfers that ends below 2 ^ 64. Their keys are dense. The first ones fund the accounts from
  -- the world, one each. The others move money from one real account to one to seven others, all
  -- distinct, with amounts of 1 to the largest. All have 2 to 8 postings, a sum of zero and
  -- integers in the range of their C++ types.
  pub issue-AreIssued :
      (varied : IsVaried rng o.accounts) (n : ℕ) (w : Workload S)
      → w.issued + n < 2 ^ 64
      → (fuel : ℕ) × (ts : List Transfer) × ((g : ℕ) → fuel ≤ g → issue rng o g n w ≡ some ts)
        × AreIssued o w.issued ts
        × (length ts ≡ n)
  issue-AreIssued varied zero w small = (0, [], λ g _. (unfold issue in refl), tt, refl)
  issue-AreIssued varied (suc n) w small =
      let (fuel, t, w', made, issued, count) = next-IsIssued varied w (omega arith) in
      let (more, ts, rest, all, size) = issue-AreIssued varied n w' (omega arith) in
      (
        fuel + more,
        t ∷ ts,
        λ g h. issue_step g n w w' t ts (made g (omega arith)) (rest g (omega arith)),
        (issued, subst (λ (k : ℕ). AreIssued o k ts) count all),
        omega arith,
      )
