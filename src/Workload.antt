-- ===== src/Workload.antt =====
-- tools/workload.h: the deterministic stream of transfers that every harness submits. The engine
-- std::mt19937_64 is a parameter, `rng`, which takes its state to a number and the next state.
pub mod Legs
pub mod Accounts
pub mod Payment
pub mod Moves
pub mod Accepted
pub mod Issue
pub mod Counting
mod Tests
use iron_ledger.Common.{
  ℕ, zero, suc, ◌+◌, ◌-◌, ◌%◌, ◌^◌, Bool, true, false, ◌||◌, Option, none, some, List, [], ◌∷◌,
  ◌++◌, ltb, leb, ◌==◌, if◌then◌else◌, length, arith,
}
use iron_ledger.Common.Int.{ℤ, pos, negsuc, to_u64, to_i64, add_i64}
use iron_ledger.Device.{contains}
use iron_ledger.Ledger.Transfer.{Posting, Transfer, min_postings}
use iron_ledger.Ledger.Book.{world_account}

-- WorkloadOptions; the seed is in the state of `rng`.
pub record WorkloadOptions : Type 0 where
  pub accounts : ℕ
  pub funding : ℤ
  pub max_amount : ℤ
  pub max_postings : ℕ

-- The defaults of the fields.
abbrev pub default_options : WorkloadOptions
default_options = record {
  accounts = 8;
  funding = pos 1_000_000_000_000;
  max_amount = pos 1000;
  max_postings = 4;
}

-- The other fields of `Workload`.
pub record Workload {ℓ} (S : Type ℓ) : Type ℓ where
  pub rng_state : S
  pub issued : ℕ

-- `-a` on int64_t, as two's complement hardware does it.
unfoldable pub negate_i64 : ℤ → ℤ
negate_i64 a = to_i64 (2 ^ 64 - to_u64 a)

module _ {ℓ} {S : Type ℓ} (rng : S → ℕ × S) (o : WorkloadOptions) where
  -- `hi` of `PickLegs`.
  abbrev pub most_legs : ℕ
  most_legs =
      let hi = if ltb o.max_postings min_postings then min_postings else o.max_postings in
      if ltb o.accounts hi then o.accounts else hi

  -- PickLegs, in uint32_t.
  unfoldable pub pick_legs : S → ℕ × S
  pick_legs s =
      let (v, s') = rng s in
      ((min_postings + v % ((most_legs + 2 ^ 32 - min_postings + 1) % 2 ^ 32)) % 2 ^ 32, s')

  -- The loop of `PickAccounts`, with a bound on its rounds; `none` if they run out.
  unfoldable pub pick_accounts : ℕ → ℕ → List ℕ → S → Option (List ℕ × S)
  pick_accounts zero n out s = none
  pick_accounts (suc fuel) n out s = elim (ltb (length out) n) [
    | false ↦ some (out, s)
    | true ↦
        let (v, s') = rng s in
        let a = 1 + v % o.accounts in
        elim (contains a out) [
          | true ↦ pick_accounts fuel n out s'
          | false ↦ pick_accounts fuel n (out ++ a ∷ []) s'
        ]
  ]

  -- The amount that a leg is given.
  abbrev pub amount_of : ℕ → ℤ
  amount_of v = add_i64 (pos 1) (to_i64 (v % to_u64 o.max_amount))

  -- The loop of `Next` over the accounts that receive: their postings, the total, and the engine.
  unfoldable pub receive : List ℕ → ℤ → S → List Posting × ℤ × S
  receive [] total s = ([], total, s)
  receive (a ∷ rest) total s =
      let (v, s') = rng s in
      let amount = amount_of v in
      let (ps, total', s'') = receive rest (add_i64 total amount) s' in
      (record { account = a; amount = amount } ∷ ps, total', s'')

  -- `Next` from the chosen accounts on. There are two at least, so that the first clause is never
  -- taken.
  unfoldable pub pay : ℕ → List ℕ → S → Transfer × S
  pay key [] s = (record { idem_key = key; postings = [] }, s)
  pay key (payer ∷ rest) s =
      let (ps, total, s') = receive rest (pos 0) s in
      (
        record {
          idem_key = key;
          postings = record { account = payer; amount = negate_i64 total } ∷ ps;
        },
        s',
      )

  -- The transfer that funds an account from the world.
  abbrev pub fund : ℕ → Transfer
  fund key = record {
    idem_key = key;
    postings =
        record { account = world_account; amount = negate_i64 o.funding }
        ∷ record { account = key; amount = o.funding }
        ∷ [];
  }

  -- Next; `none` only if `PickAccounts` takes more than `fuel` rounds.
  unfoldable pub next : ℕ → Workload S → Option (Transfer × Workload S)
  next fuel w =
      let key = (w.issued + 1) % 2 ^ 64 in
      if leb key o.accounts
      then some (fund key, record w { issued = key })
      else let (legs, s) = pick_legs w.rng_state in
        elim (pick_accounts fuel legs [] s) [
          | none ↦ none
          | some (chosen, s') ↦
              let (t, s'') = pay key chosen s' in some (t, record { rng_state = s''; issued = key })
        ]

  -- `for (i = 0; i < n; ++i) … w.Next() …`, as the list of the transfers.
  unfoldable pub issue : ℕ → ℕ → Workload S → Option (List Transfer)
  issue fuel zero w = some []
  issue fuel (suc n) w = elim (next fuel w) [
    | none ↦ none
    | some (t, w') ↦ elim (issue fuel n w') [ none ↦ none | some ts ↦ some (t ∷ ts) ]
  ]
