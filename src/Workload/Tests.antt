-- ===== src/Workload/Tests.antt =====
-- The stream of an engine that counts.
use iron_ledger.Common.{ℕ, ◌≡◌, ◌≤◌, refl, some, List, [], ◌∷◌, length, arith}
use iron_ledger.Ledger.Transfer.{Transfer}
use iron_ledger.Common.Int.{pos, negsuc, to_u64, to_i64, add_i64}
use iron_ledger.Workload.Counting.{counting, counting-IsVaried}
use iron_ledger.Workload.Legs.{IsSane}
use iron_ledger.Workload.Payment.{AreIssued}
use iron_ledger.Workload.Issue.{issue-AreIssued}
use iron_ledger.Workload.{
  WorkloadOptions, Workload, next, issue, pick_legs, pick_accounts, receive, pay, negate_i64,
}

abbrev two_accounts : WorkloadOptions
two_accounts = record { accounts = 2; funding = pos 100; max_amount = pos 10; max_postings = 4 }

third :
    issue counting two_accounts 9 3 (record { rng_state = 4; issued = 0 })
    ≡ some (
        record {
          idem_key = 1;
          postings =
              record { account = 0; amount = negsuc 99 }
              ∷ record { account = 1; amount = pos 100 }
              ∷ [];
        }
        ∷ record {
          idem_key = 2;
          postings =
              record { account = 0; amount = negsuc 99 }
              ∷ record { account = 2; amount = pos 100 }
              ∷ [];
        }
        ∷ record {
          idem_key = 3;
          postings =
              record { account = 2; amount = negsuc 7 }
              ∷ record { account = 1; amount = pos 8 }
              ∷ [];
        }
        ∷ [])
unfolding issue next pick_legs pick_accounts pay receive negate_i64 to_i64 to_u64 add_i64
third = refl

two_accounts-IsSane : IsSane two_accounts
two_accounts-IsSane = record {
  two = omega arith;
  few = omega arith;
  legs = omega arith;
  funds = refl;
  funds_fit = omega arith;
  amount_from = omega arith;
  amount_neg = refl;
  amount_to = omega arith;
}

abbrev start : Workload ℕ
start = record { rng_state = 4; issued = 0 }

issue-AreIssued_example :
    (fuel : ℕ) × (ts : List Transfer) × ((g : ℕ)
      → fuel ≤ g
      → issue counting two_accounts g 3 start ≡ some ts)
    × AreIssued two_accounts 0 ts
    × (length ts ≡ 3)
issue-AreIssued_example =
    issue-AreIssued counting two_accounts two_accounts-IsSane counting-IsVaried 3 start
      (omega arith)
