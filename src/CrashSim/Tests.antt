-- ===== src/CrashSim/Tests.antt =====
-- A campaign of two trials in each kind of mode.
mod Main
use iron_ledger.Common.{ℕ, ◌+◌, ◌≡◌, ◌≤◌, refl, true, false, none, some, [], ◌∷◌, arith}
use iron_ledger.Device.{Draw}
use iron_ledger.Device.PowerCut.{InRange}
use iron_ledger.Ledger.Modes.{sync_every, group_commit, lazy_sync}
use iron_ledger.Workload.Counting.{counting, counting-IsVaried}
use iron_ledger.Workload.Legs.{IsSane}
use iron_ledger.CrashSim.{Config, Params, make_workload}
use iron_ledger.CrashSim.Campaign.{
  Engines, Tally, Selection, configs_with, configs_of, run_campaign, run_selected,
}
use iron_ledger.CrashSim.Totals.{run_campaign-passes, run_campaign-acks_lost, run_selected-returned}

abbrev few_trials : Params
few_trials = record {
  trials = 2;
  ops = 3;
  seed = 4;
  group = 2;
  accounts = 2;
  p_persist = 5;
  p_tear = 2;
}

abbrev every : Config
every = record { mode = sync_every; crc = true }

abbrev lazily : Config
lazily = record { mode = lazy_sync; crc = false }

abbrev torn : ℕ → Draw
torn s = record { unit = 6; pick = λ _. 1 }

abbrev pub engines : Engines ℕ
engines = record { rng = counting; seeded = λ s. s; pick = λ s. s; draws = λ _. torn }

pub torn-InRange : InRange torn
torn-InRange = λ s len more. (omega arith, omega arith)

few_trials-IsSane : IsSane (make_workload few_trials)
few_trials-IsSane = record {
  two = omega arith;
  few = omega arith;
  legs = omega arith;
  funds = refl;
  funds_fit = omega arith;
  amount_from = omega arith;
  amount_neg = refl;
  amount_to = omega arith;
}

run_campaign-acks_lost_example :
    (fuel : ℕ) × (t : Tally) × ((g : ℕ)
      → fuel ≤ g
      → run_campaign engines g every few_trials ≡ some t)
    × (t.acks_lost ≡ 0)
run_campaign-acks_lost_example =
    run_campaign-acks_lost engines few_trials few_trials-IsSane counting-IsVaried (omega arith)
      (λ _. torn-InRange) every refl

abbrev checked : Selection
checked = record { only_mode = none; only_crc = some true }

group_unchecked :
    configs_of (record { only_mode = some group_commit; only_crc = some false }) (true ∷ false ∷ [])
    ≡ record { mode = group_commit; crc = false } ∷ []
unfolding configs_of configs_with
group_unchecked = refl

run_selected-returned_example :
    (fuel : ℕ) × ((g : ℕ) → fuel ≤ g → run_selected engines g few_trials checked ≡ some 0)
run_selected-returned_example =
    run_selected-returned engines few_trials few_trials-IsSane counting-IsVaried (omega arith)
      (λ _. torn-InRange) checked
