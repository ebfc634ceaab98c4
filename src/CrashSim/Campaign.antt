-- ===== src/CrashSim/Campaign.antt =====
-- tools/crash_sim.cpp: the sum over the trials of a configuration, and the loop of its main over
-- the configurations. The engines that a seed starts are parameters.
use iron_ledger.Common.{
  ℕ, zero, suc, ◌+◌, ◌%◌, ◌^◌, Bool, true, false, not, ◌&&◌, Option, none, some, List, [], ◌∷◌,
  ◌++◌, ◌==◌, if◌then◌else◌,
}
use iron_ledger.Device.{Draw}
use iron_ledger.Ledger.Modes.{DurabilityMode, no_sync, lazy_sync, sync_every, group_commit}
use iron_ledger.Workload.{issue}
use iron_ledger.CrashSim.{
  Config, Params, Outcome, clean, torn_accepted, silent_corruption, Trial, make_workload, run_trial,
}

pub record Tally : Type 0 where
  pub trials : ℕ
  pub acks : ℕ
  pub acks_lost : ℕ
  pub clean : ℕ
  pub torn_accepted : ℕ
  pub silent_corruption : ℕ
  pub prefix_violations : ℕ
  pub state_mismatches : ℕ
  pub conservation_violations : ℕ

abbrev pub empty_tally : Tally
empty_tally = record {
  trials = 0;
  acks = 0;
  acks_lost = 0;
  clean = 0;
  torn_accepted = 0;
  silent_corruption = 0;
  prefix_violations = 0;
  state_mismatches = 0;
  conservation_violations = 0;
}

abbrev pub bit : Bool → ℕ
bit true = 1
bit false = 0

-- The switch on the outcome.
abbrev pub count_outcome : Outcome → Tally → Tally
count_outcome clean t = record t { clean = t.clean + 1 }
count_outcome torn_accepted t = record t { torn_accepted = t.torn_accepted + 1 }
count_outcome silent_corruption t = record t { silent_corruption = t.silent_corruption + 1 }

-- The body of the loop of `RunCampaign`.
unfoldable pub add_trial : Trial → Tally → Tally
add_trial r t = count_outcome r.outcome (record t {
  trials = t.trials + 1;
  acks = t.acks + r.acks;
  acks_lost = t.acks_lost + r.lost;
  prefix_violations = t.prefix_violations + bit r.prefix_bad;
  state_mismatches = t.state_mismatches + bit r.state_bad;
  conservation_violations = t.conservation_violations + bit r.conservation_bad;
})

-- What the engines of a trial seed return: the state of the workload's engine, the number drawn for
-- the write of the cut, and what is drawn for each sector.
pub record Engines {ℓ} (S : Type ℓ) : Type ℓ where
  pub rng : S → ℕ × S
  pub seeded : ℕ → S
  pub pick : ℕ → ℕ
  pub draws : ℕ → ℕ → Draw

module _ {ℓ} {S : Type ℓ} (e : Engines S) (fuel : ℕ) (c : Config) (p : Params) where
  -- `none` only if the workload takes more than `fuel` rounds to choose its accounts.
  unfoldable pub trial_with_seed : ℕ → Option Trial
  trial_with_seed seed =
      elim (issue e.rng (make_workload p) fuel p.ops
        (record { rng_state = e.seeded seed; issued = 0 })) [
          | none ↦ none
          | some ts ↦ some (run_trial c p (e.pick seed) (e.draws seed) ts)
        ]

  -- The loop of `RunCampaign` from trial `i` on, with the count of trials left.
  unfoldable pub campaign_loop : ℕ → ℕ → Tally → Option Tally
  campaign_loop zero i t = some t
  campaign_loop (suc left) i t = elim (trial_with_seed ((p.seed + i) % 2 ^ 64)) [
    | none ↦ none
    | some r ↦ campaign_loop left (i + 1) (add_trial r t)
  ]

  -- RunCampaign
  unfoldable pub run_campaign : Option Tally
  run_campaign = campaign_loop p.trials 0 empty_tally

-- The tests of `main` on a tally.
abbrev pub must_be_durable : DurabilityMode → Bool
must_be_durable sync_every = true
must_be_durable group_commit = true
must_be_durable _ = false

unfoldable pub exit_code_after : ℕ → Config → Tally → ℕ
exit_code_after code c t =
    let code' = if must_be_durable c.mode && not (t.acks_lost == 0) then 1 else code in
    if not (t.conservation_violations == 0) then 1 else code'

-- What the command line selects; `none` where an option is not given.
pub record Selection : Type 0 where
  pub only_mode : Option DurabilityMode
  pub only_crc : Option Bool

abbrev pub same_mode : DurabilityMode → DurabilityMode → Bool
same_mode no_sync no_sync = true
same_mode lazy_sync lazy_sync = true
same_mode sync_every sync_every = true
same_mode group_commit group_commit = true
same_mode _ _ = false

abbrev pub same_bit : Bool → Bool → Bool
same_bit true b = b
same_bit false b = not b

-- Whether the loops of `main` go on to a mode or a checksum setting.
abbrev pub selects_mode : Option DurabilityMode → DurabilityMode → Bool
selects_mode none m = true
selects_mode (some only) m = same_mode m only

abbrev pub selects_crc : Option Bool → Bool → Bool
selects_crc none crc = true
selects_crc (some only) crc = same_bit crc only

-- The inner loop.
unfoldable pub configs_with : Selection → Bool → List DurabilityMode → List Config
configs_with s crc [] = []
configs_with s crc (m ∷ ms) =
    let rest = configs_with s crc ms in
    if selects_mode s.only_mode m then record { mode = m; crc = crc } ∷ rest else rest

abbrev pub all_modes : List DurabilityMode
all_modes = no_sync ∷ lazy_sync ∷ sync_every ∷ group_commit ∷ []

-- The outer loop.
unfoldable pub configs_of : Selection → List Bool → List Config
configs_of s [] = []
configs_of s (crc ∷ rest) =
    let more = configs_of s rest in
    if selects_crc s.only_crc crc then configs_with s crc all_modes ++ more else more

-- The loop of `main` over the configurations, with the exit code so far.
module _ {ℓ} {S : Type ℓ} (e : Engines S) (fuel : ℕ) (p : Params) where
  unfoldable pub run_configs : List Config → ℕ → Option ℕ
  run_configs [] code = some code
  run_configs (c ∷ cs) code = elim (run_campaign e fuel c p) [
    | none ↦ none
    | some t ↦ run_configs cs (exit_code_after code c t)
  ]

  -- `main` from the selection on.
  unfoldable pub run_selected : Selection → Option ℕ
  run_selected s = run_configs (configs_of s (true ∷ false ∷ [])) 0
