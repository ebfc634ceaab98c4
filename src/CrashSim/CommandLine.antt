-- ===== src/CrashSim/CommandLine.antt =====
-- The command line of tools/crash_sim.cpp, and the main function as a whole. The doubles, the
-- conversions of the C library and the opening of the CSV file are parameters.
use Prim.Native.String.{String}
use text.Mathlib.Text.{◌==◌ as str_eq}
use iron_ledger.Common.{
  ℕ, ◌%◌, ◌^◌, Bool, true, false, not, ◌||◌, Option, none, some, List, [], ◌∷◌, if◌then◌else◌,
}
use iron_ledger.Conversions.{Conversions}
use iron_ledger.Ledger.Modes.{DurabilityMode, parse_durability_mode}
use iron_ledger.Ledger.Book.{is_zero}
use iron_ledger.CrashSim.{Params}
use iron_ledger.CrashSim.Campaign.{Selection, Engines, run_selected}

-- What the source does with a double: its literals 0.5 and 0.2, strtod, the comparison with 0.0,
-- that of a sum with 1.0, and how it stands to the draws of PowerCut.
pub record Doubles {ℓ} (F : Type ℓ) : Type ℓ where
  pub half : F
  pub one_fifth : F
  pub strtod : String → F
  pub below_zero : F → Bool
  pub sum_above_one : F → F → Bool
  pub level : F → ℕ

-- What the loop over the arguments fills in.
pub record Given {ℓ} (F : Type ℓ) : Type ℓ where
  pub trials : ℕ
  pub ops : ℕ
  pub seed : ℕ
  pub group : ℕ
  pub accounts : ℕ
  pub p_persist : F
  pub p_tear : F
  pub csv : Option String
  pub quiet : Bool
  pub selection : Selection

-- A round of the loop: whether the next argument was used up, or the exit code.
pub data Taken {ℓ} (F : Type ℓ) : Type ℓ where
  alone : Given F → Taken F
  with_next : Given F → Taken F
  leaves : ℕ → Taken F

-- `need`
abbrev pub need {ℓ} : {F : Type ℓ} → Option String → (String → Given F) → Taken F
need none f = leaves 2
need (some next) f = with_next (f next)

abbrev pub set_only_mode {ℓ} : {F : Type ℓ} → Option DurabilityMode → Given F → Taken F
set_only_mode none g = leaves 2
set_only_mode (some m) g =
    with_next (record g { selection = record g.selection { only_mode = some m } })

abbrev pub take_mode {ℓ} : {F : Type ℓ} → Option String → Given F → Taken F
take_mode none g = leaves 2
take_mode (some next) g = set_only_mode (parse_durability_mode next) g

-- How the loop ends.
pub data GivenEnd {ℓ} (F : Type ℓ) : Type ℓ where
  given : Given F → GivenEnd F
  exits : ℕ → GivenEnd F

-- Whether `--csv` names a file that cannot be opened for appending.
abbrev pub csv_fails : (String → Bool) → Option String → Bool
csv_fails appends none = false
csv_fails appends (some path) = not (appends path)

module _ {ℓ} {F : Type ℓ} (c : Conversions) (d : Doubles F) where
  -- The initial values.
  abbrev pub default_given : Given F
  default_given = record {
    trials = 10000;
    ops = 64;
    seed = 1;
    group = 8;
    accounts = 8;
    p_persist = d.half;
    p_tear = d.one_fifth;
    csv = none;
    quiet = false;
    selection = record { only_mode = none; only_crc = none };
  }

  -- The body of the loop, on an argument and the one behind it.
  unfoldable pub take_option : String → Option String → Given F → Taken F
  take_option a next g =
      if str_eq a "--trials"
      then need next (λ v. record g { trials = c.strtoull v })
      else if str_eq a "--ops"
      then need next (λ v. record g { ops = c.strtoul v % 2 ^ 32 })
      else if str_eq a "--seed"
      then need next (λ v. record g { seed = c.strtoull v })
      else if str_eq a "--group"
      then need next (λ v. record g { group = c.strtoul v % 2 ^ 32 })
      else if str_eq a "--accounts"
      then need next (λ v. record g { accounts = c.strtoul v % 2 ^ 32 })
      else if str_eq a "--p-persist"
      then need next (λ v. record g { p_persist = d.strtod v })
      else if str_eq a "--p-tear"
      then need next (λ v. record g { p_tear = d.strtod v })
      else if str_eq a "--csv"
      then need next (λ v. record g { csv = some v })
      else if str_eq a "--quiet"
      then alone (record g { quiet = true })
      else if str_eq a "--mode"
      then take_mode next g
      else if str_eq a "--crc"
      then need next (λ v. record g {
        selection = record g.selection { only_crc = some (not (is_zero (c.strtol v))) };
      })
      else if str_eq a "--help" || str_eq a "-h"
      then leaves 0
      else leaves 2

  -- The loop.
  unfoldable pub read_given : List String → Given F → GivenEnd F
  read_given [] g = given g
  read_given (a ∷ []) g = elim (take_option a none g) [
    | alone g' ↦ given g'
    | with_next g' ↦ given g'
    | leaves code ↦ exits code
  ]
  read_given (a ∷ next ∷ rest) g = elim (take_option a (some next) g) [
    | alone g' ↦ read_given (next ∷ rest) g'
    | with_next g' ↦ read_given rest g'
    | leaves code ↦ exits code
  ]

  -- The test of the probabilities.
  unfoldable pub refuses : Given F → Bool
  refuses g =
      d.below_zero g.p_persist || d.below_zero g.p_tear || d.sum_above_one g.p_persist g.p_tear

  -- What the campaign reads of it.
  abbrev pub params_of : Given F → Params
  params_of g = record {
    trials = g.trials;
    ops = g.ops;
    seed = g.seed;
    group = g.group;
    accounts = g.accounts;
    p_persist = d.level g.p_persist;
    p_tear = d.level g.p_tear;
  }

  module _ {κ} {S : Type κ} (e : Engines S) (fuel : ℕ) (appends : String → Bool) where
    -- `main` behind the loop.
    unfoldable pub run_given : Given F → Option ℕ
    run_given g =
        if refuses g
        then some 2
        else if csv_fails appends g.csv
        then some 2
        else run_selected e fuel (params_of g) g.selection

    -- `main`: the exit code; `none` only if `PickAccounts` takes more than `fuel` rounds.
    unfoldable pub crash_sim_main : List String → Option ℕ
    crash_sim_main args = elim (read_given args default_given) [
      | exits code ↦ some code
      | given g ↦ run_given g
    ]
