-- ===== src/Kill/Driver.antt =====
-- tools/kill_driver.cpp: the command line, the paths, and the main function. What the host answers,
-- and what a trial's processes leave, are parameters.
use Prim.Native.Char.{code}
use Prim.Native.String.{String, ◌++◌ as str_append}
use text.Mathlib.Text.{◌==◌ as str_eq}
use iron_ledger.Common.{
  ℕ, zero, suc, ◌+◌, ◌%◌, ◌^◌, Bool, true, false, not, ◌||◌, Option, none, some, List, [], ◌∷◌,
  ◌==◌, if◌then◌else◌,
}
use iron_ledger.Conversions.{Conversions}
use iron_ledger.Ledger.Modes.{
  DurabilityMode, no_sync, lazy_sync, sync_every, group_commit, LedgerOptions,
}
use iron_ledger.Ledger.Transfer.{Transfer}
use iron_ledger.Kill.CommandLine.{driver_args}
use iron_ledger.Kill.Verdict.{KillTally, no_trials, Remains, kill_trial, kill_exit_code}

-- Params
pub record DriverParams {ℓ} (F : Type ℓ) : Type ℓ where
  pub trials : ℕ
  pub seed : ℕ
  pub group : ℕ
  pub accounts : ℕ
  pub min_ms : F
  pub max_ms : F
  pub worker : Option String
  pub dir : Option String
  pub csv : Option String
  pub quiet : Bool

-- What the source does with a double: its literals 0.2 and 25.0, and strtod.
pub record Millis {ℓ} (F : Type ℓ) : Type ℓ where
  pub shortest : F
  pub longest : F
  pub strtod : String → F

-- How the loop over the arguments ends: with the parameters, or with an exit code.
pub data DriverEnd {ℓ} (F : Type ℓ) : Type ℓ where
  driver_params : DriverParams F → DriverEnd F
  driver_exits : ℕ → DriverEnd F

module _ {ℓ} {F : Type ℓ} (c : Conversions) (d : Millis F) where
  abbrev pub default_params : DriverParams F
  default_params = record {
    trials = 250;
    seed = 1;
    group = 8;
    accounts = 8;
    min_ms = d.shortest;
    max_ms = d.longest;
    worker = none;
    dir = none;
    csv = none;
    quiet = false;
  }

  -- An option and its value.
  unfoldable pub set_param : String → String → DriverParams F → DriverEnd F
  set_param a next p =
      if str_eq a "--trials"
      then driver_params (record p { trials = c.strtoull next })
      else if str_eq a "--seed"
      then driver_params (record p { seed = c.strtoull next })
      else if str_eq a "--group"
      then driver_params (record p { group = c.strtoul next % 2 ^ 32 })
      else if str_eq a "--accounts"
      then driver_params (record p { accounts = c.strtoul next % 2 ^ 32 })
      else if str_eq a "--min-ms"
      then driver_params (record p { min_ms = d.strtod next })
      else if str_eq a "--max-ms"
      then driver_params (record p { max_ms = d.strtod next })
      else if str_eq a "--worker"
      then driver_params (record p { worker = some next })
      else if str_eq a "--dir"
      then driver_params (record p { dir = some next })
      else if str_eq a "--csv"
      then driver_params (record p { csv = some next })
      else driver_exits 2

  -- The loop. `--help` is tested before the value is looked for.
  unfoldable pub read_params : List String → DriverParams F → DriverEnd F
  read_params [] p = driver_params p
  read_params (a ∷ []) p =
      if str_eq a "--quiet"
      then driver_params (record p { quiet = true })
      else if str_eq a "--help" || str_eq a "-h"
      then driver_exits 0
      else driver_exits 2
  read_params (a ∷ next ∷ rest) p = elim (str_eq a "--quiet") [
    | true ↦ read_params (next ∷ rest) (record p { quiet = true })
    | false ↦ elim (str_eq a "--help" || str_eq a "-h") [
      | true ↦ driver_exits 0
      | false ↦ elim (set_param a next p) [
        | driver_params p' ↦ read_params rest p'
        | driver_exits exit ↦ driver_exits exit
      ]
    ]
  ]

abbrev pub is_slash : ℕ → Bool
is_slash n = n == b'/'

-- self.find_last_of('/') != npos
unfoldable pub has_slash : String → Bool
has_slash String.[] = false
has_slash (String.◌∷◌ x s) = is_slash (code x) || has_slash s

-- self.substr(0, slash + 1), with the last slash.
unfoldable pub through_slash : String → String
through_slash String.[] = ""
through_slash (String.◌∷◌ x s) =
    let rest = through_slash s in if is_slash (code x) || has_slash s then String.◌∷◌ x rest else ""

-- The binary beside this one, if none is given.
unfoldable pub worker_path : Option String → String → String
worker_path (some path) self = path
worker_path none self =
    if has_slash self then str_append (through_slash self) "kill_worker" else "kill_worker"

-- `if (!dir.empty() && dir.back() == '/') dir.pop_back();`
unfoldable pub drop_slash : String → String
drop_slash String.[] = ""
drop_slash (String.◌∷◌ x String.[]) = if is_slash (code x) then "" else String.◌∷◌ x ""
drop_slash (String.◌∷◌ x (String.◌∷◌ y s)) = String.◌∷◌ x (drop_slash (String.◌∷◌ y s))

-- What a killed worker leaves: whether it died of the signal, its file, and the keys received.
pub record Victim : Type 0 where
  pub died : Bool
  pub image : List ℕ
  pub keys : List ℕ

-- With the stream that the driver replays.
abbrev pub judged : Victim → List Transfer → Remains
judged v stream = record { died = v.died; image = v.image; keys = v.keys; stream = stream }

-- What the host answers.
pub record Host : Type 0 where
  pub self : String
  pub executable : String → Bool
  pub tmpdir : Option String
  pub appends : String → Bool
  pub pid : ℕ
  -- What is left when a worker that was started with these arguments has been killed; `none` if
  -- pipe or fork fails.
  pub processes : List String → Option Victim
  -- What the workload generator returns for a seed and a number of accounts.
  pub stream : ℕ → ℕ → List Transfer

abbrev pub or_else_tmp : Option String → String
or_else_tmp none = "/tmp"
or_else_tmp (some path) = path

-- `p.dir ? p.dir : (getenv("TMPDIR") ? getenv("TMPDIR") : "/tmp")`
abbrev pub chosen_dir : Option String → Option String → String
chosen_dir (some path) tmpdir = path
chosen_dir none tmpdir = or_else_tmp tmpdir

-- What fits the buffer of snprintf.
unfoldable pub first_chars : ℕ → String → String
first_chars zero s = ""
first_chars (suc n) String.[] = ""
first_chars (suc n) (String.◌∷◌ x s) = String.◌∷◌ x (first_chars n s)

module _ {ℓ} {F : Type ℓ} (c : Conversions) (h : Host) (p : DriverParams F) where
  -- The path of a trial's log.
  unfoldable pub trial_path : ℕ → String
  trial_path i = first_chars 255 (
      str_append (drop_slash (chosen_dir p.dir h.tmpdir)) (
        str_append "/ironledger_kill_"
          (str_append (c.print_int h.pid) (str_append "_" (str_append (c.print_u64 i) ".log")))))

  abbrev pub trial_options : DurabilityMode → LedgerOptions
  trial_options m = record { mode = m; verify_crc = true; group_size = p.group }

  -- The arguments of the worker of a trial.
  abbrev pub trial_args : DurabilityMode → ℕ → List String
  trial_args m i = driver_args c (trial_path i) m true p.group ((p.seed + i) % 2 ^ 64) p.accounts

  -- The stream that a trial is judged by.
  abbrev pub trial_stream : ℕ → List Transfer
  trial_stream i = h.stream ((p.seed + i) % 2 ^ 64) p.accounts

  -- The loop over the trials of a mode, from trial `i` on with the count of trials left: whether it
  -- broke off, and the tally.
  unfoldable pub run_trials : DurabilityMode → ℕ → ℕ → KillTally → Bool × KillTally
  run_trials m zero i t = (false, t)
  run_trials m (suc left) i t = elim (h.processes (trial_args m i)) [
    | none ↦ (true, t)
    | some v ↦
        run_trials m left (i + 1) (kill_trial (trial_options m) (judged v (trial_stream i)) t)
  ]

  -- The loop over the modes, with the exit code so far.
  unfoldable pub run_modes : List DurabilityMode → ℕ → ℕ
  run_modes [] exit = exit
  run_modes (m ∷ ms) exit =
      let (broken, t) = run_trials m p.trials 0 no_trials in
      run_modes ms (kill_exit_code (if broken then 2 else exit) m t)

abbrev pub driver_modes : List DurabilityMode
driver_modes = no_sync ∷ lazy_sync ∷ sync_every ∷ group_commit ∷ []

abbrev pub csv_refused : (String → Bool) → Option String → Bool
csv_refused appends none = false
csv_refused appends (some path) = not (appends path)

module _ {ℓ} {F : Type ℓ} (c : Conversions) (d : Millis F) (h : Host) where
  -- `main` behind the loop over the arguments.
  unfoldable pub drive : DriverParams F → ℕ
  drive p =
      if not (h.executable (worker_path p.worker h.self))
      then 2
      else if csv_refused h.appends p.csv
      then 2
      else run_modes c h p driver_modes 0

  -- `main`: the exit code.
  unfoldable pub kill_driver_main : List String → ℕ
  kill_driver_main args = elim (read_params c d args (default_params c d)) [
    | driver_params p ↦ drive p
    | driver_exits exit ↦ exit
  ]
