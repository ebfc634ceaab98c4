-- ===== src/Kill/CommandLine.antt =====
-- The command line of tools/kill_worker.cpp, and what tools/kill_driver.cpp passes on it. The
-- conversions of the C library are parameters.
use Prim.Native.String.{String}
use text.Mathlib.Text.{◌==◌ as str_eq}
use iron_ledger.Common.{
  ℕ, ◌%◌, ◌^◌, ◌<◌, ◌≡◌, refl, ◌∙◌, ap, Bool, true, false, Option, none, some, List, [], ◌∷◌,
  if◌then◌else◌, arith,
}
use iron_ledger.Conversions.{Conversions, ReadsBack}
use iron_ledger.Ledger.Modes.{
  DurabilityMode, sync_every, LedgerOptions, durability_mode_name, parse_durability_mode,
  parse_durability_mode-name,
}
use iron_ledger.Ledger.Book.{is_zero}
use iron_ledger.Common.{not}
use iron_ledger.Workload.{default_options}

-- What `main` of the worker reads: `path`, `opts`, `wopts.seed`, `wopts.accounts` and `ops`.
pub record WorkerArgs : Type 0 where
  pub path : Option String
  pub opts : LedgerOptions
  pub seed : ℕ
  pub accounts : ℕ
  pub ops : ℕ

abbrev pub default_args : WorkerArgs
default_args = record {
  path = none;
  opts = record { mode = sync_every; verify_crc = true; group_size = 32 };
  seed = 1;
  accounts = default_options.accounts;
  ops = 2_000_000;
}

-- How the reading ends: `Die` prints a message and exits.
pub data Reading : Type 0 where
  read_args : WorkerArgs → Reading
  die : String → Reading

abbrev pub set_mode : Option DurabilityMode → WorkerArgs → Reading
set_mode (some m) w = read_args (record w { opts = record w.opts { mode = m } })
set_mode none w = die "bad --mode"

abbrev pub with_path : Option String → WorkerArgs → Reading
with_path (some path) w = read_args w
with_path none w = die "--path is required"

-- The test of the path behind the loop.
abbrev pub require_path : Reading → Reading
require_path (read_args w) = with_path w.path w
require_path (die message) = die message

module _ (c : Conversions) where
  -- The body of the loop, on an option and its value.
  unfoldable pub set_option : String → String → WorkerArgs → Reading
  set_option a next w =
      if str_eq a "--path"
      then read_args (record w { path = some next })
      else if str_eq a "--mode"
      then set_mode (parse_durability_mode next) w
      else if str_eq a "--crc"
      then read_args
          (record w { opts = record w.opts { verify_crc = not (is_zero (c.strtol next)) } })
      else if str_eq a "--group"
      then read_args (record w { opts = record w.opts { group_size = c.strtoul next % 2 ^ 32 } })
      else if str_eq a "--seed"
      then read_args (record w { seed = c.strtoull next })
      else if str_eq a "--accounts"
      then read_args (record w { accounts = c.strtoul next % 2 ^ 32 })
      else if str_eq a "--ops"
      then read_args (record w { ops = c.strtoull next })
      else die "unknown argument"

  -- The loop.
  unfoldable pub read_options : List String → WorkerArgs → Reading
  read_options [] w = read_args w
  read_options (a ∷ []) w = die "missing value"
  read_options (a ∷ next ∷ rest) w = elim (set_option a next w) [
    | read_args w' ↦ read_options rest w'
    | die message ↦ die message
  ]

  -- `main` of the worker up to the opening of the device.
  unfoldable pub worker_args : List String → Reading
  worker_args args = require_path (read_options args default_args)

  -- `args` in the driver's RunTrial, behind the name of the program.
  abbrev pub driver_args : String → DurabilityMode → Bool → ℕ → ℕ → ℕ → List String
  driver_args path mode crc group seed accounts =
      "--path"
      ∷ path
      ∷ "--mode"
      ∷ durability_mode_name mode
      ∷ "--crc"
      ∷ c.print_int (if crc then 1 else 0)
      ∷ "--group"
      ∷ c.print_u32 group
      ∷ "--seed"
      ∷ c.print_u64 seed
      ∷ "--accounts"
      ∷ c.print_u32 accounts
      ∷ []

module _ (c : Conversions) (back : ReadsBack c) where
  pub crc_back : (crc : Bool) → not (is_zero (c.strtol (c.print_int (if crc then 1 else 0)))) ≡ crc
  crc_back true = ap (λ z. not (is_zero z)) (back.int 1 (omega arith))
  crc_back false = ap (λ z. not (is_zero z)) (back.int 0 (omega arith))

  u32_back : (n : ℕ) → n < 2 ^ 32 → c.strtoul (c.print_u32 n) % 2 ^ 32 ≡ n
  u32_back n h = ground (arith, back.u32 n h)

  option_step :
      (a next : String) (rest : List String) (w w' : WorkerArgs)
      → set_option c a next w ≡ read_args w'
      → read_options c (a ∷ next ∷ rest) w ≡ read_options c rest w'
  unfolding read_options
  option_step a next rest w w' e = ground arith

  options_end : (w : WorkerArgs) → read_options c [] w ≡ read_args w
  unfolding read_options
  options_end w = refl

  path_option :
      (path : String) (w : WorkerArgs)
      → set_option c "--path" path w ≡ read_args (record w { path = some path })
  unfolding set_option
  path_option path w = refl

  mode_option :
      (m : DurabilityMode) (w : WorkerArgs)
      → set_option c "--mode" (durability_mode_name m) w
        ≡ read_args (record w { opts = record w.opts { mode = m } })
  unfolding set_option
  mode_option m w = ap (λ o. set_mode o w) (parse_durability_mode-name m "").0

  crc_option :
      (crc : Bool) (w : WorkerArgs)
      → set_option c "--crc" (c.print_int (if crc then 1 else 0)) w
        ≡ read_args (record w { opts = record w.opts { verify_crc = crc } })
  unfolding set_option
  crc_option crc w =
      ap (λ b. read_args (record w { opts = record w.opts { verify_crc = b } })) (crc_back crc)

  group_option :
      (n : ℕ) (w : WorkerArgs)
      → n < 2 ^ 32
      → set_option c "--group" (c.print_u32 n) w
        ≡ read_args (record w { opts = record w.opts { group_size = n } })
  unfolding set_option
  group_option n w h =
      ap (λ k. read_args (record w { opts = record w.opts { group_size = k } })) (u32_back n h)

  seed_option :
      (n : ℕ) (w : WorkerArgs)
      → n < 2 ^ 64
      → set_option c "--seed" (c.print_u64 n) w ≡ read_args (record w { seed = n })
  unfolding set_option
  seed_option n w h = ap (λ k. read_args (record w { seed = k })) (back.u64 n h)

  accounts_option :
      (n : ℕ) (w : WorkerArgs)
      → n < 2 ^ 32
      → set_option c "--accounts" (c.print_u32 n) w ≡ read_args (record w { accounts = n })
  unfolding set_option
  accounts_option n w h = ap (λ k. read_args (record w { accounts = k })) (u32_back n h)

  -- If the conversions of the C library read back the numbers that they print, the worker reads
  -- from the arguments that the driver passes it exactly the path, mode, checksum setting, group
  -- size, seed and number of accounts that the driver recovers and judges with, for sizes and
  -- counts below 2 ^ 32 and seeds below 2 ^ 64, and keeps its default of 2,000,000 operations.
  pub worker_args-driver_args :
      (path : String) (mode : DurabilityMode) (crc : Bool) (group seed accounts : ℕ)
      → group < 2 ^ 32
      → seed < 2 ^ 64
      → accounts < 2 ^ 32
      → worker_args c (driver_args c path mode crc group seed accounts)
        ≡ read_args (record {
          path = some path;
          opts = record { mode = mode; verify_crc = crc; group_size = group };
          seed = seed;
          accounts = accounts;
          ops = 2_000_000;
        })
  unfolding worker_args
  worker_args-driver_args path mode crc group seed accounts g s a =
      let w1 = record default_args { path = some path } in
      let w2 = record w1 { opts = record w1.opts { mode = mode } } in
      let w3 = record w2 { opts = record w2.opts { verify_crc = crc } } in
      let w4 = record w3 { opts = record w3.opts { group_size = group } } in
      let w5 = record w4 { seed = seed } in
      let w6 = record w5 { accounts = accounts } in
      ap require_path (
        option_step "--path" path _ default_args w1 (path_option path default_args)
        ∙ option_step "--mode" (durability_mode_name mode) _ w1 w2 (mode_option mode w1)
        ∙ option_step "--crc" (c.print_int (if crc then 1 else 0)) _ w2 w3 (crc_option crc w2)
        ∙ option_step "--group" (c.print_u32 group) _ w3 w4 (group_option group w3 g)
        ∙ option_step "--seed" (c.print_u64 seed) _ w4 w5 (seed_option seed w4 s)
        ∙ option_step "--accounts" (c.print_u32 accounts) [] w5 w6 (accounts_option accounts w5 a)
        ∙ options_end w6)
