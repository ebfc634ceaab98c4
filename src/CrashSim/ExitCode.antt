-- ===== src/CrashSim/ExitCode.antt =====
-- The exit code of tools/crash_sim.cpp on any command line.
use Prim.Native.String.{String}
use text.Mathlib.Text.{◌==◌ as str_eq}
use iron_ledger.Common.{
  ℕ, ◌%◌, ◌^◌, ◌≤◌, ◌<◌, ◌≡◌, ◌⊎◌, inl, inr, refl, sym, ◌∙◌, subst, Bool, true, false, ◌||◌,
  Bool-cases, Option, none, some, List, [], ◌∷◌, if◌then◌else◌, arith,
}
use iron_ledger.Conversions.{Conversions}
use iron_ledger.Device.PowerCut.{InRange}
use iron_ledger.Ledger.Modes.{DurabilityMode, parse_durability_mode}
use iron_ledger.Workload.Legs.{default_options-IsSane}
use iron_ledger.Workload.Accounts.{IsVaried}
use iron_ledger.CrashSim.Campaign.{Engines, run_selected}
use iron_ledger.CrashSim.Totals.{run_selected-returned}
use iron_ledger.CrashSim.CommandLine.{
  Doubles, Given, Taken, alone, with_next, leaves, need, set_only_mode, take_mode, GivenEnd, given,
  exits, default_given, take_option, read_given, refuses, params_of, csv_fails, run_given,
  crash_sim_main,
}

-- An exit code that `main` returns itself.
abbrev pub IsOwn : ℕ → Type 0
IsOwn code = (code ≡ 0) ⊎ (code ≡ 2)

-- The fields of a uint32_t hold one.
abbrev IsNarrow : {F : Type 0} → Given F → Type 0
IsNarrow g = (g.ops < 2 ^ 32) × (g.accounts < 2 ^ 32)

abbrev IsFine : {F : Type 0} → Taken F → Type 0
IsFine (alone g) = IsNarrow g
IsFine (with_next g) = IsNarrow g
IsFine (leaves code) = IsOwn code

if-IsFine :
    {F : Type 0} (b : Bool) (x y : Taken F) → IsFine x → IsFine y → IsFine (if b then x else y)
if-IsFine true x y h k = h
if-IsFine false x y h k = k

need-IsFine :
    {F : Type 0} (next : Option String) (f : String → Given F)
    → ((v : String) → IsNarrow (f v))
    → IsFine (need next f)
need-IsFine none f h = inr refl
need-IsFine (some v) f h = h v

set_only_mode-IsFine :
    {F : Type 0} (m : Option DurabilityMode) (g : Given F) → IsNarrow g → IsFine (set_only_mode m g)
set_only_mode-IsFine none g h = inr refl
set_only_mode-IsFine (some m) g h = h

take_mode-IsFine :
    {F : Type 0} (next : Option String) (g : Given F) → IsNarrow g → IsFine (take_mode next g)
take_mode-IsFine none g h = inr refl
take_mode-IsFine (some v) g h = set_only_mode-IsFine (parse_durability_mode v) g h

module _ {F : Type 0} (c : Conversions) (d : Doubles F) where
  take_option-IsFine :
      (a : String) (next : Option String) (g : Given F)
      → IsNarrow g
      → IsFine (take_option c d a next g)
  unfolding take_option
  take_option-IsFine a next g h =
      let wrap : (n : ℕ) → n % 2 ^ 32 < 2 ^ 32 = λ n. omega arith in
      if-IsFine (str_eq a "--trials") _ _ (need-IsFine next _ (λ _. h)) (
        if-IsFine (str_eq a "--ops") _ _ (need-IsFine next _ (λ v. (wrap (c.strtoul v), h.1))) (
          if-IsFine (str_eq a "--seed") _ _ (need-IsFine next _ (λ _. h)) (
            if-IsFine (str_eq a "--group") _ _ (need-IsFine next _ (λ _. h)) (
              if-IsFine (str_eq a "--accounts") _ _
                (need-IsFine next _ (λ v. (h.0, wrap (c.strtoul v))))
                (if-IsFine (str_eq a "--p-persist") _ _ (need-IsFine next _ (λ _. h)) (
                  if-IsFine (str_eq a "--p-tear") _ _ (need-IsFine next _ (λ _. h)) (
                    if-IsFine (str_eq a "--csv") _ _ (need-IsFine next _ (λ _. h)) (
                      if-IsFine (str_eq a "--quiet") _ _ h (
                        if-IsFine (str_eq a "--mode") _ _ (take_mode-IsFine next g h) (
                          if-IsFine (str_eq a "--crc") _ _ (need-IsFine next _ (λ _. h)) (
                            if-IsFine (str_eq a "--help" || str_eq a "-h") _ _ (inl refl)
                              (inr refl))))))))))))

  IsRead : GivenEnd F → Type 0
  IsRead (given g) = IsNarrow g
  IsRead (exits code) = IsOwn code

  after_last : Taken F → GivenEnd F
  after_last (alone g) = given g
  after_last (with_next g) = given g
  after_last (leaves code) = exits code

  after_last-IsRead : (t : Taken F) → IsFine t → IsRead (after_last t)
  unfolding after_last IsRead
  after_last-IsRead (alone g) h = h
  after_last-IsRead (with_next g) h = h
  after_last-IsRead (leaves code) h = h

  last_read :
      (a : String) (g : Given F) → read_given c d (a ∷ []) g ≡ after_last (take_option c d a none g)
  unfolding read_given after_last
  last_read a g = refl

  -- The loop behind an option that has an argument behind it.
  after_option : String → List String → Taken F → GivenEnd F
  after_option next rest (alone g) = read_given c d (next ∷ rest) g
  after_option next rest (with_next g) = read_given c d rest g
  after_option next rest (leaves code) = exits code

  option_read :
      (a next : String) (rest : List String) (g : Given F)
      → read_given c d (a ∷ next ∷ rest) g
        ≡ after_option next rest (take_option c d a (some next) g)
  unfolding read_given after_option
  option_read a next rest g = refl

  after_option-IsRead :
      (next : String) (rest : List String) (t : Taken F)
      → IsFine t
      → ((g : Given F) → IsNarrow g → IsRead (read_given c d (next ∷ rest) g))
      → ((g : Given F) → IsNarrow g → IsRead (read_given c d rest g))
      → IsRead (after_option next rest t)
  unfolding after_option IsRead
  after_option-IsRead next rest (alone g) h p q = p g h
  after_option-IsRead next rest (with_next g) h p q = q g h
  after_option-IsRead next rest (leaves code) h p q = h

  read_given-IsRead :
      (args : List String) (g : Given F) → IsNarrow g → IsRead (read_given c d args g)
  read_given-IsRead [] g h = unfold read_given IsRead in h
  read_given-IsRead (a ∷ []) g h =
      subst IsRead (sym (last_read a g))
        (after_last-IsRead (take_option c d a none g) (take_option-IsFine a none g h))
  read_given-IsRead (a ∷ next ∷ rest) g h = subst IsRead (sym (option_read a next rest g)) (
      after_option-IsRead next rest (take_option c d a (some next) g)
        (take_option-IsFine a (some next) g h) (λ g' k. read_given-IsRead (next ∷ rest) g' k)
        (λ g' k. read_given-IsRead rest g' k))

  module _ {S : Type 0} (e : Engines S) (appends : String → Bool) where
    main_exits :
        (fuel : ℕ) (args : List String) (code : ℕ)
        → read_given c d args (default_given c d) ≡ exits code
        → crash_sim_main c d e fuel appends args ≡ some code
    unfolding crash_sim_main
    main_exits fuel args code h = ground arith

    main_runs :
        (fuel : ℕ) (args : List String) (g : Given F)
        → read_given c d args (default_given c d) ≡ given g
        → crash_sim_main c d e fuel appends args ≡ run_given c d e fuel appends g
    unfolding crash_sim_main
    main_runs fuel args g h = ground arith

    given_refused :
        (fuel : ℕ) (g : Given F)
        → (refuses c d g || csv_fails appends g.csv) ≡ true
        → run_given c d e fuel appends g ≡ some 2
    unfolding run_given
    given_refused fuel g h = ground arith

    given_accepted :
        (fuel : ℕ) (g : Given F) {r : Option ℕ}
        → (refuses c d g || csv_fails appends g.csv) ≡ false
        → run_selected e fuel (params_of c d g) g.selection ≡ r
        → run_given c d e fuel appends g ≡ r
    unfolding run_given
    given_accepted fuel g h k = ground arith

    -- `main` returns one of its own exit codes.
    abbrev pub Returns : List String → Type 0
    Returns args =
        (fuel : ℕ) × (code : ℕ) × ((h : ℕ)
          → fuel ≤ h
          → crash_sim_main c d e h appends args ≡ some code)
        × IsOwn code

    module _ (fair : (seed : ℕ) → InRange (e.draws seed)) (args : List String)
        (enough : (g : Given F)
          → read_given c d args (default_given c d) ≡ given g
          → (2 ≤ g.accounts) × IsVaried e.rng g.accounts) where
      Returns-given :
          (g : Given F)
          → read_given c d args (default_given c d) ≡ given g
          → IsNarrow g
          → Returns args
      Returns-given g h narrow =
          let (two, varied) = enough g h in
          elim (Bool-cases (refuses c d g || csv_fails appends g.csv)) [
            | inl bad ↦ (0, 2, λ f _. main_runs f args g h ∙ given_refused f g bad, inr refl)
            | inr good ↦
                let (fuel, made) =
                  run_selected-returned e (params_of c d g)
                    (default_options-IsSane g.accounts two narrow.1) varied narrow.0 fair
                    g.selection in
                (
                  fuel,
                  0,
                  λ f le. main_runs f args g h ∙ given_accepted f g good (made f le),
                  inl refl,
                )
          ]

      Returns-read :
          (r : GivenEnd F) → read_given c d args (default_given c d) ≡ r → IsRead r → Returns args
      unfolding IsRead
      Returns-read (given g) h k = Returns-given g h k
      Returns-read (exits code) h k = (0, code, λ f _. main_exits f args code h, k)

      -- For engines whose draws are in the range of their distributions, and a command line that,
      -- where it is read to the end, asks for at least two accounts, of which the engine does not
      -- draw the same few for ever: main returns, with exit code 0 or 2 and never with 1, the
      -- code of the regression test.
      pub crash_sim_main-Returns : Returns args
      crash_sim_main-Returns =
          Returns-read (read_given c d args (default_given c d)) refl
            (read_given-IsRead args (default_given c d) (omega arith, omega arith))
