-- ===== src/CrashSim/ReplayHint.antt =====
-- The command that tools/crash_sim.cpp prints for replaying a lost acknowledgement, and what main does
-- on it.
use Prim.Native.String.{String}
use mathlib.Core.Option
use iron_ledger.Common.{
  ℕ, ◌+◌, ◌%◌, ◌^◌, ◌<◌, ◌≡◌, refl, sym, ◌∙◌, ap, Bool, true, false, Option, none, some, List, [],
  ◌∷◌, if◌then◌else◌, arith,
}
use iron_ledger.Conversions.{Conversions, ReadsBack}
use iron_ledger.Ledger.Modes.{
  DurabilityMode, no_sync, lazy_sync, sync_every, group_commit, durability_mode_name,
  parse_durability_mode-name,
}
use iron_ledger.Kill.CommandLine.{crc_back}
use iron_ledger.CrashSim.{Config, Params, Trial, run_trial, recover_and_judge, judge}
use iron_ledger.CrashSim.Campaign.{
  Engines, Tally, empty_tally, add_trial, trial_with_seed, campaign_loop, run_campaign,
  exit_code_after, configs_with, configs_of, run_configs, run_selected,
}
use iron_ledger.CrashSim.CommandLine.{
  Doubles, Given, with_next, given, set_only_mode, default_given, take_option, read_given, refuses,
  params_of, run_given, crash_sim_main,
}

-- `replay with --seed … --trials 1 --mode … --crc …`, with `p.seed`, the seed of the campaign.
abbrev pub replay_hint : Conversions → Config → Params → List String
replay_hint c config p =
    "--seed"
    ∷ c.print_u64 p.seed
    ∷ "--trials"
    ∷ "1"
    ∷ "--mode"
    ∷ durability_mode_name config.mode
    ∷ "--crc"
    ∷ c.print_int (if config.crc then 1 else 0)
    ∷ []

only_config :
    (m : DurabilityMode) (crc : Bool)
    → configs_of (record { only_mode = some m; only_crc = some crc }) (true ∷ false ∷ [])
      ≡ record { mode = m; crc = crc } ∷ []
unfolding configs_of configs_with
only_config no_sync true = refl
only_config no_sync false = refl
only_config lazy_sync true = refl
only_config lazy_sync false = refl
only_config sync_every true = refl
only_config sync_every false = refl
only_config group_commit true = refl
only_config group_commit false = refl

module _ {F : Type 0} (c : Conversions) (d : Doubles F) (back : ReadsBack c) where
  given_step :
      (a next : String) (rest : List String) (g g' : Given F)
      → take_option c d a (some next) g ≡ with_next g'
      → read_given c d (a ∷ next ∷ rest) g ≡ read_given c d rest g'
  unfolding read_given
  given_step a next rest g g' e = ground arith

  given_end : (g : Given F) → read_given c d [] g ≡ given g
  unfolding read_given
  given_end g = refl

  seed_taken :
      (s : ℕ) (g : Given F)
      → s < 2 ^ 64
      → take_option c d "--seed" (some (c.print_u64 s)) g ≡ with_next (record g { seed = s })
  unfolding take_option
  seed_taken s g h = ap (λ k. with_next (record g { seed = k })) (back.u64 s h)

  trials_taken :
      (g : Given F)
      → c.strtoull "1" ≡ 1
      → take_option c d "--trials" (some "1") g ≡ with_next (record g { trials = 1 })
  unfolding take_option
  trials_taken g h = ap (λ k. with_next (record g { trials = k })) h

  mode_taken :
      (m : DurabilityMode) (g : Given F)
      → take_option c d "--mode" (some (durability_mode_name m)) g
        ≡ with_next (record g { selection = record g.selection { only_mode = some m } })
  unfolding take_option
  mode_taken m g = ap (λ o. set_only_mode o g) (parse_durability_mode-name m "").0

  crc_taken :
      (crc : Bool) (g : Given F)
      → take_option c d "--crc" (some (c.print_int (if crc then 1 else 0))) g
        ≡ with_next (record g { selection = record g.selection { only_crc = some crc } })
  unfolding take_option
  crc_taken crc g =
      ap (λ b. with_next (record g { selection = record g.selection { only_crc = some b } }))
        (crc_back c back crc)

  -- What main reads from the hint.
  abbrev pub hinted : Config → ℕ → Given F
  hinted config seed = record (default_given c d) {
    seed = seed;
    trials = 1;
    selection = record { only_mode = some config.mode; only_crc = some config.crc };
  }

  read_given-replay_hint :
      (config : Config) (p : Params)
      → p.seed < 2 ^ 64
      → c.strtoull "1" ≡ 1
      → read_given c d (replay_hint c config p) (default_given c d) ≡ given (hinted config p.seed)
  read_given-replay_hint config p h one =
      let s = p.seed in
      let m = config.mode in
      let crc = config.crc in
      let g1 = record (default_given c d) { seed = s } in
      let g2 = record g1 { trials = 1 } in
      let g3 = record g2 { selection = record g2.selection { only_mode = some m } } in
      let g4 = record g3 { selection = record g3.selection { only_crc = some crc } } in
      given_step "--seed" (c.print_u64 s) _ (default_given c d) g1
        (seed_taken s (default_given c d) h)
      ∙ given_step "--trials" "1" _ g1 g2 (trials_taken g1 one)
      ∙ given_step "--mode" (durability_mode_name m) _ g2 g3 (mode_taken m g2)
      ∙ given_step "--crc" (c.print_int (if crc then 1 else 0)) [] g3 g4 (crc_taken crc g3)
      ∙ given_end g4

-- A trial does not depend on the seed and the number of trials of its campaign.
trial_apart :
    {S : Type 0} (e : Engines S) (fuel : ℕ) (c : Config) (p : Params) (base n s : ℕ)
    → trial_with_seed e fuel c (record p { seed = base; trials = n }) s
      ≡ trial_with_seed e fuel c p s
unfolding trial_with_seed run_trial recover_and_judge judge
trial_apart e fuel c p base n s = refl

one_round :
    {S : Type 0} (e : Engines S) (fuel : ℕ) (c : Config) (p : Params) (t : Tally) (r : Option Trial)
    → trial_with_seed e fuel c p ((p.seed + 0) % 2 ^ 64) ≡ r
    → campaign_loop e fuel c p 1 0 t ≡ Option.map (λ x. add_trial x t) r
unfolding campaign_loop
one_round e fuel c p t none h = ground arith
one_round e fuel c p t (some r) h = ground arith

one_trial :
    {S : Type 0} (e : Engines S) (fuel : ℕ) (c : Config) (p : Params)
    → p.trials ≡ 1
    → p.seed < 2 ^ 64
    → run_campaign e fuel c p
      ≡ Option.map (λ r. add_trial r empty_tally) (trial_with_seed e fuel c p p.seed)
unfolding run_campaign
one_trial e fuel c p one small =
    ap (λ n. campaign_loop e fuel c p n 0 empty_tally) one
    ∙ one_round e fuel c p empty_tally (trial_with_seed e fuel c p p.seed)
        (ap (trial_with_seed e fuel c p) (omega arith))

one_config :
    {S : Type 0} (e : Engines S) (fuel : ℕ) (c : Config) (p : Params) (r : Option Tally)
    → run_campaign e fuel c p ≡ r
    → run_configs e fuel p (c ∷ []) 0 ≡ Option.map (exit_code_after 0 c) r
unfolding run_configs
one_config e fuel c p none h = ground arith
one_config e fuel c p (some t) h = ground arith

pub main_given :
    {F S : Type 0} (c : Conversions) (d : Doubles F) (e : Engines S) (fuel : ℕ)
    (appends : String → Bool) (args : List String) (g : Given F)
    → read_given c d args (default_given c d) ≡ given g
    → refuses c d g ≡ false
    → g.csv ≡ none
    → crash_sim_main c d e fuel appends args
      ≡ run_configs e fuel (params_of c d g) (configs_of g.selection (true ∷ false ∷ [])) 0
unfolding crash_sim_main run_given run_selected
main_given c d e fuel appends args g h r n = ground arith

-- The parameters of a campaign that was given a seed and a number of trials and nothing else.
abbrev pub campaign_params : {F : Type 0} → Conversions → Doubles F → ℕ → ℕ → Params
campaign_params c d base n = record (params_of c d (default_given c d)) { seed = base; trials = n }

module _ {F S : Type 0} (c : Conversions) (d : Doubles F) (e : Engines S) (fuel : ℕ) where
  -- What main does on some arguments: it runs one campaign, of the configuration alone, whose tally
  -- is that of the trial with a seed in a campaign with these parameters, and ends with the exit code
  -- that its tests give for this tally.
  pub record Replays (appends : String → Bool) (args : List String) (config : Config) (p : Params)
      (seed : ℕ) : Type 0 where
    pub read : Given F
    pub reads : read_given c d args (default_given c d) ≡ given read
    pub alone : configs_of read.selection (true ∷ false ∷ []) ≡ config ∷ []
    pub tally :
        run_campaign e fuel config (params_of c d read)
        ≡ Option.map (λ r. add_trial r empty_tally) (trial_with_seed e fuel config p seed)
    pub exit :
        crash_sim_main c d e fuel appends args
        ≡ Option.map (exit_code_after 0 config) (run_campaign e fuel config (params_of c d read))

  -- For conversions that read back the numbers that they print and read 1 as 1, and default
  -- probabilities that pass the test of main: on the command that main prints for a lost
  -- acknowledgement of a campaign that was given a seed below 2 ^ 64 and a number of trials, the
  -- other parameters being the defaults, main runs the printed configuration alone, and the tally
  -- of that campaign is the tally of one trial, the first trial of the campaign, with the seed of
  -- the campaign, whichever trial has failed; the exit code is that of the tests of main on it.
  pub replay_hint-Replays :
      (appends : String → Bool) (back : ReadsBack c) (base n : ℕ) (config : Config)
      → c.strtoull "1" ≡ 1
      → refuses c d (default_given c d) ≡ false
      → base < 2 ^ 64
      → Replays appends
          (replay_hint c config (campaign_params c d base n))
          config
          (campaign_params c d base n)
          base
  unfolding refuses
  replay_hint-Replays appends back base n config one accepted small =
      let p = campaign_params c d base n in
      let g = hinted c d back config base in
      let q = params_of c d g in
      let read = read_given-replay_hint c d back config p small one in
      let only = only_config config.mode config.crc in
      record {
        read = g;
        reads = read;
        alone = only;
        tally =
            one_trial e fuel config q refl small
            ∙ ap (Option.map (λ r. add_trial r empty_tally)) (
                trial_apart e fuel config (params_of c d (default_given c d)) base 1 base
                ∙ sym (trial_apart e fuel config (params_of c d (default_given c d)) base n base));
        exit =
            main_given c d e fuel appends (replay_hint c config p) g read accepted refl
            ∙ ap (λ cs. run_configs e fuel q cs 0) only
            ∙ one_config e fuel config q (run_campaign e fuel config q) refl;
      }
