-- ===== src/CrashSim/Totals.antt =====
-- The campaign returns, and its regression test passes in the durable modes.
use iron_ledger.Common.{
  ℕ, zero, suc, ◌+◌, ◌%◌, ◌^◌, ◌≤◌, ◌<◌, ◌≡◌, inl, inr, refl, true, false, Bool-cases, some, List,
  [], ◌∷◌, arith,
}
use iron_ledger.Device.PowerCut.{InRange}
use iron_ledger.Ledger.Modes.{DurabilityMode, no_sync, lazy_sync, sync_every, group_commit}
use iron_ledger.Ledger.Transfer.{Transfer}
use iron_ledger.Ledger.Submit.Perform.{IsDurableMode}
use iron_ledger.Workload.{WorkloadOptions, issue}
use iron_ledger.Workload.Legs.{IsSane}
use iron_ledger.Workload.Accounts.{IsVaried}
use iron_ledger.Workload.Payment.{AreIssued}
use iron_ledger.Workload.Issue.{issue-AreIssued}
use iron_ledger.CrashSim.{
  Config, Params, Outcome, clean, torn_accepted, silent_corruption, Trial, make_workload, run_trial,
}
use iron_ledger.CrashSim.Campaign.{
  Tally, empty_tally, count_outcome, add_trial, Engines, trial_with_seed, campaign_loop,
  run_campaign, must_be_durable, exit_code_after, Selection, configs_of, run_configs, run_selected,
}
use iron_ledger.CrashSim.Cut.{AllTyped, run_trial-lost, run_trial-conserves}

-- Whether a trial lost an acknowledged key although its mode is durable.
abbrev IsKept : Config → Trial → Type 0
IsKept c r = (r.conservation_bad ≡ false) × ((must_be_durable c.mode ≡ true) → r.lost ≡ 0)

-- What a tally of kept trials says.
abbrev pub IsPassing : Config → Tally → Type 0
IsPassing c t =
    (t.conservation_violations ≡ 0)
    × (t.clean + t.torn_accepted + t.silent_corruption ≡ t.trials)
    × ((must_be_durable c.mode ≡ true) → t.acks_lost ≡ 0)

count_outcome_trials : (o : Outcome) (t : Tally) → (count_outcome o t).trials ≡ t.trials
count_outcome_trials clean t = refl
count_outcome_trials torn_accepted t = refl
count_outcome_trials silent_corruption t = refl

add_trial_trials : (r : Trial) (t : Tally) → (add_trial r t).trials ≡ t.trials + 1
unfolding add_trial
add_trial_trials r t = count_outcome_trials r.outcome _

count_outcome-IsPassing :
    (c : Config) (o : Outcome) (t : Tally)
    → t.conservation_violations ≡ 0
    → t.clean + t.torn_accepted + t.silent_corruption + 1 ≡ t.trials
    → ((must_be_durable c.mode ≡ true) → t.acks_lost ≡ 0)
    → IsPassing c (count_outcome o t)
count_outcome-IsPassing c clean t v n l = (v, omega arith, l)
count_outcome-IsPassing c torn_accepted t v n l = (v, omega arith, l)
count_outcome-IsPassing c silent_corruption t v n l = (v, omega arith, l)

add_trial-IsPassing :
    (c : Config) (r : Trial) (t : Tally) → IsKept c r → IsPassing c t → IsPassing c (add_trial r t)
unfolding add_trial
add_trial-IsPassing c r t k h =
    count_outcome-IsPassing c r.outcome _ (ground (arith, h.0, k.0)) (omega (arith, h.1))
      (λ d. omega (arith, h.2 d, k.1 d))

pub AreIssued-AllTyped :
    (o : WorkloadOptions) (from : ℕ) (ts : List Transfer) → AreIssued o from ts → AllTyped ts
AreIssued-AllTyped o from [] h = tt
AreIssued-AllTyped o from (t ∷ ts) h = (h.0.typed, AreIssued-AllTyped o (from + 1) ts h.1)

durable_mode : (m : DurabilityMode) → must_be_durable m ≡ true → IsDurableMode m
durable_mode no_sync e = cc
durable_mode lazy_sync e = cc
durable_mode sync_every e = tt
durable_mode group_commit e = tt

exit_code_unchanged :
    (c : Config) (t : Tally) → IsPassing c t → (code : ℕ) → exit_code_after code c t ≡ code
unfolding exit_code_after
exit_code_unchanged c t h code = elim (Bool-cases (must_be_durable c.mode)) [
  | inl d ↦ ground (arith, h.0, h.2 d)
  | inr d ↦ ground (arith, h.0)
]

run_configs_step :
    {S : Type 0} (e : Engines S) (g : ℕ) (p : Params) (c : Config) (cs : List Config) (t : Tally)
    (code : ℕ)
    → campaign_loop e g c p p.trials 0 empty_tally ≡ some t
    → exit_code_after code c t ≡ code
    → run_configs e g p cs code ≡ some code
    → run_configs e g p (c ∷ cs) code ≡ some code
unfolding run_configs run_campaign
run_configs_step e g p c cs t code h k r = ground arith

trial_of_issue :
    {S : Type 0} (e : Engines S) (g : ℕ) (c : Config) (p : Params) (seed : ℕ) (ts : List Transfer)
    → issue e.rng (make_workload p) g p.ops (record { rng_state = e.seeded seed; issued = 0 })
      ≡ some ts
    → trial_with_seed e g c p seed ≡ some (run_trial c p (e.pick seed) (e.draws seed) ts)
unfolding trial_with_seed
trial_of_issue e g c p seed ts h = ground arith

campaign_step :
    {S : Type 0} (e : Engines S) (g : ℕ) (c : Config) (p : Params) (left i : ℕ) (t u : Tally)
    (r : Trial)
    → trial_with_seed e g c p ((p.seed + i) % 2 ^ 64) ≡ some r
    → campaign_loop e g c p left (i + 1) (add_trial r t) ≡ some u
    → campaign_loop e g c p (suc left) i t ≡ some u
unfolding campaign_loop
campaign_step e g c p left i t u r h k = ground arith

module _ {S : Type 0} (e : Engines S) (p : Params) (sane : IsSane (make_workload p))
    (varied : IsVaried e.rng p.accounts) (few : p.ops < 2 ^ 32)
    (fair : (seed : ℕ) → InRange (e.draws seed)) where
  trial_returns :
      (c : Config) (seed : ℕ)
      → (fuel : ℕ) × (r : Trial) × ((g : ℕ) → fuel ≤ g → trial_with_seed e g c p seed ≡ some r)
        × IsKept c r
  unfolding trial_with_seed
  trial_returns c seed =
      let (fuel, ts, made, issued, size) =
        issue-AreIssued e.rng (make_workload p) sane varied p.ops
          (record { rng_state = e.seeded seed; issued = 0 }) (omega arith) in
      let typed = AreIssued-AllTyped (make_workload p) 0 ts issued in
      (
        fuel,
        run_trial c p (e.pick seed) (e.draws seed) ts,
        λ g h. trial_of_issue e g c p seed ts (made g h),
        (
          run_trial-conserves c p (e.pick seed) (e.draws seed) ts,
          λ d.
              run_trial-lost c p (e.pick seed) (e.draws seed) ts (durable_mode c.mode d) typed
                (omega arith) (fair seed),
        ),
      )

  campaign_loop_returns :
      (c : Config) (left i : ℕ) (t : Tally)
      → IsPassing c t
      → (fuel : ℕ) × (u : Tally) × ((g : ℕ) → fuel ≤ g → campaign_loop e g c p left i t ≡ some u)
        × IsPassing c u
        × (u.trials ≡ t.trials + left)
  campaign_loop_returns c zero i t h = (0, t, λ g _. (unfold campaign_loop in refl), h, omega arith)
  campaign_loop_returns c (suc left) i t h =
      let (fuel, r, made, kept) = trial_returns c ((p.seed + i) % 2 ^ 64) in
      let (more, u, rest, passing, count) =
        campaign_loop_returns c left (i + 1) (add_trial r t) (add_trial-IsPassing c r t kept h) in
      (
        fuel + more,
        u,
        λ g d. campaign_step e g c p left i t u r (made g (omega arith)) (rest g (omega arith)),
        passing,
        omega (arith, add_trial_trials r t),
      )

  -- For engines that do not repeat chosen accounts for ever and whose draws are in the range of
  -- their distributions, at least two and less than 2 ^ 32 accounts, and less than 2 ^ 32
  -- transfers a trial: in every mode, with checksums on or off, a whole campaign returns, with
  -- one trial counted for each seed, each of them as exactly one of clean, torn-accepted and
  -- silent corruption, and with no violation of conservation.
  pub run_campaign-passes :
      (c : Config)
      → (fuel : ℕ) × (t : Tally) × ((g : ℕ) → fuel ≤ g → run_campaign e g c p ≡ some t)
        × (t.trials ≡ p.trials)
        × (t.clean + t.torn_accepted + t.silent_corruption ≡ p.trials)
        × (t.conservation_violations ≡ 0)
  unfolding run_campaign
  run_campaign-passes c =
      let (fuel, t, made, passing, count) =
        campaign_loop_returns c p.trials 0 empty_tally (refl, refl, λ _. refl) in
      (fuel, t, made, omega arith, omega (arith, passing.1), passing.0)

  -- For engines that do not repeat chosen accounts for ever and whose draws are in the range of
  -- their distributions, at least two and less than 2 ^ 32 accounts, and less than 2 ^ 32
  -- transfers a trial: in the modes sync_every and group_commit, with checksums on or off, a
  -- whole campaign returns with no acknowledged key lost.
  pub run_campaign-acks_lost :
      (c : Config)
      → must_be_durable c.mode ≡ true
      → (fuel : ℕ) × (t : Tally) × ((g : ℕ) → fuel ≤ g → run_campaign e g c p ≡ some t)
        × (t.acks_lost ≡ 0)
  unfolding run_campaign
  run_campaign-acks_lost c durable =
      let (fuel, t, made, passing, count) =
        campaign_loop_returns c p.trials 0 empty_tally (refl, refl, λ _. refl) in
      (fuel, t, made, passing.2 durable)

  run_configs_returns :
      (cs : List Config) (code : ℕ)
      → (fuel : ℕ) × ((g : ℕ) → fuel ≤ g → run_configs e g p cs code ≡ some code)
  run_configs_returns [] code = (0, λ g _. (unfold run_configs in refl))
  run_configs_returns (c ∷ cs) code =
      let (fuel, t, made, passing, count) =
        campaign_loop_returns c p.trials 0 empty_tally (refl, refl, λ _. refl) in
      let (more, rest) = run_configs_returns cs code in
      (
        fuel + more,
        λ g d.
            run_configs_step e g p c cs t code (made g (omega arith))
              (exit_code_unchanged c t passing code) (rest g (omega arith)),
      )

  -- For engines that do not repeat chosen accounts for ever and whose draws are in the range of
  -- their distributions, at least two and less than 2 ^ 32 accounts, and less than 2 ^ 32
  -- transfers a trial: whatever modes and checksum settings the command line selects, with any
  -- parameters otherwise, the loop of main over them returns, and the exit code is 0: the
  -- regression test of the simulator cannot go red.
  pub run_selected-returned :
      (s : Selection) → (fuel : ℕ) × ((g : ℕ) → fuel ≤ g → run_selected e g p s ≡ some 0)
  unfolding run_selected
  run_selected-returned s = run_configs_returns (configs_of s (true ∷ false ∷ [])) 0
