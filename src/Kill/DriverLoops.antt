-- ===== src/Kill/DriverLoops.antt =====
-- The loops of kill_driver.cpp over the trials and the modes: which trials were run.
use Prim.Native.String.{String}
use iron_ledger.Common.{
  ℕ, zero, suc, ◌+◌, ◌%◌, ◌^◌, ◌≤◌, ◌<◌, ◌≡◌, ◌⊎◌, inl, inr, refl, sym, ◌∙◌, ap, subst, Bool, true,
  false, Bool-cases, Option-cases, none, some, List, [], ◌∷◌, if◌then◌else◌, ◌==◌, ==_iff, arith,
}
use iron_ledger.Conversions.{Conversions, ReadsBack}
use iron_ledger.Ledger.Modes.{DurabilityMode}
use iron_ledger.Kill.CommandLine.{WorkerArgs, read_args, worker_args, worker_args-driver_args}
use iron_ledger.Kill.Verdict.{KillTally, no_trials, kill_trial, kill_exit_code}
use iron_ledger.Kill.Passes.{IsTrial, IsClear, kill_trial-nothing_amiss, clear_exit_code}
use iron_ledger.Kill.Driver.{
  DriverParams, Victim, judged, Host, trial_stream, trial_path, trial_options, trial_args,
  run_trials, run_modes,
}

-- What a host can leave: for arguments that the worker reads, what SIGKILL leaves of the worker with
-- the stream of the seed and the number of accounts read.
pub record IsTrueHost (c : Conversions) (h : Host) : Type 0 where
  pub leaves :
      (args : List String) (w : WorkerArgs) (v : Victim)
      → worker_args c args ≡ read_args w
      → h.processes args ≡ some v
      → IsTrial w.opts (judged v (h.stream w.seed w.accounts))

module _ {F : Type 0} (c : Conversions) (h : Host) (p : DriverParams F) where
  -- The trials `i` to `end` of a mode were run.
  abbrev pub RanFrom : DurabilityMode → ℕ → ℕ → Type 0
  RanFrom m i end =
      (j : ℕ) → i ≤ j → j < end → (v : Victim) × (h.processes (trial_args c h p m j) ≡ some v)

  -- One of them was not.
  abbrev pub FailedFrom : DurabilityMode → ℕ → ℕ → Type 0
  FailedFrom m i end = (j : ℕ) × (i ≤ j) × (j < end) × (h.processes (trial_args c h p m j) ≡ none)

  -- All trials of the modes were run; or one of them was not.
  abbrev pub RanAll : List DurabilityMode → Type 0
  RanAll [] = Unit
  RanAll (m ∷ ms) = RanFrom m 0 p.trials × RanAll ms

  abbrev pub FailedOne : Type 0
  FailedOne = (m : DurabilityMode) × FailedFrom m 0 p.trials

module _ {F : Type 0} (c : Conversions) (h : Host) (back : ReadsBack c) (true_host : IsTrueHost c h)
    (p : DriverParams F) (group : p.group < 2 ^ 32) (accounts : p.accounts < 2 ^ 32) where
  trial_args-IsTrial :
      (m : DurabilityMode) (i : ℕ) (v : Victim)
      → h.processes (trial_args c h p m i) ≡ some v
      → IsTrial (trial_options c h p m) (judged v (trial_stream c h p i))
  trial_args-IsTrial m i v e =
      true_host.leaves (trial_args c h p m i)
        (record {
          path = some (trial_path c h p i);
          opts = trial_options c h p m;
          seed = (p.seed + i) % 2 ^ 64;
          accounts = p.accounts;
          ops = 2_000_000;
        })
        v
        (worker_args-driver_args c back (trial_path c h p i) m true p.group ((p.seed + i) % 2 ^ 64)
          p.accounts group (omega arith) accounts)
        e

  trials_end :
      (m : DurabilityMode) (i : ℕ) (t : KillTally) → run_trials c h p m zero i t ≡ (false, t)
  unfolding run_trials
  trials_end m i t = refl

  trials_broken :
      (m : DurabilityMode) (left i : ℕ) (t : KillTally)
      → h.processes (trial_args c h p m i) ≡ none
      → run_trials c h p m (suc left) i t ≡ (true, t)
  unfolding run_trials
  trials_broken m left i t e = ground arith

  trials_step :
      (m : DurabilityMode) (left i : ℕ) (t : KillTally) (v : Victim)
      → h.processes (trial_args c h p m i) ≡ some v
      → run_trials c h p m (suc left) i t
        ≡ run_trials c h p m left
            (i + 1)
            (kill_trial (trial_options c h p m) (judged v (trial_stream c h p i)) t)
  unfolding run_trials
  trials_step m left i t v e = ground arith

  -- How the loop over the trials ends.
  abbrev TrialsEnd : DurabilityMode → ℕ → ℕ → Bool × KillTally → Type 0
  TrialsEnd m i end (broken, t) =
      IsClear t
      × (((broken ≡ false) × RanFrom c h p m i end) ⊎ ((broken ≡ true) × FailedFrom c h p m i end))

  ran_more :
      (m : DurabilityMode) (i end : ℕ) (v : Victim)
      → h.processes (trial_args c h p m i) ≡ some v
      → RanFrom c h p m (i + 1) end
      → RanFrom c h p m i end
  ran_more m i end v e ran j le lt = elim (Bool-cases (j == i)) [
    | inl same ↦ (v, ap (λ n. h.processes (trial_args c h p m n)) ((==_iff j i).0 same) ∙ e)
    | inr other ↦ ran j (ground arith) lt
  ]

  end_step :
      (m : DurabilityMode) (i end : ℕ) (v : Victim) (x : Bool × KillTally)
      → h.processes (trial_args c h p m i) ≡ some v
      → TrialsEnd m (i + 1) end x
      → TrialsEnd m i end x
  end_step m i end v (broken, t) e (clear, inl (whole, ran)) =
      (clear, inl (whole, ran_more m i end v e ran))
  end_step m i end v (broken, t) e (clear, inr (off, (j, le, lt, failed))) =
      (clear, inr (off, (j, omega arith, lt, failed)))

  run_trials-TrialsEnd :
      (m : DurabilityMode) (left i end : ℕ) (t : KillTally)
      → i + left ≡ end
      → IsClear t
      → TrialsEnd m i end (run_trials c h p m left i t)
  run_trials-TrialsEnd m zero i end t whole clear =
      subst (TrialsEnd m i end) (sym (trials_end m i t))
        (clear, inl (refl, λ j le lt. absurd (omega arith)))
  run_trials-TrialsEnd m (suc left) i end t whole clear =
      elim (Option-cases (h.processes (trial_args c h p m i))) [
        | inl e ↦
            subst (TrialsEnd m i end) (sym (trials_broken m left i t e))
              (clear, inr (refl, (i, omega arith, omega arith, e)))
        | inr (v, e) ↦
            let r = judged v (trial_stream c h p i) in
            let same =
              kill_trial-nothing_amiss (trial_options c h p m) r (trial_args-IsTrial m i v e) t in
            let t' = kill_trial (trial_options c h p m) r t in
            subst (TrialsEnd m i end) (sym (trials_step m left i t v e)) (
              end_step m i end v (run_trials c h p m left (i + 1) t') e (
                run_trials-TrialsEnd m left (i + 1) end t' (omega arith)
                  (subst IsClear (sym same) clear)))
      ]

  mode_step :
      (m : DurabilityMode) (ms : List DurabilityMode) (exit : ℕ) (x : Bool × KillTally)
      → run_trials c h p m p.trials 0 no_trials ≡ x
      → IsClear x.1
      → run_modes c h p (m ∷ ms) exit ≡ run_modes c h p ms (if x.0 then 2 else exit)
  unfolding run_modes
  mode_step m ms exit x e clear =
      ap (λ y. run_modes c h p ms (kill_exit_code (if y.0 then 2 else exit) m y.1)) e
      ∙ ap (run_modes c h p ms) (clear_exit_code (if x.0 then 2 else exit) m x.1 clear)

  abbrev pub ModesEnd : List DurabilityMode → ℕ → ℕ → Type 0
  ModesEnd ms exit result = ((result ≡ exit) × RanAll c h p ms) ⊎ ((result ≡ 2) × FailedOne c h p)

  modes_step :
      (m : DurabilityMode) (ms : List DurabilityMode) (exit result : ℕ) (broken : Bool)
      → ((broken ≡ false) × RanFrom c h p m 0 p.trials)
        ⊎ ((broken ≡ true) × FailedFrom c h p m 0 p.trials)
      → ModesEnd ms (if broken then 2 else exit) result
      → ModesEnd (m ∷ ms) exit result
  modes_step m ms exit result true (inl (whole, ran)) e = absurd (ground arith)
  modes_step m ms exit result true (inr (off, failed)) (inl (e, ran)) = inr (e, (m, failed))
  modes_step m ms exit result true (inr (off, failed)) (inr (e, other)) = inr (e, (m, failed))
  modes_step m ms exit result false (inl (whole, ran)) (inl (e, all)) = inl (e, (ran, all))
  modes_step m ms exit result false (inl (whole, ran)) (inr failed) = inr failed
  modes_step m ms exit result false (inr (off, failed)) e = absurd (ground arith)

  pub run_modes-ModesEnd :
      (ms : List DurabilityMode) (exit : ℕ) → ModesEnd ms exit (run_modes c h p ms exit)
  run_modes-ModesEnd [] exit = inl ((unfold run_modes in refl), tt)
  run_modes-ModesEnd (m ∷ ms) exit =
      let x = run_trials c h p m p.trials 0 no_trials in
      let (clear, ended) =
        run_trials-TrialsEnd m p.trials 0 p.trials no_trials (omega arith)
          (refl, refl, refl, refl, refl) in
      subst (ModesEnd (m ∷ ms) exit) (sym (mode_step m ms exit x refl clear)) (
        modes_step m ms exit (run_modes c h p ms (if x.0 then 2 else exit)) x.0 ended
          (run_modes-ModesEnd ms (if x.0 then 2 else exit)))
