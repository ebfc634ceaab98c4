-- ===== src/Kill/Passes.antt =====
-- The verdicts of kill_driver.cpp on what the worker leaves.
use iron_ledger.Common.{
  ℕ, ◌+◌, ◌^◌, ◌<◌, ◌≡◌, refl, sym, ◌∙◌, ap, subst, true, false, List, [], ◌∷◌, length, take, arith,
}
use iron_ledger.Device.{contains, from_image}
use iron_ledger.Ledger.Modes.{DurabilityMode, LedgerOptions}
use iron_ledger.Ledger.Book.{empty_book, total_balance, is_zero}
use iron_ledger.Ledger.Recovery.{RecoveryReport, recover, empty_report, corruption_admitted}
use iron_ledger.Ledger.Recovery.Replay.{recover-IsSound}
use iron_ledger.Ledger.Submit.{Ledger, open_ledger}
use iron_ledger.Ledger.Submit.Log.{replay}
use iron_ledger.Workload.{WorkloadOptions}
use iron_ledger.Workload.Payment.{AreIssued}
use iron_ledger.CrashSim.{clean_replay, same_balances, count_lost, dense_from}
use iron_ledger.CrashSim.Campaign.{bit}
use iron_ledger.CrashSim.Cut.{count_lost-zero}
use iron_ledger.CrashSim.Totals.{AreIssued-AllTyped}
use iron_ledger.Kill.Worker.{kill_worker, Killed}
use iron_ledger.Kill.Survives.{IsRecovered, kill_worker-IsRecovered}
use iron_ledger.Kill.Verdict.{
  KillTally, no_trials, Remains, inspect, kill_trial, kill_trials, kill_exit_code,
}
use iron_ledger.Kill.Replayed.{applied_dense, state_equal}

-- The counters of a trial in which nothing is found amiss.
abbrev pub nothing_amiss : Remains → KillTally → KillTally
nothing_amiss r t = record t {
  trials = t.trials + 1;
  killed = t.killed + bit r.died;
  acks = t.acks + length r.keys;
}

inspect-nothing_amiss :
    (r : Remains) (l : Ledger) (report : RecoveryReport) (t : KillTally)
    → dense_from 0 l.book.applied_keys ≡ true
    → same_balances l.book.balances (clean_replay (take (length l.book.applied_keys) r.stream))
      ≡ true
    → count_lost r.keys l.book ≡ 0
    → is_zero (total_balance l.book.balances) ≡ true
    → corruption_admitted report ≡ false
    → inspect r l report t ≡ nothing_amiss r t
unfolding inspect
inspect-nothing_amiss r l report t dense same lost zero_sum honest =
    let add_none : (n : ℕ) → n + 0 ≡ n = λ n. omega arith in
    rw
      (
        dense,
        same,
        lost,
        zero_sum,
        honest,
        add_none t.acks_lost,
        add_none t.prefix_violations,
        add_none t.state_mismatches,
        add_none t.conservation_violations,
        add_none t.corruption_admitted,
      )
      refl

-- A trial that can have come to be.
pub record IsTrial (opts : LedgerOptions) (r : Remains) : Type 0 where
  pub workload : WorkloadOptions
  pub issued : AreIssued workload 0 r.stream
  pub few : length r.stream < 2 ^ 32
  pub killed : Killed (kill_worker opts r.stream).world.trace r.image r.keys

module _ (opts : LedgerOptions) (r : Remains) (h : IsTrial opts r) where
  found_after : IsRecovered opts.verify_crc r.stream r.image r.keys
  found_after =
      kill_worker-IsRecovered opts opts.verify_crc r.stream r.image r.keys
        (AreIssued-AllTyped h.workload 0 r.stream h.issued) h.few h.killed

  pub kill_trial-nothing_amiss : (t : KillTally) → kill_trial opts r t ≡ nothing_amiss r t
  unfolding kill_trial open_ledger corruption_admitted
  kill_trial-nothing_amiss t =
      let f = found_after in
      let book : (recover (from_image r.image) opts.verify_crc empty_report).0.0
          ≡ replay f.applied empty_book =
        ap (λ x. x.0.0) f.found in
      inspect-nothing_amiss r
        (open_ledger (record { dev = from_image r.image; trace = [] }) opts empty_report).0
        (recover (from_image r.image) opts.verify_crc empty_report).0.1 t
        (subst (λ b. dense_from 0 b.applied_keys ≡ true) (sym book)
          (applied_dense h.workload f.applied f.rest r.stream f.together h.issued))
        (subst
          (λ b.
            same_balances b.balances (clean_replay (take (length b.applied_keys) r.stream)) ≡ true)
          (sym book) (state_equal f.applied f.rest r.stream f.together f.valid))
        (count_lost-zero r.keys (recover (from_image r.image) opts.verify_crc empty_report).0.0
          (λ k e. subst (λ b. contains k b.seen_keys ≡ true) (sym book) (f.known k e)))
        (ap is_zero (recover-IsSound (from_image r.image) opts.verify_crc empty_report).conserved)
        (ap (λ x. corruption_admitted x.0.1) f.found)

abbrev pub AreTrials : LedgerOptions → List Remains → Type 0
AreTrials opts [] = Unit
AreTrials opts (r ∷ rs) = IsTrial opts r × AreTrials opts rs

-- The counters of trials in which nothing is found amiss.
abbrev pub none_amiss : List Remains → KillTally → KillTally
none_amiss [] t = t
none_amiss (r ∷ rs) t = none_amiss rs (nothing_amiss r t)

kill_trials-none_amiss :
    (opts : LedgerOptions) (rs : List Remains) (t : KillTally)
    → AreTrials opts rs
    → kill_trials opts rs t ≡ none_amiss rs t
unfolding kill_trials
kill_trials-none_amiss opts [] t h = refl
kill_trials-none_amiss opts (r ∷ rs) t h =
    kill_trials-none_amiss opts rs (kill_trial opts r t) h.1
    ∙ ap (none_amiss rs) (kill_trial-nothing_amiss opts r h.0 t)

-- What the tests of `main` read.
abbrev pub IsClear : KillTally → Type 0
IsClear t =
    (t.acks_lost ≡ 0)
    × (t.prefix_violations ≡ 0)
    × (t.state_mismatches ≡ 0)
    × (t.conservation_violations ≡ 0)
    × (t.corruption_admitted ≡ 0)

none_amiss-IsClear : (rs : List Remains) (t : KillTally) → IsClear t → IsClear (none_amiss rs t)
none_amiss-IsClear [] t h = h
none_amiss-IsClear (r ∷ rs) t h = none_amiss-IsClear rs (nothing_amiss r t) h

none_amiss_trials :
    (rs : List Remains) (t : KillTally) → (none_amiss rs t).trials ≡ t.trials + length rs
none_amiss_trials [] t = omega arith
none_amiss_trials (r ∷ rs) t = omega (arith, none_amiss_trials rs (nothing_amiss r t))

pub clear_exit_code :
    (code : ℕ) (m : DurabilityMode) (t : KillTally) → IsClear t → kill_exit_code code m t ≡ code
unfolding kill_exit_code
clear_exit_code code m t h = ground (arith, h.0, h.1, h.3)

-- In any mode, for trials whose streams, of less than 2 ^ 32 transfers, are issued by the
-- workload generator and whose files and keys are what SIGKILL leaves of the worker: the driver
-- counts every trial, no lost acknowledgement, no prefix violation, no state mismatch, no
-- violation of conservation and no admitted corruption, and leaves the exit code as it was.
pub kill_trials-passes :
    (opts : LedgerOptions) (rs : List Remains) (code : ℕ)
    → AreTrials opts rs
    → ((kill_trials opts rs no_trials).trials ≡ length rs)
      × IsClear (kill_trials opts rs no_trials)
      × (kill_exit_code code opts.mode (kill_trials opts rs no_trials) ≡ code)
kill_trials-passes opts rs code h =
    let e = kill_trials-none_amiss opts rs no_trials h in
    let clear = none_amiss-IsClear rs no_trials (refl, refl, refl, refl, refl) in
    rw e (
      omega (arith, none_amiss_trials rs no_trials),
      clear,
      clear_exit_code code opts.mode (none_amiss rs no_trials) clear,
    )
