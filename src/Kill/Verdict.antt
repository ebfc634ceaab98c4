-- ===== src/Kill/Verdict.antt =====
-- tools/kill_driver.cpp: what `RunTrial` finds in the file that the worker left, the sum over the
-- trials, and the exit code of `main`. What CleanReplay does is as in tools/crash_sim.cpp.
use iron_ledger.Common.{
  ℕ, ◌+◌, Bool, not, ◌&&◌, ◌||◌, List, [], ◌∷◌, ◌==◌, if◌then◌else◌, length, take,
}
use iron_ledger.Device.{from_image}
use iron_ledger.Ledger.Modes.{DurabilityMode, LedgerOptions}
use iron_ledger.Ledger.Transfer.{Transfer}
use iron_ledger.Ledger.Book.{total_balance, is_zero}
use iron_ledger.Ledger.Recovery.{RecoveryReport, empty_report, corruption_admitted}
use iron_ledger.Ledger.Submit.{Ledger, open_ledger}
use iron_ledger.CrashSim.{count_lost, dense_from, same_balances, clean_replay}
use iron_ledger.CrashSim.Campaign.{bit, must_be_durable}

-- Tally
pub record KillTally : Type 0 where
  pub trials : ℕ
  pub killed : ℕ
  pub acks : ℕ
  pub acks_lost : ℕ
  pub prefix_violations : ℕ
  pub state_mismatches : ℕ
  pub conservation_violations : ℕ
  pub corruption_admitted : ℕ

abbrev pub no_trials : KillTally
no_trials = record {
  trials = 0;
  killed = 0;
  acks = 0;
  acks_lost = 0;
  prefix_violations = 0;
  state_mismatches = 0;
  conservation_violations = 0;
  corruption_admitted = 0;
}

-- What a trial comes to before the recovery: whether the worker died of the signal, the file, the
-- keys received, and the stream of the trial's seed.
pub record Remains : Type 0 where
  pub died : Bool
  pub image : List ℕ
  pub keys : List ℕ
  pub stream : List Transfer

-- The checks on the recovered ledger.
unfoldable pub inspect : Remains → Ledger → RecoveryReport → KillTally → KillTally
inspect r recovered report t =
    let applied = recovered.book.applied_keys in
    let prefix_ok = dense_from 0 applied in
    let state_bad =
      prefix_ok
      && not
          (same_balances recovered.book.balances (clean_replay (take (length applied) r.stream))) in
    record {
      trials = t.trials + 1;
      killed = t.killed + bit r.died;
      acks = t.acks + length r.keys;
      acks_lost = t.acks_lost + count_lost r.keys recovered.book;
      prefix_violations = t.prefix_violations + bit (not prefix_ok);
      state_mismatches = t.state_mismatches + bit state_bad;
      conservation_violations =
          t.conservation_violations + bit (not (is_zero (total_balance recovered.book.balances)));
      corruption_admitted = t.corruption_admitted + bit (corruption_admitted report);
    }

-- `RunTrial` from the death of the worker on.
unfoldable pub kill_trial : LedgerOptions → Remains → KillTally → KillTally
kill_trial opts r t =
    let (recovered, report) =
      open_ledger (record { dev = from_image r.image; trace = [] }) opts empty_report in
    inspect r recovered report t

-- The trials of a mode.
unfoldable pub kill_trials : LedgerOptions → List Remains → KillTally → KillTally
kill_trials opts [] t = t
kill_trials opts (r ∷ rs) t = kill_trials opts rs (kill_trial opts r t)

-- The tests of `main` on a tally.
unfoldable pub kill_exit_code : ℕ → DurabilityMode → KillTally → ℕ
kill_exit_code code m t =
    let code' = if must_be_durable m && not (t.acks_lost == 0) then 1 else code in
    if not (t.conservation_violations == 0) || not (t.prefix_violations == 0) then 1 else code'
