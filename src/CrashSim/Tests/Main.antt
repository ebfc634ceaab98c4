-- ===== src/CrashSim/Tests/Main.antt =====
-- The main function of the crash simulator, with doubles that count tenths.
use Prim.Native.String.{String, len}
use iron_ledger.Common.{
  ℕ, ◌+◌, ◌≤◌, ◌≡◌, refl, sym, ◌∙◌, ap, subst, false, true, ltb, List, [], ◌∷◌, arith,
}
use iron_ledger.Ledger.Modes.{group_commit}
use iron_ledger.Workload.Counting.{counting, counting-IsVaried}
use iron_ledger.Workload.Accounts.{IsVaried}
use iron_ledger.CrashSim.CommandLine.{
  Doubles, GivenEnd, given, exits, default_given, take_option, read_given, refuses,
}
use iron_ledger.CrashSim.ExitCode.{Returns, crash_sim_main-Returns}
use iron_ledger.CrashSim.ReplayHint.{replay_hint, campaign_params, Replays, replay_hint-Replays}
use iron_ledger.CrashSim.{Config}
use iron_ledger.CrashSim.Tests.{engines, torn-InRange}
use iron_ledger.Conversions.Marks.{tally_marks, tally_marks-ReadsBack}

abbrev tenths : Doubles ℕ
tenths = record {
  half = 5;
  one_fifth = 2;
  strtod = len;
  below_zero = λ _. false;
  sum_above_one = λ a b. ltb 10 (a + b);
  level = λ a. a;
}

-- Two accounts, and a probability of a tenth.
abbrev arguments : List String
arguments = "--accounts" ∷ "||" ∷ "--p-tear" ∷ "|" ∷ "--quiet" ∷ "--ops" ∷ "|||" ∷ []

abbrev accounts_read : GivenEnd ℕ → ℕ
accounts_read (given g) = g.accounts
accounts_read (exits code) = 2

two_read :
    accounts_read (read_given tally_marks tenths arguments (default_given tally_marks tenths)) ≡ 2
unfolding read_given take_option
two_read = refl

crash_sim_main-Returns_example : Returns tally_marks tenths engines (λ _. true) arguments
crash_sim_main-Returns_example =
    crash_sim_main-Returns tally_marks tenths engines (λ _. true) (λ _. torn-InRange) arguments
      (λ g h.
        subst (λ (n : ℕ). (2 ≤ n) × IsVaried counting n) (sym two_read ∙ ap accounts_read h)
          (omega arith, counting-IsVaried))

abbrev batches : Config
batches = record { mode = group_commit; crc = false }

replay_hint-Replays_example :
    Replays tally_marks tenths engines 9
      (λ _. true)
      (replay_hint tally_marks batches (campaign_params tally_marks tenths 4 2))
      batches
      (campaign_params tally_marks tenths 4 2)
      4
unfolding refuses
replay_hint-Replays_example =
    replay_hint-Replays tally_marks tenths engines 9 (λ _. true) tally_marks-ReadsBack 4 2 batches
      refl refl (omega arith)
