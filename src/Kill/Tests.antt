-- ===== src/Kill/Tests.antt =====
-- The theorems of the kill test: the pipe on two keys, cut in the middle of the second, a worker in
-- the mode no_sync, and the arguments of a worker.
mod Driver
mod Heard
use iron_ledger.Common.{◌≡◌, refl, List, [], ◌∷◌, ◌++◌, arith}
use iron_ledger.Wal.Codec.{put_u64, put_loop}
use iron_ledger.Kill.{
  WriteAnswer, wrote, write_interrupted, returned, emit_ack, ReadAnswer, got, closed,
  read_interrupted, drain,
}
use iron_ledger.Common.{true}
use iron_ledger.Device.World.{Event, acks}
use iron_ledger.Ledger.Modes.{no_sync, LedgerOptions}
use iron_ledger.Ledger.Transfer.{Transfer}
use iron_ledger.Workload.{WorkloadOptions, default_options, fund}
use iron_ledger.Workload.Counting.{counting}
use iron_ledger.Workload.Legs.{IsSane}
use iron_ledger.Workload.Payment.{AreIssued, fund-IsIssued}
use iron_ledger.CrashSim.Totals.{AreIssued-AllTyped}
use iron_ledger.Kill.Worker.{kill_worker, contents, Killed, between}
use iron_ledger.Kill.Verdict.{Remains, no_trials, kill_trials, kill_exit_code}
use iron_ledger.Kill.Survives.{IsRecovered, kill_worker-IsRecovered}
use iron_ledger.Kill.Passes.{IsTrial, IsClear, kill_trials-passes}
use iron_ledger.Conversions.Marks.{tally_marks, tally_marks-ReadsBack}
use iron_ledger.Common.{ℕ, zero, suc, ap, false, some}
use iron_ledger.Common.Int.{pos}
use iron_ledger.Ledger.Modes.{group_commit}
use iron_ledger.Conversions.{Conversions, ReadsBack}
use iron_ledger.Kill.CommandLine.{
  read_args, die, set_option, read_options, worker_args, driver_args, worker_args-driver_args,
}
use iron_ledger.Kill.Emit.{emit_ack-returned}
use iron_ledger.Kill.Drained.{IsSplit, ack_stream, received, drain-IsSplit, drain-ack_stream}

abbrev short_writes : List WriteAnswer
short_writes = wrote 3 ∷ write_interrupted ∷ wrote 5 ∷ []

emit_ack-returned_example : emit_ack short_writes 258 (9 ∷ []) ≡ (returned, 9 ∷ [] ++ put_u64 258)
emit_ack-returned_example = emit_ack-returned short_writes 258 (9 ∷ []) tt (omega arith)

-- A worker in the mode no_sync on a stream that funds two accounts.
abbrev pub two_accounts : WorkloadOptions
two_accounts = record default_options { accounts = 2 }

two_accounts-IsSane : IsSane two_accounts
two_accounts-IsSane = record {
  two = omega arith;
  few = omega arith;
  legs = omega arith;
  funds = refl;
  funds_fit = omega arith;
  amount_from = omega arith;
  amount_neg = refl;
  amount_to = omega arith;
}

abbrev pub two_fundings : List Transfer
two_fundings = fund counting two_accounts 1 ∷ fund counting two_accounts 2 ∷ []

pub two_fundings-AreIssued : AreIssued two_accounts 0 two_fundings
two_fundings-AreIssued = (
  fund-IsIssued counting two_accounts two_accounts-IsSane 1 (omega arith),
  (fund-IsIssued counting two_accounts two_accounts-IsSane 2 (omega arith), tt),
)

abbrev pub unsynced : LedgerOptions
unsynced = record { mode = no_sync; verify_crc = true; group_size = 1 }

abbrev pub whole_trace : List Event
whole_trace = (kill_worker unsynced two_fundings).world.trace

Killed-at_end : Killed whole_trace (contents whole_trace) (acks whole_trace)
Killed-at_end = between [] whole_trace (acks whole_trace) refl (λ k e. e)

kill_worker-IsRecovered_example :
    IsRecovered true two_fundings (contents whole_trace) (acks whole_trace)
kill_worker-IsRecovered_example =
    kill_worker-IsRecovered unsynced true two_fundings (contents whole_trace) (acks whole_trace)
      (AreIssued-AllTyped two_accounts 0 two_fundings two_fundings-AreIssued) (omega arith)
      Killed-at_end

abbrev remains : Remains
remains = record {
  died = true;
  image = contents whole_trace;
  keys = acks whole_trace;
  stream = two_fundings;
}

remains-IsTrial : IsTrial unsynced remains
remains-IsTrial = record {
  workload = two_accounts;
  issued = two_fundings-AreIssued;
  few = omega arith;
  killed = Killed-at_end;
}

kill_trials-passes_example :
    ((kill_trials unsynced (remains ∷ remains ∷ []) no_trials).trials ≡ 2)
    × IsClear (kill_trials unsynced (remains ∷ remains ∷ []) no_trials)
    × (kill_exit_code 0 no_sync (kill_trials unsynced (remains ∷ remains ∷ []) no_trials) ≡ 0)
kill_trials-passes_example =
    kill_trials-passes unsynced (remains ∷ remains ∷ []) 0 (remains-IsTrial, (remains-IsTrial, tt))

worker_args-driver_args_example :
    worker_args tally_marks (driver_args tally_marks "/tmp/kill.log" group_commit false 4 9 3)
    ≡ read_args (record {
      path = some "/tmp/kill.log";
      opts = record { mode = group_commit; verify_crc = false; group_size = 4 };
      seed = 9;
      accounts = 3;
      ops = 2_000_000;
    })
worker_args-driver_args_example =
    worker_args-driver_args tally_marks tally_marks-ReadsBack "/tmp/kill.log" group_commit false 4 9
      3 (omega arith) (omega arith) (omega arith)

missing_path : worker_args tally_marks ("--seed" ∷ "|||" ∷ []) ≡ die "--path is required"
unfolding worker_args read_options set_option
missing_path = refl
