-- ===== src/Kill/Tests/Heard.antt =====
-- A driver that is told of one key and a part of another before the worker is killed.
use iron_ledger.Common.{◌/◌, ◌≡◌, refl, true, [], ◌∷◌, take, arith}
use iron_ledger.Common.Int.{◌+ℤ◌, add_overflow, to_u64, to_i64}
use iron_ledger.Device.{read_at}
use iron_ledger.Device.World.{world_write}
use iron_ledger.Wal.Codec.{put_u32, put_loop, put_u64}
use iron_ledger.Wal.Record.{encode_record, fill_header, header_tail}
use iron_ledger.Wal.Writer.{append, flush, flush_buffer}
use iron_ledger.Wal.Scan.{scan_round, scan_loop, scan_log}
use iron_ledger.Ledger.Book.{
  apply, insert_key, find, balance, sum_amounts, add_delta, deltas, check_deltas, validate_sum,
  validate, add_postings, add_balance,
}
use iron_ledger.Ledger.Recovery.{recover}
use iron_ledger.Ledger.Submit.{
  open_ledger, set_ack_sink, flush_writer, ack_all, ack_pending, log_transfer, settle,
  submit_validated, submit, commit,
}
use iron_ledger.Workload.{negate_i64}
use iron_ledger.CrashSim.Totals.{AreIssued-AllTyped}
use iron_ledger.Kill.{got, read_interrupted, closed}
use iron_ledger.Kill.Drained.{ack_stream}
use iron_ledger.Kill.Worker.{work, kill_worker, contents}
use iron_ledger.Kill.Survives.{IsRecovered}
use iron_ledger.Kill.Watch.{TrialAnswers, signaled, keys_told}
use iron_ledger.Kill.Watched.{received_all}
use iron_ledger.Kill.Heard.{emitted, told-IsRecovered}
use iron_ledger.Kill.Tests.{
  unsynced, two_accounts, two_fundings, two_fundings-AreIssued, whole_trace,
}

abbrev told : TrialAnswers
told = record {
  rounds = (got 1 (0 ∷ 0 ∷ []) ∷ []) ∷ (read_interrupted ∷ []) ∷ [];
  kill_worked = true;
  status = signaled 9;
  last = got 0 (0 ∷ 0 ∷ 0 ∷ 0 ∷ 2 ∷ 0 ∷ 0 ∷ []) ∷ closed ∷ [];
}

emitted_two : emitted whole_trace ≡ 1 ∷ 2 ∷ []
unfolding kill_worker work set_ack_sink open_ledger recover scan_log scan_loop scan_round read_at
    submit submit_validated settle log_transfer flush_writer flush flush_buffer ack_pending ack_all
    commit world_write append encode_record fill_header header_tail put_u32 put_u64 put_loop
    validate validate_sum sum_amounts deltas add_delta check_deltas add_overflow find balance ◌+ℤ◌
    negate_i64 to_u64 to_i64 apply insert_key add_postings add_balance
emitted_two = refl

told_bytes : received_all told ≡ take 11 (ack_stream (emitted whole_trace))
unfolding put_u64 put_loop
told_bytes = rw emitted_two refl

told-IsRecovered_example :
    (keys_told told ≡ take (11 / 8) (emitted whole_trace))
    × IsRecovered true two_fundings (contents whole_trace) (keys_told told)
told-IsRecovered_example =
    told-IsRecovered unsynced two_fundings
      (AreIssued-AllTyped two_accounts 0 two_fundings two_fundings-AreIssued) [] whole_trace refl
      true told 11 (omega arith) told_bytes
