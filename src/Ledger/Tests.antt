-- ===== src/Ledger/Tests.antt =====
-- The ledger's theorems on a funding transfer from the world and a payment.
mod Batches
use iron_ledger.Common.{
  ℕ, ◌+◌, ◌^◌, ◌≤◌, ◌<◌, ◌≡◌, refl, true, some, List, [], ◌∷◌, ◌++◌, length, take, ap, byte_at,
  arith,
}
use iron_ledger.Common.Int.{pos, negsuc, ◌+ℤ◌, add_i64, add_overflow, to_u64, to_i64}
use iron_ledger.Device.{
  SimDevice, CutPolicy, Draw, contains, from_image, write_at, read_at, power_cut,
}
use iron_ledger.Device.World.{Event, wrote, acked, acks, world_write, world_sync}
use iron_ledger.Wal.Codec.{put_u32, put_loop, put_u64, get_u32}
use iron_ledger.Wal.Record.{encode_record, fill_header, header_tail}
use iron_ledger.Wal.Writer.{append, flush, flush_buffer, sync_log, next_lsn}
use iron_ledger.Wal.Scan.Run.{here}
use iron_ledger.Wal.Scan.{scan_round, scan_loop, scan_log}
use iron_ledger.Ledger.Modes.{
  no_sync, lazy_sync, sync_every, LedgerOptions, ok, unbalanced, insufficient_funds,
}
use iron_ledger.Ledger.Transfer.{
  Transfer, IsTyped, push_u32, push_loop, push_u64, read_loop, read_u64, encode_postings,
  encode_transfer, decode_postings, decode_transfer,
}
use iron_ledger.Ledger.Transfer.RoundTrip.{
  decode_transfer-encode_transfer, encode_transfer-decode_transfer,
}
use iron_ledger.Ledger.Book.{
  Balances, Book, empty_book, find, balance, add_balance, add_postings, insert_key, apply,
  total_balance, sum_amounts, add_delta, deltas, check_deltas, validate_sum, validate,
}
use iron_ledger.Ledger.Book.Deltas.{IsAcceptable, sum, net, validate-IsAcceptable}
use iron_ledger.Ledger.Book.Sound.{IsSound, empty_book-IsSound, apply-IsSound, balance-apply}
use mathlib.Core.List.{Permᴰ}
use iron_ledger.Ledger.Book.Order.{accepts, check_deltas-Perm}
use iron_ledger.Ledger.Book.Total.{total_balance-add_postings}
use iron_ledger.Ledger.Recovery.{recover, empty_report}
use iron_ledger.Ledger.Recovery.Replay.{recover-IsSound}
use iron_ledger.Ledger.Submit.{
  Ledger, open_ledger, set_ack_sink, flush_writer, sync_now, ack_all, ack_pending, log_transfer,
  settle, submit_validated, submit, Op, op_submit, op_commit, perform, perform_all,
}
use iron_ledger.Ledger.Submit.Log.{
  Recovers, AllValid, replay, log_bytes, log_record, Recovers-log_bytes,
}
use iron_ledger.Ledger.Submit.Pieces.{IsCut, log_bytes-le}
use iron_ledger.Ledger.Submit.Truncated.{recovered, recover-take}
use iron_ledger.Ledger.Submit.Reopen.{committed, all_of, commit-recover}
use iron_ledger.Ledger.Submit.Answered.{commit-answers}
use iron_ledger.Ledger.Submit.Counts.{syncs, no_sync-syncs}
use iron_ledger.Ledger.Submit.Life.{
  Life, recover-Recovers, born, listens, does, breaks, reopened, acknowledged_is_recovered,
  acknowledged_is_recovered_at_call,
}

abbrev pub fund : Transfer
fund = record {
  idem_key = 7;
  postings =
      record { account = 0; amount = negsuc 99 } ∷ record { account = 1; amount = pos 100 } ∷ [];
}

abbrev pub pay : Transfer
pay = record {
  idem_key = 8;
  postings =
      record { account = 1; amount = negsuc 29 } ∷ record { account = 2; amount = pos 30 } ∷ [];
}

pub fund-IsTyped : IsTyped fund
fund-IsTyped = (
  omega arith,
  (omega arith, (omega arith, omega arith), (omega arith, (omega arith, omega arith), tt)),
)

abbrev fund_bytes : List ℕ
fund_bytes =
    7 ∷ 0 ∷ 0 ∷ 0 ∷ 0 ∷ 0 ∷ 0 ∷ 0 ∷ 2 ∷ 0 ∷ 0 ∷ 0 ∷ 0 ∷ 0 ∷ 0 ∷ 0 ∷ 0 ∷ 0 ∷ 0 ∷ 0 ∷ 156 ∷ 255 ∷ 255
    ∷ 255 ∷ 255 ∷ 255 ∷ 255 ∷ 255 ∷ 1 ∷ 0 ∷ 0 ∷ 0 ∷ 0 ∷ 0 ∷ 0 ∷ 0 ∷ 100 ∷ 0 ∷ 0 ∷ 0 ∷ 0 ∷ 0 ∷ 0 ∷ 0
    ∷ []

fund_decoded : decode_transfer fund_bytes ≡ some fund
unfolding decode_transfer decode_postings read_u64 read_loop to_i64 get_u32
fund_decoded = refl

fund_accepted : validate fund empty_book ≡ ok
unfolding validate validate_sum sum_amounts deltas add_delta check_deltas add_overflow find balance
    ◌+ℤ◌
fund_accepted = refl

abbrev funded_book : Book
funded_book = apply fund empty_book

pay_accepted : validate pay funded_book ≡ ok
unfolding validate validate_sum sum_amounts deltas add_delta check_deltas add_overflow find balance
    ◌+ℤ◌ apply add_postings add_balance insert_key add_i64 to_u64 to_i64
pay_accepted = refl

funded-IsSound : IsSound funded_book
funded-IsSound = apply-IsSound fund empty_book empty_book-IsSound fund_accepted

validate-IsAcceptable_example : IsAcceptable pay funded_book
validate-IsAcceptable_example = validate-IsAcceptable pay funded_book pay_accepted

apply-IsSound_example : IsSound (apply pay funded_book)
apply-IsSound_example = apply-IsSound pay funded_book funded-IsSound pay_accepted

balance-apply_example :
    balance 1 (apply pay funded_book).balances
    ≡ balance 1 funded_book.balances +ℤ net 1 pay.postings
balance-apply_example = balance-apply 1 pay funded_book funded-IsSound pay_accepted (omega arith)

pay_sum : sum pay.postings ≡ pos 0
unfolding sum ◌+ℤ◌
pay_sum = refl

abbrev options : LedgerOptions
options = record { mode = sync_every; verify_crc = true; group_size = 1 }

abbrev first_log : List ℕ
first_log = log_bytes 0 (fund ∷ [])

recover-IsSound_example : IsSound (recover (from_image first_log) true empty_report).0.0
recover-IsSound_example = recover-IsSound (from_image first_log) true empty_report

first_log_fits : 0 + length (log_bytes 0 (fund ∷ [])) < 2 ^ 64
unfolding log_bytes encode_record fill_header header_tail put_u32 put_u64 put_loop encode_transfer
    encode_postings push_u32 push_u64 push_loop
first_log_fits = omega arith

abbrev started : Ledger
started = set_ack_sink (reopened [] options [])

started_fits : next_lsn started.writer + 164 < 2 ^ 64
unfolding set_ack_sink open_ledger recover scan_log scan_loop scan_round read_at
started_fits = omega arith

abbrev after_fund : Ledger
after_fund = perform (op_submit fund) started

after_fund-Life : Life options after_fund
after_fund-Life = does (op_submit fund) (listens born) fund-IsTyped started_fits

abbrev policy : CutPolicy
policy = record { p_persist = 5; p_tear = 2 }

abbrev torn : ℕ → Draw
torn s = record { unit = 6; pick = λ _. 1 }

after_fund_fits : next_lsn after_fund.writer + 164 < 2 ^ 64
unfolding set_ack_sink open_ledger recover scan_log scan_loop scan_round read_at perform submit
    submit_validated settle log_transfer flush_writer flush flush_buffer sync_now sync_log
    ack_pending append encode_record fill_header header_tail put_u32 put_u64 put_loop
    encode_transfer encode_postings push_u32 push_u64 push_loop validate validate_sum sum_amounts
    deltas add_delta check_deltas add_overflow find balance ◌+ℤ◌
after_fund_fits = omega arith

abbrev after_pay : Ledger
after_pay = perform (op_submit pay) after_fund

pub pay-IsTyped : IsTyped pay
pay-IsTyped = (
  omega arith,
  (omega arith, (omega arith, omega arith), (omega arith, (omega arith, omega arith), tt)),
)

after_pay-Life : Life options after_pay
after_pay-Life = does (op_submit pay) after_fund-Life pay-IsTyped after_fund_fits

-- The device at the write of the second record, before it is synced.
abbrev at_second_write : SimDevice
at_second_write =
    write_at after_fund.writer.tail (log_record after_fund.writer.tail pay) after_fund.world.dev

-- The calls before that of the sink for the second transfer.
abbrev before_second_ack : List Event
before_second_ack = wrote at_second_write ∷ after_fund.world.trace

second_ack : after_pay.world.trace ≡ acked 8 after_pay.world.dev ∷ before_second_ack
unfolding set_ack_sink open_ledger recover scan_log scan_loop scan_round read_at perform submit
    submit_validated settle log_transfer flush_writer flush flush_buffer sync_now sync_log
    ack_pending ack_all world_write world_sync append encode_record fill_header header_tail put_u32
    put_u64 put_loop validate validate_sum sum_amounts deltas add_delta check_deltas add_overflow
    find balance ◌+ℤ◌ apply add_postings add_balance insert_key add_i64 to_u64 to_i64
    encode_transfer encode_postings push_u64 push_loop push_u32
second_ack = refl

second_acknowledged : contains 8 (acks (acked 8 after_pay.world.dev ∷ before_second_ack)) ≡ true
unfolding acks
second_acknowledged = refl

-- The power goes in the sink's call for the second transfer, and the ledger is opened again.
abbrev after_break : Ledger
after_break =
    reopened (power_cut policy torn after_pay.world.dev) options
      (acked 8 after_pay.world.dev ∷ before_second_ack)

after_break-Life : Life options after_break
after_break-Life =
    breaks policy torn [] before_second_ack (acked 8 after_pay.world.dev) after_pay-Life second_ack
      (λ s len h. (omega arith, omega arith))

break_acknowledged : contains 8 (acks after_break.world.trace) ≡ true
unfolding open_ledger
break_acknowledged = second_acknowledged

acknowledged_is_recovered_example :
    contains 8
      (recover
        (from_image (power_cut policy torn after_break.world.dev))
        true
        empty_report).0.0.seen_keys
    ≡ true
acknowledged_is_recovered_example =
    acknowledged_is_recovered tt policy torn 8 after_break-Life
      (λ s len h. (omega arith, omega arith)) break_acknowledged

acknowledged_is_recovered_at_call_example :
    contains 8
      (recover
        (from_image (power_cut policy torn after_pay.world.dev))
        true
        empty_report).0.0.seen_keys
    ≡ true
acknowledged_is_recovered_at_call_example =
    acknowledged_is_recovered_at_call tt policy torn [] before_second_ack
      (acked 8 after_pay.world.dev) 8 after_pay-Life second_ack
      (λ s len h. (omega arith, omega arith)) second_acknowledged

recover-Recovers_example :
    Recovers first_log true
      (recover (from_image first_log) true empty_report).1
      (recover (from_image first_log) true empty_report).0.0
recover-Recovers_example = recover-Recovers first_log true

abbrev unsafe_options : LedgerOptions
unsafe_options = record { mode = no_sync; verify_crc = true; group_size = 1 }

abbrev unsafe_ledger : Ledger
unsafe_ledger = set_ack_sink (reopened [] unsafe_options [])

unsafe_mode : unsafe_ledger.opts.mode ≡ no_sync
unfolding set_ack_sink open_ledger
unsafe_mode = refl

no_sync-syncs_example :
    syncs (perform_all (op_submit fund ∷ op_submit pay ∷ op_commit ∷ []) unsafe_ledger)
    ≡ syncs unsafe_ledger
no_sync-syncs_example =
    no_sync-syncs (op_submit fund ∷ op_submit pay ∷ op_commit ∷ []) unsafe_ledger unsafe_mode

both_valid : AllValid (fund ∷ pay ∷ []) empty_book
both_valid = (fund-IsTyped, fund_accepted, (pay-IsTyped, pay_accepted, tt))

-- The second record is torn behind its header.
recover-take_example :
    (c : IsCut (length first_log) (pay ∷ []) (take 30 (log_bytes (length first_log) (pay ∷ []))))
    × (recover
          (from_image (first_log ++ take 30 (log_bytes (length first_log) (pay ∷ []))))
          true
          empty_report
        ≡ recovered (fund ∷ c.whole) c.part)
recover-take_example =
    recover-take true (fund ∷ []) (pay ∷ []) 30 both_valid
      (omega (arith, log_bytes-le 0 (fund ∷ pay ∷ []) empty_book both_valid))

abbrev lazily : LedgerOptions
lazily = record { mode = lazy_sync; verify_crc = true; group_size = 5 }

abbrev two_submits : List Op
two_submits = op_submit fund ∷ op_submit pay ∷ []

commit-answers_example :
    contains 8 (acks (committed lazily two_submits).world.trace)
    ≡ contains 8 (committed lazily two_submits).book.seen_keys
commit-answers_example = commit-answers lazily two_submits 8 (fund-IsTyped, (pay-IsTyped, tt))

commit-recover_example :
    recover (from_image (committed lazily two_submits).world.dev.volatile) true empty_report
    ≡ all_of
        (committed lazily two_submits).book
        (length (committed lazily two_submits).world.dev.volatile)
commit-recover_example =
    commit-recover lazily two_submits true (fund-IsTyped, (pay-IsTyped, tt)) (omega arith)

-- Net amounts of which the first overflows its account and the second overdraws.
abbrev full_account : Balances
full_account = (1, pos 9_223_372_036_854_775_807) ∷ []

abbrev two_faults : Balances
two_faults = (1, pos 1) ∷ (2, negsuc 0) ∷ []

abbrev two_faults_swapped : Balances
two_faults_swapped = (2, negsuc 0) ∷ (1, pos 1) ∷ []

check_deltas-Perm_example :
    accepts (check_deltas full_account two_faults)
    ≡ accepts (check_deltas full_account two_faults_swapped)
check_deltas-Perm_example = check_deltas-Perm full_account (Permᴰ.swap refl refl)

first_fault : check_deltas full_account two_faults ≡ unbalanced
unfolding check_deltas add_overflow find balance ◌+ℤ◌
first_fault = refl

other_fault : check_deltas full_account two_faults_swapped ≡ insufficient_funds
unfolding check_deltas add_overflow find balance ◌+ℤ◌
other_fault = refl
