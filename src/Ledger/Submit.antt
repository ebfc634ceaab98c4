-- ===== src/Ledger/Submit.antt =====
-- The class `Ledger`: its constructor, `Submit`, `Commit` and their parts.
pub mod Log
pub mod Pieces
pub mod Truncated
pub mod Logged
pub mod Logging
pub mod Acked
pub mod Durable
pub mod Backed
pub mod Settle
pub mod Perform
pub mod Life
pub mod Reopen
pub mod Answered
pub mod Booked
pub mod Counts
pub mod Batches
pub mod Budget
use iron_ledger.Common.{
  ℕ, ◌+◌, ◌%◌, ◌^◌, Bool, true, false, not, ◌&&◌, Option, none, some, List, [], ◌∷◌, ◌++◌, leb,
  if◌then◌else◌, length,
}
use iron_ledger.Device.{SimDevice}
use iron_ledger.Device.World.{World, Event, acked}
use iron_ledger.Wal.Writer.{LogWriter, open_at, append, flush, sync_log}
use iron_ledger.Ledger.Modes.{
  DurabilityMode, no_sync, lazy_sync, sync_every, group_commit, LedgerOptions, SubmitStatus, ok,
  duplicate, bad_posting_count, unbalanced, insufficient_funds,
}
use iron_ledger.Ledger.Transfer.{Transfer, encode_transfer}
use iron_ledger.Ledger.Book.{Book, validate, apply}
use iron_ledger.Ledger.Recovery.{RecoveryReport, rec_transfer, recover}

-- The fields of `Ledger`, with the device and the callbacks' trace in `world`. `has_sink` says
-- whether an ack sink is set. The scratch buffer is local to a submit.
pub record Ledger : Type 0 where
  pub opts : LedgerOptions
  pub writer : LogWriter
  pub book : Book
  pub has_sink : Bool
  pub pending_acks : List ℕ
  pub since_sync : ℕ
  pub unsynced : Bool
  pub world : World

-- Ledger(dev, opts, report): opening is recovery, and no sink is set yet.
unfoldable pub open_ledger : World → LedgerOptions → RecoveryReport → Ledger × RecoveryReport
open_ledger world opts report =
    let ((b, r), valid_bytes) = recover world.dev opts.verify_crc report in
    (
      record {
        opts = opts;
        writer = open_at valid_bytes;
        book = b;
        has_sink = false;
        pending_acks = [];
        since_sync = 0;
        unsynced = false;
        world = world;
      },
      r,
    )

-- set_ack_sink
unfoldable pub set_ack_sink : Ledger → Ledger
set_ack_sink l = record l { has_sink = true }

-- writer_->Flush()
unfoldable pub flush_writer : Ledger → Ledger
flush_writer l = let (w, world) = flush l.writer l.world in record l { writer = w; world = world }

-- SyncNow
unfoldable pub sync_now : Ledger → Ledger
sync_now l =
    let (w, world) = sync_log l.writer l.world in
    record l { writer = w; world = world; unsynced = false; since_sync = 0 }

-- `for (uint64_t key : pending_acks_) ack_sink_(key);`, on the device as it is then.
unfoldable pub ack_all : SimDevice → List ℕ → List Event → List Event
ack_all d [] trace = trace
ack_all d (k ∷ ks) trace = ack_all d ks (acked k d ∷ trace)

-- AckPending
unfoldable pub ack_pending : Ledger → Ledger
ack_pending l = record l {
  world = record l.world {
    trace = if l.has_sink then ack_all l.world.dev l.pending_acks l.world.trace else l.world.trace;
  };
  pending_acks = [];
}

-- The part of `Submit` between validation and the switch.
unfoldable pub log_transfer : Transfer → Ledger → Ledger
log_transfer t l = record l {
  writer = (append rec_transfer (encode_transfer [] t) l.writer).0;
  book = apply t l.book;
  pending_acks = l.pending_acks ++ t.idem_key ∷ [];
  unsynced = true;
}

-- `if (++since_sync_ >= opts_.group_size) SyncNow();`
unfoldable pub count_sync : Ledger → Ledger
count_sync l =
    let n = (l.since_sync + 1) % 2 ^ 32 in
    if leb l.opts.group_size n
    then sync_now (record l { since_sync = n })
    else record l { since_sync = n }

-- The switch on the mode.
unfoldable pub settle : DurabilityMode → Ledger → Ledger
settle no_sync l = ack_pending (flush_writer l)
settle lazy_sync l = count_sync (ack_pending (flush_writer l))
settle sync_every l = ack_pending (sync_now (flush_writer l))
settle group_commit l =
    if leb l.opts.group_size (length l.pending_acks)
    then ack_pending (sync_now (flush_writer l))
    else l

-- `Submit` after `Validate`: every verdict but `ok` returns at once.
unfoldable pub submit_validated : SubmitStatus → Transfer → Ledger → Ledger × SubmitStatus
submit_validated ok t l = (settle l.opts.mode (log_transfer t l), ok)
submit_validated st t l = (l, st)

-- Submit
unfoldable pub submit : Transfer → Ledger → Ledger × SubmitStatus
submit t l = submit_validated (validate t l.book) t l

abbrev pub is_no_sync : DurabilityMode → Bool
is_no_sync no_sync = true
is_no_sync _ = false

-- Commit
unfoldable pub commit : Ledger → Ledger
commit l =
    let flushed = flush_writer l in
    ack_pending
      (if not (is_no_sync flushed.opts.mode) && flushed.unsynced then sync_now flushed else flushed)

-- What a caller does with an open ledger.
pub data Op : Type 0 where
  op_submit : Transfer → Op
  op_commit : Op

unfoldable pub perform : Op → Ledger → Ledger
perform (op_submit t) l = (submit t l).0
perform op_commit l = commit l

unfoldable pub perform_all : List Op → Ledger → Ledger
perform_all [] l = l
perform_all (op ∷ ops) l = perform_all ops (perform op l)
