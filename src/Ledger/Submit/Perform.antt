-- ===== src/Ledger/Submit/Perform.antt =====
-- `Submit` and `Commit` in the modes that acknowledge after a sync.
use iron_ledger.Common.{
  ℕ, ◌+◌, ◌^◌, ◌≤◌, ◌<◌, ◌≡◌, inl, inr, refl, sym, subst, Bool, true, false, not, ◌&&◌, List, [],
  ◌∷◌, length, arith, leb, if◌then◌else◌, Bool-cases,
}
use iron_ledger.Wal.Writer.{LogWriter, flush, flush_buffer, sync_log, next_lsn}
use iron_ledger.Device.World.{World}
use iron_ledger.Ledger.Modes.{
  DurabilityMode, no_sync, lazy_sync, sync_every, group_commit, SubmitStatus, ok, duplicate,
  bad_posting_count, unbalanced, insufficient_funds,
}
use iron_ledger.Ledger.Transfer.{Transfer, IsTyped}
use iron_ledger.Ledger.Book.{validate}
use iron_ledger.Ledger.Submit.{
  Ledger, flush_writer, sync_now, ack_pending, log_transfer, settle, submit, submit_validated,
  commit, is_no_sync, Op, op_submit, op_commit, perform, count_sync,
}
use iron_ledger.Ledger.Submit.Backed.{IsBacked, flush_writer-IsFlushed}
use iron_ledger.Ledger.Submit.Settle.{
  IsReady, sync_now-IsReady, ack_pending-IsBacked, log_transfer-IsBacked, log_transfer-next_lsn,
}

-- The modes in which `Submit` acknowledges after a sync only.
abbrev pub IsDurableMode : DurabilityMode → Type 0
IsDurableMode sync_every = Unit
IsDurableMode group_commit = Unit
IsDurableMode _ = ⊥

-- The integers of the operation's transfer are in the range of their C++ types.
abbrev pub IsTypedOp : Op → Type 0
IsTypedOp (op_submit t) = IsTyped t
IsTypedOp op_commit = Unit

flush-next_lsn :
    (b : List ℕ) (w : LogWriter) (world : World) → next_lsn (flush_buffer b w world).0 ≤ next_lsn w
unfolding flush_buffer
flush-next_lsn [] w world = omega arith
flush-next_lsn (b ∷ bs) w world = omega arith

flush_writer-next_lsn : (l : Ledger) → next_lsn (flush_writer l).writer ≤ next_lsn l.writer
unfolding flush_writer flush
flush_writer-next_lsn l = flush-next_lsn l.writer.buffer l.writer l.world

sync_now-next_lsn : (l : Ledger) → next_lsn (sync_now l).writer ≤ next_lsn l.writer
unfolding sync_now sync_log flush
sync_now-next_lsn l = flush-next_lsn l.writer.buffer l.writer l.world

synced_settle : Ledger → Ledger
synced_settle l = ack_pending (sync_now (flush_writer l))

synced_settle-IsBacked :
    (l : Ledger) → IsBacked l → next_lsn l.writer < 2 ^ 64 → IsBacked (synced_settle l)
unfolding synced_settle
synced_settle-IsBacked l h fits =
    ack_pending-IsBacked (sync_now (flush_writer l))
      (sync_now-IsReady (flush_writer l) (flush_writer-IsFlushed l h fits))

synced_settle-next_lsn : (l : Ledger) → next_lsn (synced_settle l).writer ≤ next_lsn l.writer
unfolding synced_settle ack_pending
synced_settle-next_lsn l =
    omega (arith, sync_now-next_lsn (flush_writer l), flush_writer-next_lsn l)

settle-IsBacked :
    (m : DurabilityMode) (l : Ledger)
    → IsDurableMode m
    → IsBacked l
    → next_lsn l.writer < 2 ^ 64
    → IsBacked (settle m l)
unfolding settle synced_settle
settle-IsBacked no_sync l d h fits = elim d [ ]
settle-IsBacked lazy_sync l d h fits = elim d [ ]
settle-IsBacked sync_every l d h fits = synced_settle-IsBacked l h fits
settle-IsBacked group_commit l d h fits =
    elim (Bool-cases (leb l.opts.group_size (length l.pending_acks))) [
      | inl e ↦ rw e (synced_settle-IsBacked l h fits)
      | inr e ↦ rw e h
    ]

settle-next_lsn :
    (m : DurabilityMode) (l : Ledger)
    → IsDurableMode m
    → next_lsn (settle m l).writer ≤ next_lsn l.writer
unfolding settle synced_settle
settle-next_lsn no_sync l d = elim d [ ]
settle-next_lsn lazy_sync l d = elim d [ ]
settle-next_lsn sync_every l d = synced_settle-next_lsn l
settle-next_lsn group_commit l d = ground (arith, synced_settle-next_lsn l)

submit_validated-IsBacked :
    (st : SubmitStatus) (t : Transfer) (l : Ledger)
    → IsDurableMode l.opts.mode
    → validate t l.book ≡ st
    → IsTyped t
    → IsBacked l
    → next_lsn l.writer + 164 < 2 ^ 64
    → IsBacked (submit_validated st t l).0
unfolding submit_validated log_transfer
submit_validated-IsBacked ok t l d v typed h fits =
    settle-IsBacked l.opts.mode (log_transfer t l) d (log_transfer-IsBacked t l h typed v)
      (omega (arith, log_transfer-next_lsn t l v))
submit_validated-IsBacked duplicate t l d v typed h fits = h
submit_validated-IsBacked bad_posting_count t l d v typed h fits = h
submit_validated-IsBacked unbalanced t l d v typed h fits = h
submit_validated-IsBacked insufficient_funds t l d v typed h fits = h

flushed_IsReady :
    (l : Ledger)
    → IsBacked l
    → next_lsn l.writer < 2 ^ 64
    → l.unsynced ≡ false
    → IsReady (flush_writer l)
unfolding flush_writer
flushed_IsReady l h fits e = record {
  flushed = flush_writer-IsFlushed l h fits;
  ready = λ k q. cc (h.idle e);
}

durable_not : (m : DurabilityMode) → IsDurableMode m → is_no_sync m ≡ false
durable_not no_sync d = elim d [ ]
durable_not lazy_sync d = elim d [ ]
durable_not sync_every d = refl
durable_not group_commit d = refl

commit_by : Bool → Bool → Ledger → Ledger
commit_by none unsynced flushed =
    ack_pending (if not none && unsynced then sync_now flushed else flushed)

commit_lem :
    (l : Ledger) → commit l ≡ commit_by (is_no_sync l.opts.mode) l.unsynced (flush_writer l)
unfolding commit commit_by flush_writer
commit_lem l = refl

commit_by-IsBacked :
    (none unsynced : Bool) (l : Ledger)
    → none ≡ false
    → l.unsynced ≡ unsynced
    → IsBacked l
    → next_lsn l.writer < 2 ^ 64
    → IsBacked (commit_by none unsynced (flush_writer l))
unfolding commit_by synced_settle
commit_by-IsBacked true unsynced l n e h fits = cc
commit_by-IsBacked false true l n e h fits = synced_settle-IsBacked l h fits
commit_by-IsBacked false false l n e h fits =
    ack_pending-IsBacked (flush_writer l) (flushed_IsReady l h fits e)

commit-IsBacked :
    (l : Ledger)
    → IsDurableMode l.opts.mode
    → IsBacked l
    → next_lsn l.writer < 2 ^ 64
    → IsBacked (commit l)
commit-IsBacked l d h fits = subst IsBacked (sym (commit_lem l)) (
    commit_by-IsBacked (is_no_sync l.opts.mode) l.unsynced l (durable_not l.opts.mode d) refl h
      fits)

-- An operation in a durable mode keeps the invariant.
pub perform-IsBacked :
    (op : Op) (l : Ledger)
    → IsDurableMode l.opts.mode
    → IsTypedOp op
    → IsBacked l
    → next_lsn l.writer + 164 < 2 ^ 64
    → IsBacked (perform op l)
unfolding perform submit
perform-IsBacked (op_submit t) l d typed h fits =
    submit_validated-IsBacked (validate t l.book) t l d refl typed h fits
perform-IsBacked op_commit l d typed h fits = commit-IsBacked l d h (omega arith)

settle-opts : (m : DurabilityMode) (l : Ledger) → (settle m l).opts ≡ l.opts
unfolding settle count_sync ack_pending sync_now flush_writer
settle-opts no_sync l = refl
settle-opts lazy_sync l = ground arith
settle-opts sync_every l = refl
settle-opts group_commit l = ground arith

submit_validated-opts :
    (st : SubmitStatus) (t : Transfer) (l : Ledger) → (submit_validated st t l).0.opts ≡ l.opts
unfolding submit_validated log_transfer
submit_validated-opts ok t l = settle-opts l.opts.mode (log_transfer t l)
submit_validated-opts duplicate t l = refl
submit_validated-opts bad_posting_count t l = refl
submit_validated-opts unbalanced t l = refl
submit_validated-opts insufficient_funds t l = refl

-- No operation changes the options.
pub perform-opts : (op : Op) (l : Ledger) → (perform op l).opts ≡ l.opts
unfolding perform submit commit ack_pending sync_now flush_writer
perform-opts (op_submit t) l = submit_validated-opts (validate t l.book) t l
perform-opts op_commit l = ground arith

validated-next_lsn :
    (st : SubmitStatus) (t : Transfer) (l : Ledger)
    → IsDurableMode l.opts.mode
    → validate t l.book ≡ st
    → next_lsn (submit_validated st t l).0.writer ≤ next_lsn l.writer + 164
unfolding submit_validated log_transfer
validated-next_lsn ok t l d v =
    omega (arith, settle-next_lsn l.opts.mode (log_transfer t l) d, log_transfer-next_lsn t l v)
validated-next_lsn duplicate t l d v = omega arith
validated-next_lsn bad_posting_count t l d v = omega arith
validated-next_lsn unbalanced t l d v = omega arith
validated-next_lsn insufficient_funds t l d v = omega arith

-- A submit moves the end of the log by one record at most.
pub submit-next_lsn :
    (t : Transfer) (l : Ledger)
    → IsDurableMode l.opts.mode
    → next_lsn (submit t l).0.writer ≤ next_lsn l.writer + 164
unfolding submit
submit-next_lsn t l d = validated-next_lsn (validate t l.book) t l d refl
