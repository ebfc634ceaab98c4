-- ===== src/Ledger/Submit/Counts.antt =====
-- How often a ledger calls `Sync`.
use iron_ledger.Common.{ℕ, ◌≡◌, refl, ◌∙◌, ap, true, List, [], ◌∷◌, arith}
use iron_ledger.Device.{SimDevice, write_at}
use iron_ledger.Device.World.{World, world_write}
use iron_ledger.Wal.Writer.{LogWriter, flush, flush_buffer}
use iron_ledger.Ledger.Modes.{
  DurabilityMode, no_sync, lazy_sync, sync_every, group_commit, SubmitStatus, ok, duplicate,
  bad_posting_count, unbalanced, insufficient_funds,
}
use iron_ledger.Ledger.Transfer.{Transfer}
use iron_ledger.Ledger.Book.{validate}
use iron_ledger.Ledger.Submit.{
  Ledger, flush_writer, ack_pending, log_transfer, settle, submit, submit_validated, commit,
  is_no_sync, Op, op_submit, op_commit, perform, perform_all,
}
use iron_ledger.Ledger.Submit.Perform.{perform-opts}

-- The calls of `Sync` so far.
abbrev pub syncs : Ledger → ℕ
syncs l = l.world.dev.sync_count

write_at-sync_count :
    (off : ℕ) (buf : List ℕ) (d : SimDevice) → (write_at off buf d).sync_count ≡ d.sync_count
unfolding write_at
write_at-sync_count off buf d = ground arith

pub flush_buffer-sync_count :
    (b : List ℕ) (w : LogWriter) (world : World)
    → (flush_buffer b w world).1.dev.sync_count ≡ world.dev.sync_count
unfolding flush_buffer world_write
flush_buffer-sync_count [] w world = refl
flush_buffer-sync_count (b ∷ bs) w world = write_at-sync_count w.tail w.buffer world.dev

pub flush_writer-syncs : (l : Ledger) → syncs (flush_writer l) ≡ syncs l
unfolding flush_writer flush
flush_writer-syncs l = flush_buffer-sync_count l.writer.buffer l.writer l.world

settle-syncs : (m : DurabilityMode) (l : Ledger) → m ≡ no_sync → syncs (settle m l) ≡ syncs l
unfolding settle ack_pending
settle-syncs no_sync l e = flush_writer-syncs l
settle-syncs lazy_sync l e = cc
settle-syncs sync_every l e = cc
settle-syncs group_commit l e = cc

submit_validated-syncs :
    (st : SubmitStatus) (t : Transfer) (l : Ledger)
    → l.opts.mode ≡ no_sync
    → syncs (submit_validated st t l).0 ≡ syncs l
unfolding submit_validated log_transfer
submit_validated-syncs ok t l e = settle-syncs l.opts.mode (log_transfer t l) e
submit_validated-syncs duplicate t l e = refl
submit_validated-syncs bad_posting_count t l e = refl
submit_validated-syncs unbalanced t l e = refl
submit_validated-syncs insufficient_funds t l e = refl

commit-syncs : (l : Ledger) → l.opts.mode ≡ no_sync → syncs (commit l) ≡ syncs l
unfolding commit ack_pending flush_writer
commit-syncs l e =
    let never : is_no_sync l.opts.mode ≡ true = ap is_no_sync e in
    ground (arith, flush_writer-syncs l)

perform-syncs : (op : Op) (l : Ledger) → l.opts.mode ≡ no_sync → syncs (perform op l) ≡ syncs l
unfolding perform submit
perform-syncs (op_submit t) l e = submit_validated-syncs (validate t l.book) t l e
perform-syncs op_commit l e = commit-syncs l e

-- In the mode no_sync, no sequence of calls of Submit and Commit calls the device's Sync: its
-- count of syncs stays the same.
pub no_sync-syncs :
    (ops : List Op) (l : Ledger) → l.opts.mode ≡ no_sync → syncs (perform_all ops l) ≡ syncs l
unfolding perform_all
no_sync-syncs [] l e = refl
no_sync-syncs (op ∷ ops) l e =
    no_sync-syncs ops (perform op l) (ap (λ o. o.mode) (perform-opts op l) ∙ e)
    ∙ perform-syncs op l e
