-- ===== src/Ledger/Submit/Booked.antt =====
-- What `Submit` and `Commit` do to the book, in any mode.
use iron_ledger.Common.{ℕ, ◌≡◌, refl, ap, ◌∙◌, ◌||◌, List, [], ◌∷◌, arith}
use iron_ledger.Ledger.Modes.{
  DurabilityMode, no_sync, lazy_sync, sync_every, group_commit, SubmitStatus, ok,
}
use iron_ledger.Ledger.Transfer.{Transfer}
use iron_ledger.Device.{contains}
use iron_ledger.Ledger.Book.{Book, validate, apply}
use iron_ledger.Ledger.Recovery.Replay.{contains-insert_key}
use iron_ledger.Ledger.Submit.Log.{replay}
use iron_ledger.Ledger.Submit.Reopen.{keys_of}
use iron_ledger.Ledger.Submit.{
  Ledger, submit, submit_validated, settle, count_sync, ack_pending, sync_now, flush_writer,
  log_transfer, commit,
}

pub settle-book : (m : DurabilityMode) (l : Ledger) → (settle m l).book ≡ l.book
unfolding settle count_sync ack_pending sync_now flush_writer
settle-book no_sync l = refl
settle-book lazy_sync l = ground arith
settle-book sync_every l = refl
settle-book group_commit l = ground arith

pub submit-book :
    (t : Transfer) (l : Ledger) → validate t l.book ≡ ok → (submit t l).0.book ≡ apply t l.book
unfolding submit
submit-book t l v =
    ap (λ (st : SubmitStatus). (submit_validated st t l).0.book) v
    ∙ (unfold submit_validated in unfold log_transfer in settle-book l.opts.mode (log_transfer t l))

pub commit-book : (l : Ledger) → (commit l).book ≡ l.book
unfolding commit flush_writer sync_now ack_pending
commit-book l = ground arith

-- The keys of a replay.
pub replay_has_key :
    (k : ℕ) (ts : List Transfer) (b : Book)
    → contains k (replay ts b).seen_keys ≡ (contains k (keys_of ts) || contains k b.seen_keys)
replay_has_key k [] b = refl
replay_has_key k (t ∷ ts) b =
    replay_has_key k ts (apply t b)
    ∙ (unfold apply in ground (arith, contains-insert_key k t.idem_key b.seen_keys))
