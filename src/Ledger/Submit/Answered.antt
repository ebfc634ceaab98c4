-- ===== src/Ledger/Submit/Answered.antt =====
-- Every accepted transfer is acknowledged or pending, and pending no longer after a `Commit`.
use iron_ledger.Common.{
  ℕ, ◌+◌, ◌%◌, ◌^◌, ◌≡◌, ◌⊎◌, inl, inr, refl, sym, ◌∙◌, ap, subst, Bool, true, false, not, ◌&&◌,
  Bool-cases, List, [], ◌∷◌, ◌++◌, ◌==◌, leb, length, arith, if◌then◌else◌,
}
use iron_ledger.Device.{SimDevice, contains}
use iron_ledger.Device.World.{World, Event, acked, acks, world_write, world_sync}
use iron_ledger.Wal.Writer.{LogWriter, flush, flush_buffer, sync_log}
use iron_ledger.Ledger.Modes.{
  DurabilityMode, no_sync, lazy_sync, sync_every, group_commit, LedgerOptions, SubmitStatus, ok,
  duplicate, bad_posting_count, unbalanced, insufficient_funds,
}
use iron_ledger.Ledger.Transfer.{Transfer}
use iron_ledger.Ledger.Book.{empty_book, validate, apply}
use iron_ledger.Ledger.Recovery.Replay.{contains-insert_key}
use iron_ledger.Ledger.Submit.{
  Ledger, open_ledger, set_ack_sink, flush_writer, sync_now, ack_all, ack_pending, log_transfer,
  count_sync, settle, submit, submit_validated, commit, is_no_sync, Op, op_submit, op_commit,
  perform, perform_all,
}
use iron_ledger.Ledger.Submit.Log.{replay}
use iron_ledger.Ledger.Submit.Logging.{set_ack_sink-IsLogged, commit-IsDrained}
use iron_ledger.Ledger.Submit.Logged.{IsDrained, buffer_empty}
use iron_ledger.Ledger.Submit.Acked.{Told-acks}
use iron_ledger.Ledger.Submit.Life.{reopened}
use iron_ledger.Ledger.Submit.Reopen.{fresh-IsLogged, AllTypedOps, perform_all-IsLogged, committed}

-- The key is pending or acknowledged.
abbrev pub IsHeard : ℕ → List ℕ → List Event → Type 0
IsHeard k pending es = (contains k pending ≡ true) ⊎ (contains k (acks es) ≡ true)

pub record IsAnswered (l : Ledger) : Type 0 where
  pub listens : l.has_sink ≡ true
  pub heard : (k : ℕ) → contains k l.book.seen_keys ≡ true → IsHeard k l.pending_acks l.world.trace

flush_buffer-acks :
    (b : List ℕ) (w : LogWriter) (world : World)
    → acks (flush_buffer b w world).1.trace ≡ acks world.trace
unfolding flush_buffer world_write acks
flush_buffer-acks [] w world = refl
flush_buffer-acks (b ∷ bs) w world = refl

IsHeard-through :
    (k : ℕ) (pending : List ℕ) (es fs : List Event)
    → acks fs ≡ acks es
    → IsHeard k pending es
    → IsHeard k pending fs
IsHeard-through k pending es fs e h =
    subst (λ (ks : List ℕ). (contains k pending ≡ true) ⊎ (contains k ks ≡ true)) (sym e) h

flush_writer-IsAnswered : (l : Ledger) → IsAnswered l → IsAnswered (flush_writer l)
unfolding flush_writer flush
flush_writer-IsAnswered l h = record {
  listens = h.listens;
  heard = λ k e.
      IsHeard-through k l.pending_acks l.world.trace (flush_writer l).world.trace
        (flush_buffer-acks l.writer.buffer l.writer l.world) (h.heard k e);
}

sync_now-IsAnswered : (l : Ledger) → IsAnswered l → IsAnswered (sync_now l)
unfolding sync_now sync_log flush world_sync
sync_now-IsAnswered l h = record {
  listens = h.listens;
  heard = λ k e.
      IsHeard-through k l.pending_acks l.world.trace (sync_now l).world.trace
        (flush_buffer-acks l.writer.buffer l.writer l.world) (h.heard k e);
}

ack_all-heard :
    (d : SimDevice) (k : ℕ) (ks : List ℕ) (es : List Event)
    → IsHeard k ks es
    → contains k (acks (ack_all d ks es)) ≡ true
unfolding ack_all acks
ack_all-heard d k [] es h = ground arith
ack_all-heard d k (j ∷ ks) es h = ack_all-heard d k ks (acked j d ∷ es) (ground arith)

-- After `AckPending` nothing is pending.
ack_pending_heard :
    (l : Ledger)
    → IsAnswered l
    → (k : ℕ) → contains k l.book.seen_keys ≡ true
    → contains k (acks (ack_pending l).world.trace) ≡ true
unfolding ack_pending
ack_pending_heard l h k e =
    subst
      (λ b.
        contains k
          (acks (if b then ack_all l.world.dev l.pending_acks l.world.trace else l.world.trace))
        ≡ true)
      (sym h.listens) (ack_all-heard l.world.dev k l.pending_acks l.world.trace (h.heard k e))

ack_pending-IsAnswered : (l : Ledger) → IsAnswered l → IsAnswered (ack_pending l)
unfolding ack_pending
ack_pending-IsAnswered l h = record {
  listens = h.listens;
  heard = λ k e. inr (ack_pending_heard l h k e);
}

count_sync-IsAnswered : (l : Ledger) → IsAnswered l → IsAnswered (count_sync l)
unfolding count_sync
count_sync-IsAnswered l h =
    let n = (l.since_sync + 1) % 2 ^ 32 in
    let counted : IsAnswered (record l { since_sync = n }) = record {
      listens = h.listens;
      heard = h.heard;
    } in
    elim (Bool-cases (leb l.opts.group_size n)) [
      | inl e ↦ rw e (sync_now-IsAnswered (record l { since_sync = n }) counted)
      | inr e ↦ rw e counted
    ]

contains-snoc_last : (k j : ℕ) (ks : List ℕ) → (k == j) ≡ true → contains k (ks ++ j ∷ []) ≡ true
contains-snoc_last k j [] e = ground arith
contains-snoc_last k j (i ∷ ks) e = ground (arith, contains-snoc_last k j ks)

contains-snoc_first :
    (k j : ℕ) (ks : List ℕ) → contains k ks ≡ true → contains k (ks ++ j ∷ []) ≡ true
contains-snoc_first k j [] e = ground arith
contains-snoc_first k j (i ∷ ks) e = ground (arith, contains-snoc_first k j ks)

IsHeard-more :
    (k j : ℕ) (ks : List ℕ) (es : List Event) → IsHeard k ks es → IsHeard k (ks ++ j ∷ []) es
IsHeard-more k j ks es (inl h) = inl (contains-snoc_first k j ks h)
IsHeard-more k j ks es (inr h) = inr h

log_transfer-IsAnswered : (t : Transfer) (l : Ledger) → IsAnswered l → IsAnswered (log_transfer t l)
unfolding log_transfer apply
log_transfer-IsAnswered t l h = record {
  listens = h.listens;
  heard = λ k e. elim (Bool-cases (k == t.idem_key)) [
    | inl new ↦ inl (contains-snoc_last k t.idem_key l.pending_acks new)
    | inr old ↦
        IsHeard-more k t.idem_key l.pending_acks l.world.trace
          (h.heard k (ground (arith, contains-insert_key k t.idem_key l.book.seen_keys)))
  ];
}

synced_settle-IsAnswered :
    (l : Ledger) → IsAnswered l → IsAnswered (ack_pending (sync_now (flush_writer l)))
synced_settle-IsAnswered l h =
    ack_pending-IsAnswered (sync_now (flush_writer l))
      (sync_now-IsAnswered (flush_writer l) (flush_writer-IsAnswered l h))

settle-IsAnswered : (m : DurabilityMode) (l : Ledger) → IsAnswered l → IsAnswered (settle m l)
unfolding settle
settle-IsAnswered no_sync l h =
    ack_pending-IsAnswered (flush_writer l) (flush_writer-IsAnswered l h)
settle-IsAnswered lazy_sync l h =
    count_sync-IsAnswered (ack_pending (flush_writer l))
      (ack_pending-IsAnswered (flush_writer l) (flush_writer-IsAnswered l h))
settle-IsAnswered sync_every l h = synced_settle-IsAnswered l h
settle-IsAnswered group_commit l h =
    elim (Bool-cases (leb l.opts.group_size (length l.pending_acks))) [
      | inl e ↦ rw e (synced_settle-IsAnswered l h)
      | inr e ↦ rw e h
    ]

validated-IsAnswered :
    (st : SubmitStatus) (t : Transfer) (l : Ledger)
    → IsAnswered l
    → IsAnswered (submit_validated st t l).0
unfolding submit_validated
validated-IsAnswered ok t l h =
    settle-IsAnswered l.opts.mode (log_transfer t l) (log_transfer-IsAnswered t l h)
validated-IsAnswered duplicate t l h = h
validated-IsAnswered bad_posting_count t l h = h
validated-IsAnswered unbalanced t l h = h
validated-IsAnswered insufficient_funds t l h = h

-- The ledger at the end of `Commit`, before it acknowledges.
abbrev committing : Ledger → Ledger
committing l =
    let f = flush_writer l in if not (is_no_sync f.opts.mode) && f.unsynced then sync_now f else f

committing-IsAnswered : (l : Ledger) → IsAnswered l → IsAnswered (committing l)
committing-IsAnswered l h =
    let f = flush_writer l in
    elim (Bool-cases (not (is_no_sync f.opts.mode) && f.unsynced)) [
      | inl e ↦ rw e (sync_now-IsAnswered f (flush_writer-IsAnswered l h))
      | inr e ↦ rw e (flush_writer-IsAnswered l h)
    ]

perform-IsAnswered : (op : Op) (l : Ledger) → IsAnswered l → IsAnswered (perform op l)
unfolding perform submit commit
perform-IsAnswered (op_submit t) l h = validated-IsAnswered (validate t l.book) t l h
perform-IsAnswered op_commit l h = ack_pending-IsAnswered (committing l) (committing-IsAnswered l h)

perform_all-IsAnswered :
    (ops : List Op) (l : Ledger) → IsAnswered l → IsAnswered (perform_all ops l)
unfolding perform_all
perform_all-IsAnswered [] l h = h
perform_all-IsAnswered (op ∷ ops) l h =
    perform_all-IsAnswered ops (perform op l) (perform-IsAnswered op l h)

no_key : (k : ℕ) → false ≡ true → IsHeard k [] []
no_key k e = cc

started-IsAnswered : (opts : LedgerOptions) → IsAnswered (set_ack_sink (reopened [] opts []))
unfolding set_ack_sink open_ledger
started-IsAnswered opts = record {
  listens = refl;
  heard =
      λ k e. no_key k (subst (λ b. contains k b.seen_keys ≡ true) (fresh-IsLogged opts).current e);
}

-- A key that is acknowledged is one of an accepted transfer.
acknowledged_has_key :
    {all : List Transfer} (l : Ledger) (k : ℕ)
    → IsDrained all l
    → contains k (acks l.world.trace) ≡ true
    → contains k l.book.seen_keys ≡ true
acknowledged_has_key {all} l k d e =
    let h = d.logged in
    subst (λ b. contains k b.seen_keys ≡ true)
      (ap (λ ts. replay ts empty_book) (sym (buffer_empty l h d.empty)) ∙ sym h.current)
      (Told-acks k h.told e)

both_ways : (a b : Bool) → (a ≡ true → b ≡ true) → (b ≡ true → a ≡ true) → a ≡ b
both_ways true b f g = sym (f refl)
both_ways false true f g = g refl
both_ways false false f g = refl

commit-acks :
    (l : Ledger) (k : ℕ)
    → IsAnswered l
    → contains k (commit l).book.seen_keys ≡ true
    → contains k (acks (commit l).world.trace) ≡ true
unfolding commit flush_writer ack_pending
commit-acks l k h e = ack_pending_heard (committing l) (committing-IsAnswered l h) k e

-- For a ledger that is opened on an empty device in any mode and has a sink, any operations whose
-- integers are in the range of their C++ types, and a Commit: a key has been acknowledged by then
-- exactly if it is in the book, so that no accepted transfer stays pending.
pub commit-answers :
    (opts : LedgerOptions) (ops : List Op) (k : ℕ)
    → AllTypedOps ops
    → contains k (acks (committed opts ops).world.trace)
      ≡ contains k (committed opts ops).book.seen_keys
commit-answers opts ops k typed =
    let start = set_ack_sink (reopened [] opts []) in
    let (all, h, n) =
      perform_all-IsLogged ops start [] typed
        (set_ack_sink-IsLogged (reopened [] opts []) (fresh-IsLogged opts)) in
    both_ways (contains k (acks (committed opts ops).world.trace))
      (contains k (committed opts ops).book.seen_keys)
      (acknowledged_has_key (committed opts ops) k (commit-IsDrained (perform_all ops start) h))
      (commit-acks (perform_all ops start) k
        (perform_all-IsAnswered ops start (started-IsAnswered opts)))
