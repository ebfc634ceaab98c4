-- ===== src/Ledger/Submit/Logging.antt =====
-- What `Submit` and `Commit` log, in any mode.
use mathlib.Core.List.{append_assoc}
use iron_ledger.Common.{
  ℕ, ◌+◌, ◌%◌, ◌^◌, ◌≡◌, inl, inr, refl, sym, ◌∙◌, ap, ap₂, subst, Bool, true, false, not, ◌&&◌,
  if◌then◌else◌, leb, Bool-cases, List, [], ◌∷◌, ◌++◌, length, arith,
}
use iron_ledger.Device.{SimDevice, contains, sync}
use iron_ledger.Device.World.{Event, acked, world_sync}
use iron_ledger.Wal.Writer.{append}
use iron_ledger.Wal.Record.{encode_record}
use iron_ledger.Ledger.Modes.{
  DurabilityMode, no_sync, lazy_sync, sync_every, group_commit, SubmitStatus, ok, duplicate,
  bad_posting_count, unbalanced, insufficient_funds,
}
use iron_ledger.Ledger.Transfer.{Transfer, IsTyped}
use iron_ledger.Ledger.Book.{empty_book, validate, apply}
use iron_ledger.Ledger.Recovery.Replay.{apply_has_key}
use iron_ledger.Ledger.Submit.{
  Ledger, set_ack_sink, flush_writer, sync_now, ack_all, ack_pending, log_transfer, count_sync,
  settle, submit, submit_validated, commit, is_no_sync,
}
use iron_ledger.Ledger.Submit.Log.{
  log_record, log_bytes, log_bytes-snoc, replay, replay-snoc, AllValid-snoc,
}
use iron_ledger.Ledger.Submit.Settle.{synced, sync_now-empty, contains-snoc}
use iron_ledger.Ledger.Submit.Logged.{
  Told, told_ack, IsLogged, buffer_empty, IsDrained, flush_writer-IsDrained,
}

relabelled :
    {all : List Transfer} (l : Ledger) (sink unsynced : Bool) (n : ℕ)
    → IsLogged all l
    → IsLogged all (record l { has_sink = sink; unsynced = unsynced; since_sync = n })
relabelled l sink unsynced n h = record {
  flushed = h.flushed;
  unflushed = h.unflushed;
  on_device = h.on_device;
  at_end = h.at_end;
  buffered = h.buffered;
  together = h.together;
  valid = h.valid;
  current = h.current;
  pending = h.pending;
  told = h.told;
}

pub set_ack_sink-IsLogged :
    {all : List Transfer} (l : Ledger) → IsLogged all l → IsLogged all (set_ack_sink l)
unfolding set_ack_sink
set_ack_sink-IsLogged l h = relabelled l true l.unsynced l.since_sync h

synced-IsLogged : {all : List Transfer} (l : Ledger) → IsLogged all l → IsLogged all (synced l)
unfolding world_sync sync
synced-IsLogged l h = record {
  flushed = h.flushed;
  unflushed = h.unflushed;
  on_device = h.on_device;
  at_end = h.at_end;
  buffered = h.buffered;
  together = h.together;
  valid = h.valid;
  current = h.current;
  pending = h.pending;
  told = h.told;
}

sync_now-IsDrained :
    {all : List Transfer} (l : Ledger) → IsDrained all l → IsDrained all (sync_now l)
sync_now-IsDrained {all} l h =
    subst (IsDrained all) (sym (sync_now-empty l h.empty))
      (record { logged = synced-IsLogged l h.logged; empty = h.empty })

ack_all-Told :
    (d : SimDevice) (ks : List ℕ) (es : List Event) (ts : List Transfer)
    → Told es ts
    → ((k : ℕ) → contains k ks ≡ true → contains k (replay ts empty_book).seen_keys ≡ true)
    → Told (ack_all d ks es) ts
unfolding ack_all
ack_all-Told d [] es ts h p = h
ack_all-Told d (k ∷ ks) es ts h p =
    ack_all-Told d ks (acked k d ∷ es) ts (told_ack k d h (p k (ground arith)))
      (λ j e. p j (ground arith))

sink-Told :
    (b : Bool) (d : SimDevice) (ks : List ℕ) (es : List Event) (ts : List Transfer)
    → Told es ts
    → ((k : ℕ) → contains k ks ≡ true → contains k (replay ts empty_book).seen_keys ≡ true)
    → Told (if b then ack_all d ks es else es) ts
sink-Told true d ks es ts h p = ack_all-Told d ks es ts h p
sink-Told false d ks es ts h p = h

ack_pending-IsDrained :
    {all : List Transfer} (l : Ledger) → IsDrained all l → IsDrained all (ack_pending l)
unfolding ack_pending
ack_pending-IsDrained l d =
    let h = d.logged in
    let e = d.empty in
    let keys : l.book.seen_keys ≡ (replay h.flushed empty_book).seen_keys =
      ap (λ b. b.seen_keys) h.current
      ∙ ap (λ (ts : List Transfer). (replay ts empty_book).seen_keys) (buffer_empty l h e) in
    record {
      logged = record {
        flushed = h.flushed;
        unflushed = h.unflushed;
        on_device = h.on_device;
        at_end = h.at_end;
        buffered = h.buffered;
        together = h.together;
        valid = h.valid;
        current = h.current;
        pending = λ k q. cc;
        told =
            sink-Told l.has_sink l.world.dev l.pending_acks l.world.trace h.flushed h.told
              (λ k q. subst (λ ks. contains k ks ≡ true) keys (h.pending k q));
      };
      empty = e;
    }

count_sync-IsDrained :
    {all : List Transfer} (l : Ledger) → IsDrained all l → IsDrained all (count_sync l)
unfolding count_sync
count_sync-IsDrained {all} l h =
    let n = (l.since_sync + 1) % 2 ^ 32 in
    let counted : IsDrained all (record l { since_sync = n }) = record {
      logged = relabelled l l.has_sink l.unsynced n h.logged;
      empty = h.empty;
    } in
    elim (Bool-cases (leb l.opts.group_size n)) [
      | inl e ↦ rw e (sync_now-IsDrained (record l { since_sync = n }) counted)
      | inr e ↦ rw e counted
    ]

log_transfer-IsLogged :
    {all : List Transfer} (t : Transfer) (l : Ledger)
    → IsLogged all l
    → IsTyped t
    → validate t l.book ≡ ok
    → IsLogged (all ++ t ∷ []) (log_transfer t l)
unfolding log_transfer append encode_record
log_transfer-IsLogged {all} t l h typed v =
    let (new, old) = apply_has_key t l.book in
    let off = length (log_bytes 0 h.flushed) in
    record {
      flushed = h.flushed;
      unflushed = h.unflushed ++ t ∷ [];
      on_device = h.on_device;
      at_end = h.at_end;
      buffered =
          ap₂ (λ (n : ℕ) (bs : List ℕ). bs ++ log_record (n + length bs) t) h.at_end h.buffered
          ∙ sym (log_bytes-snoc off h.unflushed t);
      together =
          ap (λ (ts : List Transfer). ts ++ t ∷ []) h.together
          ∙ append_assoc h.flushed h.unflushed (t ∷ []);
      valid =
          AllValid-snoc all t empty_book h.valid typed (subst (λ b. validate t b ≡ ok) h.current v);
      current = ap (apply t) h.current ∙ sym (replay-snoc all t empty_book);
      pending = λ k e. elim (contains-snoc k t.idem_key l.pending_acks e) [
        | inl q ↦ old k (h.pending k q)
        | inr q ↦ subst (λ j. contains j (apply t l.book).seen_keys ≡ true) (sym q) new
      ];
      told = h.told;
    }

synced_settle-IsDrained :
    {all : List Transfer} (l : Ledger)
    → IsLogged all l
    → IsDrained all (ack_pending (sync_now (flush_writer l)))
synced_settle-IsDrained l h =
    ack_pending-IsDrained (sync_now (flush_writer l))
      (sync_now-IsDrained (flush_writer l) (flush_writer-IsDrained l h))

settle-IsLogged :
    {all : List Transfer} (m : DurabilityMode) (l : Ledger)
    → IsLogged all l
    → IsLogged all (settle m l)
unfolding settle
settle-IsLogged no_sync l h =
    (ack_pending-IsDrained (flush_writer l) (flush_writer-IsDrained l h)).logged
settle-IsLogged lazy_sync l h =
    (count_sync-IsDrained (ack_pending (flush_writer l))
      (ack_pending-IsDrained (flush_writer l) (flush_writer-IsDrained l h))).logged
settle-IsLogged sync_every l h = (synced_settle-IsDrained l h).logged
settle-IsLogged group_commit l h =
    elim (Bool-cases (leb l.opts.group_size (length l.pending_acks))) [
      | inl e ↦ rw e (synced_settle-IsDrained l h).logged
      | inr e ↦ rw e h
    ]

-- The accepted transfers after a verdict.
abbrev pub accepted : SubmitStatus → Transfer → List Transfer → List Transfer
accepted ok t all = all ++ t ∷ []
accepted _ t all = all

submit_validated-IsLogged :
    {all : List Transfer} (st : SubmitStatus) (t : Transfer) (l : Ledger)
    → validate t l.book ≡ st
    → IsTyped t
    → IsLogged all l
    → IsLogged (accepted st t all) (submit_validated st t l).0
unfolding submit_validated
submit_validated-IsLogged ok t l v typed h =
    settle-IsLogged l.opts.mode (log_transfer t l) (log_transfer-IsLogged t l h typed v)
submit_validated-IsLogged duplicate t l v typed h = h
submit_validated-IsLogged bad_posting_count t l v typed h = h
submit_validated-IsLogged unbalanced t l v typed h = h
submit_validated-IsLogged insufficient_funds t l v typed h = h

pub submit-IsLogged :
    {all : List Transfer} (t : Transfer) (l : Ledger)
    → IsTyped t
    → IsLogged all l
    → IsLogged (accepted (validate t l.book) t all) (submit t l).0
unfolding submit
submit-IsLogged t l typed h = submit_validated-IsLogged (validate t l.book) t l refl typed h

pub commit-IsDrained :
    {all : List Transfer} (l : Ledger) → IsLogged all l → IsDrained all (commit l)
unfolding commit
commit-IsDrained l h =
    let f = flush_writer l in
    let d = flush_writer-IsDrained l h in
    elim (Bool-cases (not (is_no_sync f.opts.mode) && f.unsynced)) [
      | inl e ↦ rw e (ack_pending-IsDrained (sync_now f) (sync_now-IsDrained f d))
      | inr e ↦ rw e (ack_pending-IsDrained f d)
    ]
