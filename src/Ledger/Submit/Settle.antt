-- ===== src/Ledger/Submit/Settle.antt =====
-- `SyncNow`, `AckPending` and the part of `Submit` before the switch keep the invariant.
use iron_ledger.Common.{
  ℕ, ◌+◌, ◌≤◌, ◌≡◌, ◌⊎◌, inl, inr, refl, sym, ◌∙◌, ap, subst, Bool, true, false, List, [], ◌∷◌,
  ◌++◌, length, byte_at, arith, if◌then◌else◌, length-append,
}
use iron_ledger.Device.{SimDevice, contains, sync}
use iron_ledger.Device.Consistent.{sync-IsConsistent, sync-stable}
use iron_ledger.Device.World.{Event, acked, acks, world_sync}
use iron_ledger.Wal.Record.{encode_record}
use iron_ledger.Wal.Writer.{flush, flush_buffer, sync_log, append, next_lsn}
use iron_ledger.Ledger.Modes.{ok}
use iron_ledger.Ledger.Transfer.{Transfer, IsTyped}
use iron_ledger.Ledger.Book.{validate, apply}
use iron_ledger.Ledger.Book.Deltas.{validate-IsAcceptable}
use iron_ledger.Ledger.Recovery.Replay.{apply_has_key}
use iron_ledger.Ledger.Submit.{Ledger, sync_now, ack_all, ack_pending, log_transfer}
use iron_ledger.Ledger.Submit.Log.{
  log_bytes-nil, log_record, length-log_record, length-encode_transfer, log_bytes-snoc, replay-snoc,
  AllValid-snoc, Recovers,
}
use iron_ledger.Ledger.Submit.Durable.{Durable, Durable-keys, IsSafe}
use iron_ledger.Ledger.Submit.Backed.{IsBacked, IsFlushed}

-- A ledger whose pending keys may be acknowledged: they are durable.
pub record IsReady (l : Ledger) : Type 0 where
  pub flushed : IsFlushed l
  pub ready :
      (k : ℕ)
      → contains k l.pending_acks ≡ true
      → contains k flushed.promises.durable.book.seen_keys ≡ true

abbrev pub synced : Ledger → Ledger
synced l = record l { world = world_sync l.world; unsynced = false; since_sync = 0 }

synced_by : Ledger → List ℕ → Ledger
synced_by l b =
    let (w, world) = flush_buffer b l.writer l.world in
    record l { writer = w; world = world_sync world; unsynced = false; since_sync = 0 }

pub sync_now-empty : (l : Ledger) → l.writer.buffer ≡ [] → sync_now l ≡ synced l
unfolding sync_now sync_log flush flush_buffer synced_by
sync_now-empty l e = ap (synced_by l) e

synced-IsReady : (l : Ledger) → IsFlushed l → IsReady (synced l)
unfolding world_sync sync
synced-IsReady l h =
    let on_platter : (sync l.world.dev).stable ≡ l.world.dev.volatile =
      (sync-stable h.promises.consistent).0 in
    record {
      flushed = record {
        promises = record {
          consistent = sync-IsConsistent h.promises.consistent;
          durable = record {
            base = l.writer.tail;
            book = l.book;
            on_platter =
                subst (λ image. Recovers image l.opts.verify_crc l.writer.tail l.book)
                  (sym on_platter) h.flushed;
            reaches = subst (λ image. l.writer.tail ≤ length image) (sym on_platter) h.tail_fits;
            same = λ i _. ap (λ image. byte_at image i) on_platter;
            kept = h.promises.known;
          };
          below = omega arith;
          safe = h.promises.safe;
          known = h.promises.known;
          pending = h.promises.pending;
        };
        empty = h.empty;
        flushed = h.flushed;
        tail_fits = h.tail_fits;
      };
      ready = h.promises.pending;
    }

-- `SyncNow` on a flushed ledger makes every key of its book durable.
pub sync_now-IsReady : (l : Ledger) → IsFlushed l → IsReady (sync_now l)
sync_now-IsReady l h = subst IsReady (sym (sync_now-empty l h.empty)) (synced-IsReady l h)

ack_all-acks :
    (d : SimDevice) (k : ℕ) (ks : List ℕ) (es : List Event)
    → contains k (acks (ack_all d ks es)) ≡ true
    → (contains k ks ≡ true) ⊎ (contains k (acks es) ≡ true)
unfolding ack_all acks
ack_all-acks d k [] es h = inr h
ack_all-acks d k (j ∷ ks) es h = ground (arith, ack_all-acks d k ks (acked j d ∷ es) h)

-- Keys of a book that is on the platter may be acknowledged one after the other.
ack_all-IsSafe :
    (v : Bool) (d : SimDevice) (ks : List ℕ) (es : List Event) (s : Durable v d (acks es))
    → ((k : ℕ) → contains k ks ≡ true → contains k s.book.seen_keys ≡ true)
    → IsSafe v es
    → IsSafe v (ack_all d ks es)
unfolding ack_all acks
ack_all-IsSafe v d [] es s r h = h
ack_all-IsSafe v d (j ∷ ks) es s r h =
    let s' : Durable v d (j ∷ acks es) =
      Durable-keys (j ∷ acks es) s (λ k e. ground (arith, s.kept k, r k)) in
    ack_all-IsSafe v d ks (acked j d ∷ es) s' (λ k e. r k (ground (arith, e))) (s', h)

sink_acks :
    (b : Bool) (d : SimDevice) (k : ℕ) (ks : List ℕ) (es : List Event)
    → contains k (acks (if b then ack_all d ks es else es)) ≡ true
    → (contains k ks ≡ true) ⊎ (contains k (acks es) ≡ true)
sink_acks true d k ks es h = ack_all-acks d k ks es h
sink_acks false d k ks es h = inr h

sink_IsSafe :
    (b v : Bool) (d : SimDevice) (ks : List ℕ) (es : List Event) (s : Durable v d (acks es))
    → ((k : ℕ) → contains k ks ≡ true → contains k s.book.seen_keys ≡ true)
    → IsSafe v es
    → IsSafe v (if b then ack_all d ks es else es)
sink_IsSafe true v d ks es s r h = ack_all-IsSafe v d ks es s r h
sink_IsSafe false v d ks es s r h = h

-- `AckPending` on a ready ledger acknowledges durable keys only.
pub ack_pending-IsBacked : (l : Ledger) → IsReady l → IsBacked (ack_pending l)
unfolding ack_pending
ack_pending-IsBacked l h =
    let p = h.flushed.promises in
    record {
      promises = record {
        consistent = p.consistent;
        durable =
            Durable-keys
              (acks (
                if l.has_sink
                then ack_all l.world.dev l.pending_acks l.world.trace
                else l.world.trace))
              p.durable
              (λ k e. elim (sink_acks l.has_sink l.world.dev k l.pending_acks l.world.trace e) [
                | inl q ↦ h.ready k q
                | inr q ↦ p.durable.kept k q
              ]);
        below = p.below;
        safe =
            sink_IsSafe l.has_sink l.opts.verify_crc l.world.dev l.pending_acks l.world.trace
              p.durable h.ready p.safe;
        known = λ k e. elim (sink_acks l.has_sink l.world.dev k l.pending_acks l.world.trace e) [
          | inl q ↦ p.pending k q
          | inr q ↦ p.known k q
        ];
        pending = λ k e. cc;
      };
      flushed_book = l.book;
      flushed = h.flushed.flushed;
      tail_fits = h.flushed.tail_fits;
      unflushed = [];
      buffered = h.flushed.empty ∙ sym (log_bytes-nil l.writer.tail);
      valid = tt;
      current = refl;
      idle = λ _. refl;
    }

pub contains-snoc :
    (k j : ℕ) (ks : List ℕ) → contains k (ks ++ j ∷ []) ≡ true → (contains k ks ≡ true) ⊎ (k ≡ j)
contains-snoc k j [] h = ground arith
contains-snoc k j (i ∷ ks) h = ground (arith, contains-snoc k j ks)

-- Logging an accepted transfer keeps the invariant.
pub log_transfer-IsBacked :
    (t : Transfer) (l : Ledger)
    → IsBacked l
    → IsTyped t
    → validate t l.book ≡ ok
    → IsBacked (log_transfer t l)
unfolding log_transfer append encode_record
log_transfer-IsBacked t l h typed v =
    let (new, old) = apply_has_key t l.book in
    record {
      promises = record {
        consistent = h.promises.consistent;
        durable = h.promises.durable;
        below = h.promises.below;
        safe = h.promises.safe;
        known = λ k e. old k (h.promises.known k e);
        pending = λ k e. elim (contains-snoc k t.idem_key l.pending_acks e) [
          | inl q ↦ old k (h.promises.pending k q)
          | inr q ↦ subst (λ j. contains j (apply t l.book).seen_keys ≡ true) (sym q) new
        ];
      };
      flushed_book = h.flushed_book;
      flushed = h.flushed;
      tail_fits = h.tail_fits;
      unflushed = h.unflushed ++ t ∷ [];
      buffered =
          ap (λ bs. bs ++ log_record (l.writer.tail + length bs) t) h.buffered
          ∙ sym (log_bytes-snoc l.writer.tail h.unflushed t);
      valid =
          AllValid-snoc h.unflushed t h.flushed_book h.valid typed
            (subst (λ b. validate t b ≡ ok) h.current v);
      current = ap (apply t) h.current ∙ sym (replay-snoc h.unflushed t h.flushed_book);
      idle = λ e. cc;
    }

-- A submit takes at most 164 bytes of the log.
pub log_transfer-next_lsn :
    (t : Transfer) (l : Ledger)
    → validate t l.book ≡ ok
    → next_lsn (log_transfer t l).writer ≤ next_lsn l.writer + 164
unfolding log_transfer append encode_record
log_transfer-next_lsn t l v =
    let at_most = (validate-IsAcceptable t l.book v).at_most in
    omega (
      arith,
      length-append l.writer.buffer (log_record (next_lsn l.writer) t),
      length-log_record (next_lsn l.writer) t,
      length-encode_transfer t,
    )
