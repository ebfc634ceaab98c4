-- ===== src/Ledger/Submit/Backed.antt =====
-- The invariant of a ledger in a durable mode: its state is the replay of the log, in the device
-- and in the writer's buffer, and every acknowledged key is on the platter.
use iron_ledger.Common.{
  ℕ, ◌+◌, ◌-◌, ◌^◌, ◌≤◌, ◌<◌, ◌≡◌, ◌⊎◌, inl, inr, refl, sym, ◌∙◌, ap, subst, true, false, List, [],
  ◌∷◌, length, byte_at, arith,
}
use iron_ledger.Device.{SimDevice, contains, write_at}
use iron_ledger.Device.Consistent.{IsConsistent, write_at-IsConsistent}
use iron_ledger.Device.Write.{byte_at-write_at, length-write_at}
use iron_ledger.Device.World.{wrote, acks, world_write}
use iron_ledger.Wal.Writer.{flush, flush_buffer}
use iron_ledger.Wal.Scan.Holds.{Holds}
use iron_ledger.Ledger.Transfer.{Transfer}
use iron_ledger.Ledger.Book.{Book}
use iron_ledger.Ledger.Submit.{Ledger, flush_writer}
use iron_ledger.Ledger.Submit.Log.{
  log_bytes, log_bytes_empty, replay, AllValid, Recovers, Recovers-log_bytes,
}
use iron_ledger.Ledger.Submit.Durable.{Durable, Durable-write_at, IsSafe, Recovers-local}

-- What is promised and known at any time: `known` bounds the acknowledged and the pending keys by
-- the keys of the book.
pub record Promises (l : Ledger) : Type 0 where
  pub consistent : IsConsistent l.world.dev
  pub durable : Durable l.opts.verify_crc l.world.dev (acks l.world.trace)
  pub below : durable.base ≤ l.writer.tail
  pub safe : IsSafe l.opts.verify_crc l.world.trace
  pub known : (k : ℕ) → contains k (acks l.world.trace) ≡ true → contains k l.book.seen_keys ≡ true
  pub pending : (k : ℕ) → contains k l.pending_acks ≡ true → contains k l.book.seen_keys ≡ true

pub record IsBacked (l : Ledger) : Type 0 where
  pub promises : Promises l
  pub flushed_book : Book
  pub flushed : Recovers l.world.dev.volatile l.opts.verify_crc l.writer.tail flushed_book
  pub tail_fits : l.writer.tail ≤ length l.world.dev.volatile
  pub unflushed : List Transfer
  pub buffered : l.writer.buffer ≡ log_bytes l.writer.tail unflushed
  pub valid : AllValid unflushed flushed_book
  pub current : l.book ≡ replay unflushed flushed_book
  pub idle : l.unsynced ≡ false → l.pending_acks ≡ []

-- The same with nothing in the buffer, and no claim about the flags.
pub record IsFlushed (l : Ledger) : Type 0 where
  pub promises : Promises l
  pub empty : l.writer.buffer ≡ []
  pub flushed : Recovers l.world.dev.volatile l.opts.verify_crc l.writer.tail l.book
  pub tail_fits : l.writer.tail ≤ length l.world.dev.volatile

pub list_cases : (xs : List ℕ) → (xs ≡ []) ⊎ ((x : ℕ) × (ys : List ℕ) × xs ≡ x ∷ ys)
list_cases [] = inl refl
list_cases (x ∷ xs) = inr (x, xs, refl)

abbrev pub after_write : Ledger → Ledger
after_write l = record l {
  writer = record {
    buffer = [];
    tail = l.writer.tail + length l.writer.buffer;
    buffered_records = 0;
  };
  world = record {
    dev = write_at l.writer.tail l.writer.buffer l.world.dev;
    trace = wrote (write_at l.writer.tail l.writer.buffer l.world.dev) ∷ l.world.trace;
  };
}

abbrev flushed_by : Ledger → List ℕ → Ledger
flushed_by l b =
    let (w, world) = flush_buffer b l.writer l.world in record l { writer = w; world = world }

pub flush_writer-empty : (l : Ledger) → l.writer.buffer ≡ [] → flush_writer l ≡ l
unfolding flush_writer flush flush_buffer
flush_writer-empty l e = ap (flushed_by l) e

pub flush_writer-cons :
    (l : Ledger) (b : ℕ) (bs : List ℕ) → l.writer.buffer ≡ b ∷ bs → flush_writer l ≡ after_write l
unfolding flush_writer flush flush_buffer world_write
flush_writer-cons l b bs e = ap (flushed_by l) e

shifted : (xs : List ℕ) (off i : ℕ) → byte_at xs (off + i - off) ≡ byte_at xs i
shifted xs off i = ap (byte_at xs) (omega arith)

-- The image holds what was just written to it.
written_Holds :
    (off : ℕ) (buf : List ℕ) (d : SimDevice)
    → 0 < length buf
    → Holds (write_at off buf d).volatile off buf
written_Holds off buf d p = record {
  fits = ground (arith, length-write_at off buf d);
  same = λ i h. ground (arith, byte_at-write_at off buf d (off + i), shifted buf off i);
}

module _ (l : Ledger) (h : IsBacked l) (fits : l.writer.tail + length l.writer.buffer < 2 ^ 64)
    (some_bytes : 0 < length l.writer.buffer) where
  -- What was recoverable before the write is so after it.
  kept_recovery :
      Recovers (after_write l).world.dev.volatile l.opts.verify_crc l.writer.tail h.flushed_book
  kept_recovery =
      Recovers-local h.tail_fits
        (ground (arith, h.tail_fits, length-write_at l.writer.tail l.writer.buffer l.world.dev))
        (λ i p. ground (arith, byte_at-write_at l.writer.tail l.writer.buffer l.world.dev i))
        h.flushed

  written_recovery :
      Recovers
        (after_write l).world.dev.volatile
        l.opts.verify_crc
        (l.writer.tail + length (log_bytes l.writer.tail h.unflushed))
        (replay h.unflushed h.flushed_book)
  written_recovery =
      Recovers-log_bytes (after_write l).world.dev.volatile l.opts.verify_crc h.unflushed
        l.writer.tail h.flushed_book kept_recovery h.valid
        (omega (arith, ap length h.buffered, fits))
        (subst (Holds (after_write l).world.dev.volatile l.writer.tail) h.buffered
          (written_Holds l.writer.tail l.writer.buffer l.world.dev some_bytes))

  after_write-IsFlushed : IsFlushed (after_write l)
  unfolding acks
  after_write-IsFlushed = record {
    promises = record {
      consistent = write_at-IsConsistent h.promises.consistent l.writer.tail l.writer.buffer;
      durable = Durable-write_at l.writer.tail l.writer.buffer h.promises.durable h.promises.below;
      below = omega (arith, h.promises.below);
      safe = (
        Durable-write_at l.writer.tail l.writer.buffer h.promises.durable h.promises.below,
        h.promises.safe,
      );
      known = h.promises.known;
      pending = h.promises.pending;
    };
    empty = refl;
    flushed =
        subst
          (λ bs.
            Recovers (after_write l).world.dev.volatile l.opts.verify_crc
              (l.writer.tail + length bs) l.book)
          (sym h.buffered) (rw h.current written_recovery);
    tail_fits = ground (arith, length-write_at l.writer.tail l.writer.buffer l.world.dev);
  }

drained_IsFlushed : (l : Ledger) → IsBacked l → l.writer.buffer ≡ [] → IsFlushed l
drained_IsFlushed l h e =
    let none : h.unflushed ≡ [] = log_bytes_empty l.writer.tail h.unflushed (sym h.buffered ∙ e) in
    let same : l.book ≡ h.flushed_book = h.current ∙ ap (λ ts. replay ts h.flushed_book) none in
    record {
      promises = h.promises;
      empty = e;
      flushed = rw same h.flushed;
      tail_fits = h.tail_fits;
    }

-- `Flush` moves the buffered transfers into the recoverable log.
pub flush_writer-IsFlushed :
    (l : Ledger)
    → IsBacked l
    → l.writer.tail + length l.writer.buffer < 2 ^ 64
    → IsFlushed (flush_writer l)
flush_writer-IsFlushed l h fits = elim (list_cases l.writer.buffer) [
  | inl e ↦ subst IsFlushed (sym (flush_writer-empty l e)) (drained_IsFlushed l h e)
  | inr c ↦
      subst IsFlushed (sym (flush_writer-cons l c.0 c.1 c.2))
        (after_write-IsFlushed l h fits (omega (arith, ap length c.2)))
]
