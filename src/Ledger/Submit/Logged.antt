-- ===== src/Ledger/Submit/Logged.antt =====
-- What a ledger that was opened on an empty device leaves there in any mode: the log of the
-- transfers that it has accepted, but for those that are still buffered.
use mathlib.Core.List.{append-nil}
use iron_ledger.Common.{
  ℕ, ◌+◌, ◌-◌, ◌≡◌, inl, inr, refl, sym, ◌∙◌, ap, ap₂, subst, true, List, [], ◌∷◌, ◌++◌, length,
  byte_at, arith, length-append, byte_at-append, byte_at_ext,
}
use iron_ledger.Device.{SimDevice, contains, write_at}
use iron_ledger.Device.Write.{length-write_at, byte_at-write_at}
use iron_ledger.Device.World.{World, Event, wrote, acked}
use iron_ledger.Wal.Writer.{LogWriter}
use iron_ledger.Ledger.Transfer.{Transfer}
use iron_ledger.Ledger.Book.{empty_book}
use iron_ledger.Ledger.Submit.{Ledger, flush_writer}
use iron_ledger.Ledger.Submit.Log.{log_bytes, log_bytes_empty, log_bytes-nil, replay, AllValid}
use iron_ledger.Ledger.Submit.Backed.{
  list_cases, after_write, flush_writer-empty, flush_writer-cons,
}
use iron_ledger.Ledger.Submit.Pieces.{log_joined}

-- What a trace tells: at each call of the hook the device holds the log of some transfers, which go
-- on from those before it, and a key is acknowledged when its transfer is among them.
pub data Told : List Event → List Transfer → Type 0 where
  told_nothing : Told [] []
  told_write :
      {es : List Event} {ts : List Transfer} (d : SimDevice) (more : List Transfer)
      → Told es ts
      → d.volatile ≡ log_bytes 0 (ts ++ more)
      → Told (wrote d ∷ es) (ts ++ more)
  told_ack :
      {es : List Event} {ts : List Transfer} (k : ℕ) (d : SimDevice)
      → Told es ts
      → contains k (replay ts empty_book).seen_keys ≡ true
      → Told (acked k d ∷ es) ts

-- The transfers `all` have been accepted; `flushed` are the first of them, and `unflushed` the others.
pub record IsLogged (all : List Transfer) (l : Ledger) : Type 0 where
  pub flushed : List Transfer
  pub unflushed : List Transfer
  pub on_device : l.world.dev.volatile ≡ log_bytes 0 flushed
  pub at_end : l.writer.tail ≡ length (log_bytes 0 flushed)
  pub buffered : l.writer.buffer ≡ log_bytes (length (log_bytes 0 flushed)) unflushed
  pub together : all ≡ flushed ++ unflushed
  pub valid : AllValid all empty_book
  pub current : l.book ≡ replay all empty_book
  pub pending : (k : ℕ) → contains k l.pending_acks ≡ true → contains k l.book.seen_keys ≡ true
  pub told : Told l.world.trace flushed

-- A write at the end of a device appends.
write_at_end :
    (off : ℕ) (bs : List ℕ) (d : SimDevice)
    → off ≡ length d.volatile
    → (write_at off bs d).volatile ≡ d.volatile ++ bs
write_at_end off bs d e =
    byte_at_ext (write_at off bs d).volatile (d.volatile ++ bs)
      (ground (arith, length-write_at off bs d, length-append d.volatile bs))
      (λ i h. ground (
        arith,
        length-write_at off bs d,
        byte_at-write_at off bs d i,
        byte_at-append d.volatile bs i,
        ap (λ (n : ℕ). byte_at bs (i - n)) e,
      ))

module _ {all : List Transfer} (l : Ledger) (h : IsLogged all l) where
  after_flush-IsLogged :
      (w : LogWriter) (world : World)
      → world.dev.volatile ≡ l.world.dev.volatile ++ l.writer.buffer
      → w.tail ≡ l.writer.tail + length l.writer.buffer
      → w.buffer ≡ []
      → Told world.trace (h.flushed ++ h.unflushed)
      → IsLogged all (record l { writer = w; world = world })
  after_flush-IsLogged w world on_device at_end empty told =
      let joined : l.world.dev.volatile ++ l.writer.buffer ≡ log_bytes 0 all =
        ap₂ (λ (x y : List ℕ). x ++ y) h.on_device h.buffered
        ∙ sym (log_joined h.flushed h.unflushed)
        ∙ ap (log_bytes 0) (sym h.together) in
      record {
        flushed = all;
        unflushed = [];
        on_device = on_device ∙ joined;
        at_end = omega (
          arith,
          h.at_end,
          ap length joined,
          ap length h.on_device,
          length-append l.world.dev.volatile l.writer.buffer,
        );
        buffered = empty ∙ sym (log_bytes-nil (length (log_bytes 0 all)));
        together = sym (append-nil all);
        valid = h.valid;
        current = h.current;
        pending = h.pending;
        told = subst (Told world.trace) (sym h.together) told;
      }

  pub buffer_empty : l.writer.buffer ≡ [] → all ≡ h.flushed
  buffer_empty e =
      h.together
      ∙ ap (λ (ts : List Transfer). h.flushed ++ ts)
          (log_bytes_empty (length (log_bytes 0 h.flushed)) h.unflushed (sym h.buffered ∙ e))
      ∙ append-nil h.flushed

-- A ledger with nothing in its buffer.
pub record IsDrained (all : List Transfer) (l : Ledger) : Type 0 where
  pub logged : IsLogged all l
  pub empty : l.writer.buffer ≡ []

written-IsDrained :
    {all : List Transfer} (l : Ledger) → IsLogged all l → IsDrained all (after_write l)
written-IsDrained l h = record {
  logged =
      after_flush-IsLogged l h (after_write l).writer (after_write l).world
        (write_at_end l.writer.tail l.writer.buffer l.world.dev
          (h.at_end ∙ sym (ap length h.on_device)))
        refl refl
        (told_write (write_at l.writer.tail l.writer.buffer l.world.dev) h.unflushed h.told (
          write_at_end l.writer.tail l.writer.buffer l.world.dev
            (h.at_end ∙ sym (ap length h.on_device))
          ∙ ap₂ (λ (x y : List ℕ). x ++ y) h.on_device h.buffered
          ∙ sym (log_joined h.flushed h.unflushed)));
  empty = refl;
}

-- `Flush` moves the buffered transfers to the device.
pub flush_writer-IsDrained :
    {all : List Transfer} (l : Ledger) → IsLogged all l → IsDrained all (flush_writer l)
flush_writer-IsDrained {all} l h = elim (list_cases l.writer.buffer) [
  | inl e ↦ subst (IsDrained all) (sym (flush_writer-empty l e)) (record { logged = h; empty = e })
  | inr c ↦ subst (IsDrained all) (sym (flush_writer-cons l c.0 c.1 c.2)) (written-IsDrained l h)
]
