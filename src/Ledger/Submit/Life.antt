-- ===== src/Ledger/Submit/Life.antt =====
-- The lives of a ledger over a device that may lose power at any time, and what is acknowledged
-- over all of them.
use iron_ledger.Common.{
  ℕ, ◌+◌, ◌^◌, ◌≤◌, ◌<◌, ◌≡◌, inl, inr, refl, sym, ◌∙◌, ap, subst, Bool, true, List, [], ◌∷◌, ◌++◌,
  length, arith,
}
use iron_ledger.Device.{SimDevice, CutPolicy, Draw, contains, power_cut, from_image}
use iron_ledger.Device.Consistent.{from_image-IsConsistent}
use iron_ledger.Device.PowerCut.{InRange}
use iron_ledger.Device.World.{Event, seen, acks}
use iron_ledger.Wal.Writer.{next_lsn}
use iron_ledger.Wal.Scan.{scan_log}
use iron_ledger.Wal.Scan.Run.{Runs, scan_log_ends, Runs-le}
use iron_ledger.Wal.Scan.Visits.{round_leaves}
use iron_ledger.Ledger.Modes.{LedgerOptions}
use iron_ledger.Ledger.Book.{empty_book}
use iron_ledger.Ledger.Recovery.{recover, replay_record, empty_report}
use iron_ledger.Ledger.Recovery.Replay.{replay_record-refusal}
use iron_ledger.Ledger.Submit.{Ledger, open_ledger, set_ack_sink, Op, perform}
use iron_ledger.Ledger.Submit.Log.{Recovers, log_bytes-nil}
use iron_ledger.Ledger.Submit.Durable.{Durable, IsSafe, Durable-power_cut}
use iron_ledger.Ledger.Submit.Backed.{IsBacked}
use iron_ledger.Ledger.Submit.Perform.{IsDurableMode, IsTypedOp, perform-IsBacked, perform-opts}

-- On any image, the book that recovery returns is the replay of accepted records that lead from
-- the start of the image to exactly the offset at which the writer goes on; the record that ends
-- the scan has changed nothing in it.
pub recover-Recovers :
    (image : List ℕ) (v : Bool)
    → Recovers image v
        (recover (from_image image) v empty_report).1
        (recover (from_image image) v empty_report).0.0
unfolding recover
recover-Recovers image v =
    let d : SimDevice = from_image image in
    let (last, whole, stop) = scan_log_ends d v replay_record (empty_book, empty_report) in
    let left : (scan_log d v replay_record (empty_book, empty_report)).1.0 ≡ last.0 =
      elim (round_leaves d v replay_record _ _ last _ stop) [
        | inl same ↦ ap (λ s. s.0) same
        | inr called ↦ replay_record-refusal last _ _ _ _ called
      ] in
    record {
      count = (scan_log d v replay_record (empty_book, empty_report)).0.records;
      report = last.1;
      run =
          subst
            (λ b.
              Runs d v replay_record
                (scan_log d v replay_record (empty_book, empty_report)).0.valid_bytes
                (scan_log d v replay_record (empty_book, empty_report)).0.records (b, last.1) 0 0
                (empty_book, empty_report))
            (sym left) whole;
    }

pub recover-le :
    (image : List ℕ) (v : Bool) → (recover (from_image image) v empty_report).1 ≤ length image
recover-le image v =
    (Runs-le (from_image image) v replay_record (recover-Recovers image v).run).1 (omega arith)

abbrev pub reopened : List ℕ → LedgerOptions → List Event → Ledger
reopened image opts es =
    (open_ledger (record { dev = from_image image; trace = es }) opts empty_report).0

-- A ledger opened on an image from which the acknowledged keys are recovered.
reopened-IsBacked :
    (image : List ℕ) (opts : LedgerOptions) (es : List Event)
    → IsSafe opts.verify_crc es
    → ((k : ℕ)
        → contains k (acks es) ≡ true
        → contains k (recover (from_image image) opts.verify_crc empty_report).0.0.seen_keys ≡ true)
    → IsBacked (reopened image opts es)
unfolding open_ledger
reopened-IsBacked image opts es safe known = record {
  promises = record {
    consistent = from_image-IsConsistent image;
    durable = record {
      base = (recover (from_image image) opts.verify_crc empty_report).1;
      book = (recover (from_image image) opts.verify_crc empty_report).0.0;
      on_platter = recover-Recovers image opts.verify_crc;
      reaches = recover-le image opts.verify_crc;
      same = λ i _. refl;
      kept = known;
    };
    below = omega arith;
    safe = safe;
    known = known;
    pending = λ k e. cc;
  };
  flushed_book = (recover (from_image image) opts.verify_crc empty_report).0.0;
  flushed = recover-Recovers image opts.verify_crc;
  tail_fits = recover-le image opts.verify_crc;
  unflushed = [];
  buffered = sym (log_bytes-nil (recover (from_image image) opts.verify_crc empty_report).1);
  valid = tt;
  current = refl;
  idle = λ _. refl;
}

-- The ledgers that come to be over one device: the first is opened on an empty image, an operation
-- is done while the log stays below 2 ^ 64 bytes, and the power may go at a moment of rest or, in the
-- middle of an operation, inside a call `e` of the post-write hook or of the ack sink, with the
-- device that the call sees. The calls behind `e` never happened, and the ledger is opened again on
-- what is left of the image.
pub data Life (opts : LedgerOptions) : Ledger → Type 0 where
  born : Life opts (reopened [] opts [])
  listens : {l : Ledger} → Life opts l → Life opts (set_ack_sink l)
  does :
      {l : Ledger} (op : Op)
      → Life opts l
      → IsTypedOp op
      → next_lsn l.writer + 164 < 2 ^ 64
      → Life opts (perform op l)
  rests :
      {l : Ledger} (policy : CutPolicy) (draws : ℕ → Draw)
      → Life opts l
      → InRange draws
      → Life opts (reopened (power_cut policy draws l.world.dev) opts l.world.trace)
  breaks :
      {l : Ledger} (policy : CutPolicy) (draws : ℕ → Draw) (later es : List Event) (e : Event)
      → Life opts l
      → l.world.trace ≡ later ++ e ∷ es
      → InRange draws
      → Life opts (reopened (power_cut policy draws (seen e)) opts (e ∷ es))

IsSafe-later : (v : Bool) (later es : List Event) → IsSafe v (later ++ es) → IsSafe v es
IsSafe-later v [] es h = h
IsSafe-later v (e ∷ later) es h = IsSafe-later v later es h.1

sink-IsBacked : (l : Ledger) → IsBacked l → IsBacked (set_ack_sink l)
unfolding set_ack_sink
sink-IsBacked l h = record {
  promises = record {
    consistent = h.promises.consistent;
    durable = h.promises.durable;
    below = h.promises.below;
    safe = h.promises.safe;
    known = h.promises.known;
    pending = h.promises.pending;
  };
  flushed_book = h.flushed_book;
  flushed = h.flushed;
  tail_fits = h.tail_fits;
  unflushed = h.unflushed;
  buffered = h.buffered;
  valid = h.valid;
  current = h.current;
  idle = h.idle;
}

module _ {opts : LedgerOptions} (durable_mode : IsDurableMode opts.mode) where
  pub Life-opts : {l : Ledger} → Life opts l → l.opts ≡ opts
  unfolding open_ledger set_ack_sink
  Life-opts born = refl
  Life-opts (listens h) = Life-opts h
  Life-opts (does {l} op h typed fits) = perform-opts op l ∙ Life-opts h
  Life-opts (rests policy draws h fair) = refl
  Life-opts (breaks policy draws later es e h split fair) = refl

  snapshot :
      {l : Ledger} (later es : List Event) (e : Event)
      → IsBacked l
      → l.opts ≡ opts
      → l.world.trace ≡ later ++ e ∷ es
      → IsSafe opts.verify_crc (e ∷ es)
  snapshot {l} later es e h same split =
      subst (λ o. IsSafe o.verify_crc (e ∷ es)) same
        (IsSafe-later l.opts.verify_crc later (e ∷ es)
          (subst (IsSafe l.opts.verify_crc) split h.promises.safe))

  Life-IsBacked : {l : Ledger} → Life opts l → IsBacked l
  unfolding acks
  Life-IsBacked born = reopened-IsBacked [] opts [] tt (λ k e. cc)
  Life-IsBacked (listens {l} h) = sink-IsBacked l (Life-IsBacked h)
  Life-IsBacked (does {l} op h typed fits) =
      perform-IsBacked op l (subst (λ o. IsDurableMode o.mode) (sym (Life-opts h)) durable_mode)
        typed (Life-IsBacked h) fits
  Life-IsBacked (rests {l} policy draws h fair) =
      let p = (Life-IsBacked h).promises in
      let same = ap (λ o. o.verify_crc) (Life-opts h) in
      reopened-IsBacked (power_cut policy draws l.world.dev) opts l.world.trace
        (subst (λ v. IsSafe v l.world.trace) same p.safe)
        (λ k.
          Durable-power_cut policy draws k fair
            (subst (λ v. Durable v l.world.dev (acks l.world.trace)) same p.durable))
  Life-IsBacked (breaks {l} policy draws later es e h split fair) =
      let s = snapshot later es e (Life-IsBacked h) (Life-opts h) split in
      reopened-IsBacked (power_cut policy draws (seen e)) opts (e ∷ es) s
        (λ k. Durable-power_cut policy draws k fair s.0)

  -- For a ledger of a Life in the mode sync_every or group_commit: first opened on an empty
  -- image, then changed by operations whose integers are in the range of their C++ types while
  -- the log stays below 2 ^ 64 bytes, by setting the ack sink, and by power cuts, at rest or
  -- inside a call of the post-write hook or of the ack sink, each followed by an opening on what
  -- is left of the image. If the power is cut now, with any policy and any draws in the range of
  -- their distributions, every key acknowledged so far, in all lives, is among the keys that
  -- recovery finds on what is left of the image.
  pub acknowledged_is_recovered :
      {l : Ledger} (policy : CutPolicy) (draws : ℕ → Draw) (k : ℕ)
      → Life opts l
      → InRange draws
      → contains k (acks l.world.trace) ≡ true
      → contains k
          (recover
            (from_image (power_cut policy draws l.world.dev))
            opts.verify_crc
            empty_report).0.0.seen_keys
        ≡ true
  acknowledged_is_recovered {l} policy draws k h fair e =
      let same = ap (λ o. o.verify_crc) (Life-opts h) in
      Durable-power_cut policy draws k fair
        (subst (λ v. Durable v l.world.dev (acks l.world.trace)) same
          (Life-IsBacked h).promises.durable)
        e

  -- For a ledger of a Life in the mode sync_every or group_commit: first opened on an empty
  -- image, then changed by operations whose integers are in the range of their C++ types while
  -- the log stays below 2 ^ 64 bytes, by setting the ack sink, and by power cuts, at rest or
  -- inside a call of the post-write hook or of the ack sink, each followed by an opening on what
  -- is left of the image. If the power is cut inside any call of the post-write hook or of the
  -- ack sink that its trace records, on the device as that call sees it, with any policy and any
  -- draws in the range of their distributions, every key acknowledged by then, the one with which
  -- the sink is being called included, is among the keys that recovery finds on what is left of
  -- the image.
  pub acknowledged_is_recovered_at_call :
      {l : Ledger} (policy : CutPolicy) (draws : ℕ → Draw) (later es : List Event) (e : Event)
      (k : ℕ)
      → Life opts l
      → l.world.trace ≡ later ++ e ∷ es
      → InRange draws
      → contains k (acks (e ∷ es)) ≡ true
      → contains k
          (recover
            (from_image (power_cut policy draws (seen e)))
            opts.verify_crc
            empty_report).0.0.seen_keys
        ≡ true
  acknowledged_is_recovered_at_call policy draws later es e k h split fair known =
      Durable-power_cut policy draws k fair
        (snapshot later es e (Life-IsBacked h) (Life-opts h) split).0 known
