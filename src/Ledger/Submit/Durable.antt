-- ===== src/Ledger/Submit/Durable.antt =====
-- What a power cut may destroy, and what it may not.
use iron_ledger.Common.{ℕ, ◌≤◌, ◌<◌, ◌≡◌, sym, Bool, true, List, [], ◌∷◌, length, byte_at, arith}
use iron_ledger.Device.{SimDevice, CutPolicy, Draw, contains, power_cut, from_image, write_at}
use iron_ledger.Device.World.{Event, seen, acks}
use iron_ledger.Device.Write.{stable-write_at, byte_at-write_at}
use iron_ledger.Device.PowerCut.{InRange, power_cut-keeps_prefix}
use iron_ledger.Wal.Scan.Local.{Runs-local}
use iron_ledger.Wal.Scan.Visits.{scan_log_keeps}
use iron_ledger.Ledger.Book.{Book}
use iron_ledger.Ledger.Recovery.{recover, replay_record, empty_report}
use iron_ledger.Ledger.Recovery.Replay.{replay-keeps_key}
use iron_ledger.Ledger.Submit.Log.{Recovers}

-- Up to `base` the platter holds a log that recovers a book with all the keys, and the cache holds
-- the same bytes there.
pub record Durable (verify_crc : Bool) (d : SimDevice) (keys : List ℕ) : Type 0 where
  pub base : ℕ
  pub book : Book
  pub on_platter : Recovers d.stable verify_crc base book
  pub reaches : base ≤ length d.stable
  pub same : (i : ℕ) → i < base → byte_at d.stable i ≡ byte_at d.volatile i
  pub kept : (k : ℕ) → contains k keys ≡ true → contains k book.seen_keys ≡ true

-- A prefix on which two images agree recovers alike.
pub Recovers-local :
    {image other : List ℕ} {verify_crc : Bool} {off : ℕ} {b : Book}
    → off ≤ length image
    → off ≤ length other
    → ((i : ℕ) → i < off → byte_at image i ≡ byte_at other i)
    → Recovers image verify_crc off b
    → Recovers other verify_crc off b
Recovers-local {image} {other} {verify_crc} p q same r = record {
  count = r.count;
  report = r.report;
  run =
      Runs-local verify_crc replay_record (from_image image) (from_image other)
        (record { left = p; right = q; bytes = same }) r.run;
}

-- A recovered prefix is part of what a recovery of the whole image finds.
pub recover_has_key :
    {image : List ℕ} {verify_crc : Bool} {off : ℕ} {b : Book} (k : ℕ)
    → Recovers image verify_crc off b
    → contains k b.seen_keys ≡ true
    → contains k (recover (from_image image) verify_crc empty_report).0.0.seen_keys ≡ true
unfolding recover
recover_has_key {image} {verify_crc} k r h =
    scan_log_keeps (from_image image) verify_crc replay_record
      {P = λ s. contains k s.0.seen_keys ≡ true} (replay-keeps_key k) r.run h

-- Whatever a power cut does to the dirty sectors, the keys are recovered.
pub Durable-power_cut :
    {verify_crc : Bool} {d : SimDevice} {keys : List ℕ} (policy : CutPolicy) (draws : ℕ → Draw)
    (k : ℕ)
    → InRange draws
    → Durable verify_crc d keys
    → contains k keys ≡ true
    → contains k
        (recover (from_image (power_cut policy draws d)) verify_crc empty_report).0.0.seen_keys
      ≡ true
Durable-power_cut {d} policy draws k fair s h =
    let (room, bytes) = power_cut-keeps_prefix policy draws d s.base fair s.reaches s.same in
    recover_has_key k (Recovers-local s.reaches room (λ i p. sym (bytes i p)) s.on_platter)
      (s.kept k h)

pub written_same :
    (off : ℕ) (buf : List ℕ) (d : SimDevice) (base i : ℕ)
    → base ≤ off
    → i < base
    → byte_at d.stable i ≡ byte_at d.volatile i
    → byte_at (write_at off buf d).stable i ≡ byte_at (write_at off buf d).volatile i
written_same off buf d base i q p e =
    ground (arith, stable-write_at off buf d, byte_at-write_at off buf d i)

-- A write behind the durable part leaves it durable.
abbrev pub Durable-write_at :
    {verify_crc : Bool} {d : SimDevice} {keys : List ℕ} (off : ℕ) (buf : List ℕ)
    → (s : Durable verify_crc d keys) → s.base ≤ off
    → Durable verify_crc (write_at off buf d) keys
Durable-write_at {d} off buf s h = record {
  base = s.base;
  book = s.book;
  on_platter = rw (stable-write_at off buf d) s.on_platter;
  reaches = rw (stable-write_at off buf d) s.reaches;
  same = λ i p. written_same off buf d s.base i h p (s.same i p);
  kept = s.kept;
}

-- At every call of the post-write hook and of the ack sink, the keys acknowledged by then, that of
-- the call included, are durable.
abbrev pub IsSafe : Bool → List Event → Type 0
IsSafe verify_crc [] = Unit
IsSafe verify_crc (e ∷ es) = Durable verify_crc (seen e) (acks (e ∷ es)) × IsSafe verify_crc es

-- The same log makes any keys of its book durable.
abbrev pub Durable-keys :
    {verify_crc : Bool} {d : SimDevice} {keys : List ℕ} (others : List ℕ)
    → (s : Durable verify_crc d keys)
    → ((k : ℕ) → contains k others ≡ true → contains k s.book.seen_keys ≡ true)
    → Durable verify_crc d others
Durable-keys others s kept = record {
  base = s.base;
  book = s.book;
  on_platter = s.on_platter;
  reaches = s.reaches;
  same = s.same;
  kept = kept;
}
