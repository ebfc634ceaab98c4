-- ===== src/Wal/Writer.antt =====
-- `LogWriter`: records are buffered, handed to the device by `Flush`, and made durable by `Sync`.
use iron_ledger.Common.{ℕ, ◌+◌, List, [], ◌∷◌, length}
use iron_ledger.Device.World.{World, world_write, world_sync}
use iron_ledger.Wal.Record.{encode_record}

pub record LogWriter : Type 0 where
  pub buffer : List ℕ
  pub tail : ℕ
  pub buffered_records : ℕ

-- LogWriter(dev, start_offset)
abbrev pub open_at : ℕ → LogWriter
open_at start = record { buffer = []; tail = start; buffered_records = 0 }

abbrev pub next_lsn : LogWriter → ℕ
next_lsn w = w.tail + length w.buffer

-- Append: the writer with the record buffered, and its lsn.
unfoldable pub append : ℕ → List ℕ → LogWriter → LogWriter × ℕ
append type payload w =
    let lsn = next_lsn w in
    (
      record w {
        buffer = encode_record w.buffer lsn type payload;
        buffered_records = w.buffered_records + 1;
      },
      lsn,
    )

-- The test `buffer_.empty()` of `Flush` is the pattern.
unfoldable pub flush_buffer : List ℕ → LogWriter → World → LogWriter × World
flush_buffer [] w world = (w, world)
flush_buffer (b ∷ bs) w world = (
  record { buffer = []; tail = w.tail + length w.buffer; buffered_records = 0 },
  world_write w.tail w.buffer world,
)

-- Flush
unfoldable pub flush : LogWriter → World → LogWriter × World
flush w world = flush_buffer w.buffer w world

-- Sync
unfoldable pub sync_log : LogWriter → World → LogWriter × World
sync_log w world = let (w', world') = flush w world in (w', world_sync world')
