-- ===== src/Device/World.antt =====
-- The device together with what the callbacks of its owner see: the post-write hook, which is
-- called at the end of every `WriteAt`, and the ledger's ack sink. Both belong to the caller, who
-- may look at the device in them, so the model records their calls, in order, in one trace (newest
-- first), each with the device at the time of the call. `Sync` calls nothing: the device that it
-- leaves is the one that the next call sees, or that of the next moment of rest.
use iron_ledger.Common.{ℕ, List, [], ◌∷◌}
use iron_ledger.Device.{SimDevice, write_at, sync}

pub data Event : Type 0 where
  -- post_write_hook_(*this)
  wrote : SimDevice → Event
  -- ack_sink_(key)
  acked : ℕ → SimDevice → Event

-- The device that a callback sees.
abbrev pub seen : Event → SimDevice
seen (wrote d) = d
seen (acked k d) = d

pub record World : Type 0 where
  pub dev : SimDevice
  pub trace : List Event

-- WriteAt with the call of the hook.
unfoldable pub world_write : ℕ → List ℕ → World → World
world_write off buf w =
    let d = write_at off buf w.dev in record { dev = d; trace = wrote d ∷ w.trace }

-- Sync
unfoldable pub world_sync : World → World
world_sync w = record w { dev = sync w.dev }

-- The keys acknowledged in a trace, newest first.
unfoldable pub acks : List Event → List ℕ
acks [] = []
acks (wrote d ∷ es) = acks es
acks (acked k d ∷ es) = k ∷ acks es
