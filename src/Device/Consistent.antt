-- ===== src/Device/Consistent.antt =====
-- What is not dirty is on the platter: the invariant of `SimDevice`, kept by its operations, and
-- `Sync`, which moves all that was written to stable storage.
use iron_ledger.Common.{
  ℕ, ◌-◌, ◌/◌, ◌≤◌, ◌<◌, max, ◌≡◌, refl, true, false, ◌&&◌, List, [], ◌∷◌, ltb, leb, ◌==◌,
  if◌then◌else◌, length, byte_at, arith, byte_at_ext, byte_at_end,
}
use iron_ledger.Device.{
  SimDevice, sector_begin, sector_end, contains, sync_sector, sync_sectors, sync, write_at,
  from_image,
}
use iron_ledger.Device.Region.{length-persist, byte_at-persist}
use iron_ledger.Device.Write.{length-write_at, byte_at-write_at, stable-write_at, contains-write_at}

module _ (from : List ℕ) (s : ℕ) (v : List ℕ) where
  byte_at-sync_sector :
      (i : ℕ)
      → byte_at (sync_sector from s v) i
        ≡ (if i / 512 == s && ltb i (length from) then byte_at from i else byte_at v i)
  unfolding sync_sector
  byte_at-sync_sector i =
      ground (arith, byte_at-persist from (sector_begin s) (sector_end from s) v i)

  length-sync_sector : length (sync_sector from s v) ≡ (
      if leb (sector_end from s) (sector_begin s)
      then length v
      else max (length v) (sector_end from s))
  unfolding sync_sector
  length-sync_sector = ground (arith, length-persist from (sector_begin s) (sector_end from s) v)

byte_at-sync_sectors :
    (from ss v : List ℕ) (i : ℕ)
    → byte_at (sync_sectors from ss v) i
      ≡ (if contains (i / 512) ss && ltb i (length from) then byte_at from i else byte_at v i)
unfolding sync_sectors
byte_at-sync_sectors from [] v i = refl
byte_at-sync_sectors from (s ∷ ss) v i =
    ground
      (arith, byte_at-sync_sectors from ss (sync_sector from s v) i, byte_at-sync_sector from s v i)

-- A synchronised byte is inside the platter's image, which never shrinks and never outgrows both.
length-sync_sectors :
    (from ss v : List ℕ)
    → (length v ≤ length (sync_sectors from ss v))
      × (length (sync_sectors from ss v) ≤ max (length v) (length from))
unfolding sync_sectors
length-sync_sectors from [] v = omega arith
length-sync_sectors from (s ∷ ss) v =
    ground (arith, length-sync_sectors from ss (sync_sector from s v), length-sync_sector from s v)

reaches_end :
    (from ss v : List ℕ) (i : ℕ)
    → i < length from
    → contains (i / 512) ss ≡ true
    → i < length (sync_sectors from ss v)
unfolding sync_sectors
reaches_end from [] v i h e = cc
reaches_end from (s ∷ ss) v i h e = ground (
  arith,
  reaches_end from ss (sync_sector from s v) i h,
  length-sync_sectors from ss (sync_sector from s v),
  length-sync_sector from s v,
)

-- Every byte of a sector that is not dirty is on the platter, a hole reading as zeros; the platter
-- holds no more bytes than the cache, and as many unless the last sector is dirty.
pub record IsConsistent (d : SimDevice) : Type 0 where
  pub shorter : length d.stable ≤ length d.volatile
  pub clean :
      (i : ℕ) → contains (i / 512) d.dirty ≡ false → byte_at d.stable i ≡ byte_at d.volatile i
  pub whole :
      contains ((length d.volatile - 1) / 512) d.dirty ≡ false → length d.stable ≡ length d.volatile

pub from_image-IsConsistent : (image : List ℕ) → IsConsistent (from_image image)
from_image-IsConsistent image = record {
  shorter = omega arith;
  clean = λ i _. refl;
  whole = λ _. refl;
}

module _ {d : SimDevice} (c : IsConsistent d) where
  synced_byte :
      (i : ℕ) → byte_at (sync_sectors d.volatile d.dirty d.stable) i ≡ byte_at d.volatile i
  synced_byte i = ground (
    arith,
    byte_at-sync_sectors d.volatile d.dirty d.stable i,
    byte_at_end d.volatile i,
    byte_at_end d.stable i,
    c.shorter,
    c.clean i,
  )

  synced_length : length (sync_sectors d.volatile d.dirty d.stable) ≡ length d.volatile
  synced_length = ground (
    arith,
    length-sync_sectors d.volatile d.dirty d.stable,
    reaches_end d.volatile d.dirty d.stable (length d.volatile - 1),
    c.shorter,
    c.whole,
  )

  -- After Sync of a consistent device the platter holds exactly what a reader sees, no sector is
  -- dirty, and what a reader sees has not changed.
  pub sync-stable :
      ((sync d).stable ≡ d.volatile) × ((sync d).dirty ≡ []) × ((sync d).volatile ≡ d.volatile)
  unfolding sync
  sync-stable = (
    byte_at_ext (sync_sectors d.volatile d.dirty d.stable) d.volatile synced_length
        (λ i _. synced_byte i),
    refl,
    refl,
  )

  -- `Sync` keeps the invariant.
  pub sync-IsConsistent : IsConsistent (sync d)
  unfolding sync
  sync-IsConsistent = record {
    shorter = omega (arith, synced_length);
    clean = λ i _. synced_byte i;
    whole = λ _. synced_length;
  }

  -- Every write, wherever it lands, keeps a consistent device consistent: the platter is no
  -- longer than the cache, a byte of a sector that is not dirty is on the platter, and the
  -- lengths differ only if the last sector is dirty.
  pub write_at-IsConsistent : (off : ℕ) (buf : List ℕ) → IsConsistent (write_at off buf d)
  write_at-IsConsistent off buf = record {
    shorter = ground (arith, stable-write_at off buf d, length-write_at off buf d, c.shorter);
    clean = λ i e. ground (
      arith,
      stable-write_at off buf d,
      byte_at-write_at off buf d i,
      contains-write_at off buf d i e,
      c.clean i,
    );
    whole = λ e. ground (
      arith,
      stable-write_at off buf d,
      length-write_at off buf d,
      contains-write_at off buf d (length (write_at off buf d).volatile - 1) e,
      c.whole,
    );
  }
