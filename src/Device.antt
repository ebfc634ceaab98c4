-- ===== src/Device.antt =====
-- device.h and device.cpp: `SimDevice`, the power-loss simulator. A byte image is a list of
-- numbers; the `std::set` of dirty sectors is its ascending list of elements.
pub mod Region
pub mod Write
pub mod Consistent
pub mod PowerCut
pub mod World
mod Tests
use iron_ledger.Common.{
  ℕ, zero, suc, ◌+◌, ◌-◌, ◌*◌, ◌/◌, ◌≤◌, ◌<◌, min, Bool, true, false, ◌||◌, List, [], ◌∷◌, ltb, leb,
  ◌==◌, if◌then◌else◌, length, take, drop, grow, copy_into, slice,
}

-- kSectorSize
abbrev pub sector_size : ℕ
sector_size = 512

-- The fields of `SimDevice`; the post-write hook is in `World`.
pub record SimDevice : Type 0 where
  pub volatile : List ℕ
  pub stable : List ℕ
  pub dirty : List ℕ
  pub write_count : ℕ
  pub sync_count : ℕ

-- SimDevice()
abbrev pub fresh : SimDevice
fresh = record { volatile = []; stable = []; dirty = []; write_count = 0; sync_count = 0 }

-- SimDevice(image)
abbrev pub from_image : List ℕ → SimDevice
from_image image = record {
  volatile = image;
  stable = image;
  dirty = [];
  write_count = 0;
  sync_count = 0;
}

abbrev pub contains : ℕ → List ℕ → Bool
contains s [] = false
contains s (t ∷ ts) = s == t || contains s ts

-- dirty_.insert(s)
unfoldable pub insert : ℕ → List ℕ → List ℕ
insert s [] = s ∷ []
insert s (t ∷ ts) = if ltb s t then s ∷ t ∷ ts else if s == t then t ∷ ts else t ∷ insert s ts

-- `for (s = first; s <= last; ++s) dirty_.insert(s);` with the count of rounds left.
unfoldable pub insert_range : ℕ → ℕ → List ℕ → List ℕ
insert_range s zero ts = ts
insert_range s (suc left) ts = insert_range (s + 1) left (insert s ts)

-- WriteAt, up to the hook.
unfoldable pub write_at : ℕ → List ℕ → SimDevice → SimDevice
write_at off buf d =
    let n = length buf in
    let first = off / sector_size in
    let last = (off + n - 1) / sector_size in
    if ltb 0 n
    then record d {
      volatile = copy_into off buf (grow (off + n) d.volatile);
      dirty = insert_range first (last + 1 - first) d.dirty;
      write_count = d.write_count + 1;
    }
    else record d { write_count = d.write_count + 1 }

-- ReadAt: the bytes read; a short list is the end of the device.
unfoldable pub read_at : ℕ → ℕ → SimDevice → List ℕ
read_at off n d =
    if leb (length d.volatile) off
    then []
    else take (min n (length d.volatile - off)) (drop off d.volatile)

-- `if (v.size() < end) v.resize(end, 0); memcpy(v + begin, from + begin, end - begin);`, in
-- `Sync` and in both branches of `PowerCut`.
unfoldable pub persist : List ℕ → ℕ → ℕ → List ℕ → List ℕ
persist from begin end v = copy_into begin (slice begin end from) (grow end v)

abbrev pub sector_begin : ℕ → ℕ
sector_begin s = s * sector_size

abbrev pub sector_end : List ℕ → ℕ → ℕ
sector_end image s = min (s * sector_size + sector_size) (length image)

-- The body of the loop in `Sync`.
unfoldable pub sync_sector : List ℕ → ℕ → List ℕ → List ℕ
sync_sector from s v =
    if leb (sector_end from s) (sector_begin s)
    then v
    else persist from (sector_begin s) (sector_end from s) v

unfoldable pub sync_sectors : List ℕ → List ℕ → List ℕ → List ℕ
sync_sectors from [] v = v
sync_sectors from (s ∷ ss) v = sync_sectors from ss (sync_sector from s v)

-- Sync
unfoldable pub sync : SimDevice → SimDevice
sync d = record d {
  stable = sync_sectors d.volatile d.dirty d.stable;
  dirty = [];
  sync_count = d.sync_count + 1;
}

-- Size
abbrev pub size : SimDevice → ℕ
size d = length d.volatile

-- CutPolicy. The probabilities, and the draw that is held against them, are numerators over one
-- denominator.
pub record CutPolicy : Type 0 where
  pub p_persist : ℕ
  pub p_tear : ℕ

-- What the two distributions return for a sector: `unit(rng)`, and `pick(rng)` for the length that
-- bounds it, where it is drawn.
pub record Draw : Type 0 where
  pub unit : ℕ
  pub pick : ℕ → ℕ

module _ (policy : CutPolicy) (draws : ℕ → Draw) where
  -- The body of the loop in `PowerCut`.
  unfoldable pub cut_sector : List ℕ → ℕ → List ℕ → List ℕ
  cut_sector from s out =
      let begin = sector_begin s in
      let end = sector_end from s in
      let len = end - begin in
      let u = (draws s).unit in
      let k = if ltb 1 len then (draws s).pick len else len in
      if leb end begin
      then out
      else if ltb u policy.p_persist
      then persist from begin end out
      else if ltb u (policy.p_persist + policy.p_tear)
      then persist from begin (begin + k) out
      else out

  unfoldable pub cut_sectors : List ℕ → List ℕ → List ℕ → List ℕ
  cut_sectors from [] out = out
  cut_sectors from (s ∷ ss) out = cut_sectors from ss (cut_sector from s out)

  -- PowerCut
  unfoldable pub power_cut : SimDevice → List ℕ
  power_cut d = cut_sectors d.volatile d.dirty d.stable
