-- ===== src/Device/PowerCut.antt =====
-- What a power cut leaves on the platter.
use iron_ledger.Common.{
  ℕ, ◌+◌, ◌-◌, ◌≤◌, ◌<◌, max, ◌≡◌, ◌⊎◌, inl, refl, ◌∙◌, List, [], ◌∷◌, length, byte_at, arith,
}
use iron_ledger.Device.{
  SimDevice, CutPolicy, Draw, sector_begin, sector_end, sync_sector, sync_sectors, sync, cut_sector,
  cut_sectors, power_cut,
}
use iron_ledger.Device.Region.{length-persist, byte_at-persist}
use iron_ledger.Device.Consistent.{IsConsistent, sync-stable}

-- `uniform_int_distribution(1, len - 1)` returns a number of its range, for every sector.
abbrev pub InRange : (ℕ → Draw) → Type 0
InRange draws = (s len : ℕ) → 1 < len → (1 ≤ (draws s).pick len) × ((draws s).pick len < len)

module _ (policy : CutPolicy) (draws : ℕ → Draw) (from : List ℕ) (fair : InRange draws) where
  cut_sector_byte :
      (s : ℕ) (out : List ℕ) (i : ℕ)
      → (byte_at (cut_sector policy draws from s out) i ≡ byte_at out i)
        ⊎ (byte_at (cut_sector policy draws from s out) i ≡ byte_at from i)
  unfolding cut_sector
  cut_sector_byte s out i = ground (
    arith,
    fair s (sector_end from s - sector_begin s),
    byte_at-persist from (sector_begin s) (sector_end from s) out i,
    byte_at-persist from (sector_begin s)
        (sector_begin s + (draws s).pick (sector_end from s - sector_begin s)) out i,
    byte_at-persist from (sector_begin s) (sector_begin s + (sector_end from s - sector_begin s))
        out i,
  )

  cut_sector-length :
      (s : ℕ) (out : List ℕ)
      → (length out ≤ length (cut_sector policy draws from s out))
        × (length (cut_sector policy draws from s out) ≤ max (length out) (length from))
  unfolding cut_sector
  cut_sector-length s out = ground (
    arith,
    fair s (sector_end from s - sector_begin s),
    length-persist from (sector_begin s) (sector_end from s) out,
    length-persist from (sector_begin s)
        (sector_begin s + (draws s).pick (sector_end from s - sector_begin s)) out,
    length-persist from (sector_begin s) (sector_begin s + (sector_end from s - sector_begin s))
        out,
  )

  cut_sectors_byte :
      (ss out : List ℕ) (i : ℕ)
      → (byte_at (cut_sectors policy draws from ss out) i ≡ byte_at out i)
        ⊎ (byte_at (cut_sectors policy draws from ss out) i ≡ byte_at from i)
  unfolding cut_sectors
  cut_sectors_byte [] out i = inl refl
  cut_sectors_byte (s ∷ ss) out i =
      ground
        (arith, cut_sectors_byte ss (cut_sector policy draws from s out) i, cut_sector_byte s out i)

  cut_sectors-length :
      (ss out : List ℕ)
      → (length out ≤ length (cut_sectors policy draws from ss out))
        × (length (cut_sectors policy draws from ss out) ≤ max (length out) (length from))
  unfolding cut_sectors
  cut_sectors-length [] out = omega arith
  cut_sectors-length (s ∷ ss) out =
      omega
        (arith, cut_sectors-length ss (cut_sector policy draws from s out), cut_sector-length s out)

-- After a power cut of a consistent device, with draws in the range of their distributions, every
-- byte of the image is the byte of the platter or the byte of the cache at its place, and the
-- image is no shorter than the platter and no longer than the cache.
pub power_cut-bytes :
    (policy : CutPolicy) (draws : ℕ → Draw) (d : SimDevice)
    → IsConsistent d
    → InRange draws
    → ((i : ℕ)
        → (byte_at (power_cut policy draws d) i ≡ byte_at d.stable i)
          ⊎ (byte_at (power_cut policy draws d) i ≡ byte_at d.volatile i))
      × (length d.stable ≤ length (power_cut policy draws d))
      × (length (power_cut policy draws d) ≤ length d.volatile)
unfolding power_cut
power_cut-bytes policy draws d c fair =
    let bounds = cut_sectors-length policy draws d.volatile fair d.dirty d.stable in
    (
      λ i. cut_sectors_byte policy draws d.volatile fair d.dirty d.stable i,
      omega arith,
      omega (arith, c.shorter),
    )

-- Right after Sync of a consistent device a power cut loses nothing: the image is what a reader
-- saw, whatever is drawn.
pub power_cut-sync :
    (policy : CutPolicy) (draws : ℕ → Draw) (d : SimDevice)
    → IsConsistent d
    → power_cut policy draws (sync d) ≡ d.volatile
unfolding power_cut cut_sectors sync
power_cut-sync policy draws d c = (sync-stable c).0

module _ (policy : CutPolicy) (draws : ℕ → Draw) where
  persists_as_sync :
      (all : (s : ℕ) → (draws s).unit < policy.p_persist) (from ss out : List ℕ)
      → cut_sectors policy draws from ss out ≡ sync_sectors from ss out
  unfolding cut_sectors sync_sectors cut_sector sync_sector
  persists_as_sync all from [] out = refl
  persists_as_sync all from (s ∷ ss) out =
      ground (arith, all s, persists_as_sync all from ss (sync_sector from s out))

  loses_dirty :
      (none : (s : ℕ) → policy.p_persist + policy.p_tear ≤ (draws s).unit) (from ss out : List ℕ)
      → cut_sectors policy draws from ss out ≡ out
  unfolding cut_sectors cut_sector
  loses_dirty none from [] out = refl
  loses_dirty none from (s ∷ ss) out = ground (arith, none s, loses_dirty none from ss out)

  -- Where every draw is below p_persist, a power cut of a consistent device leaves exactly what a
  -- reader saw.
  power_cut-all_persist :
      (d : SimDevice)
      → IsConsistent d
      → ((s : ℕ) → (draws s).unit < policy.p_persist)
      → power_cut policy draws d ≡ d.volatile
  unfolding power_cut
  power_cut-all_persist d c all =
      persists_as_sync all d.volatile d.dirty d.stable ∙ (unfold sync in (sync-stable c).0)

  -- Where every draw is p_persist + p_tear or more, a power cut leaves exactly the platter.
  power_cut-all_lost :
      (d : SimDevice)
      → ((s : ℕ) → policy.p_persist + policy.p_tear ≤ (draws s).unit)
      → power_cut policy draws d ≡ d.stable
  unfolding power_cut
  power_cut-all_lost d none = loses_dirty none d.volatile d.dirty d.stable

-- A prefix that is on the platter, and on which platter and cache agree, survives every power cut
-- whose draws are in the range of their distributions.
pub power_cut-keeps_prefix :
    (policy : CutPolicy) (draws : ℕ → Draw) (d : SimDevice) (n : ℕ)
    → InRange draws
    → n ≤ length d.stable
    → ((i : ℕ) → i < n → byte_at d.stable i ≡ byte_at d.volatile i)
    → (n ≤ length (power_cut policy draws d))
      × ((i : ℕ) → i < n → byte_at (power_cut policy draws d) i ≡ byte_at d.stable i)
unfolding power_cut
power_cut-keeps_prefix policy draws d n fair h same =
    let bounds = cut_sectors-length policy draws d.volatile fair d.dirty d.stable in
    (
      omega arith,
      λ i k.
          ground
            (arith, cut_sectors_byte policy draws d.volatile fair d.dirty d.stable i, same i k),
    )
