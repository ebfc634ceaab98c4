-- ===== src/Device/Tests.antt =====
-- The device's theorems on images of a few bytes.
use iron_ledger.Common.{
  ℕ, ◌≤◌, ◌<◌, ◌≡◌, ◌⊎◌, refl, List, [], ◌∷◌, length, byte_at, arith, grow, copy_into, slice,
}
use iron_ledger.Device.{
  SimDevice, CutPolicy, Draw, from_image, insert, insert_range, write_at, read_at, persist, sync,
  cut_sector, cut_sectors, power_cut,
}
use iron_ledger.Device.Write.{read_at-write_at, stable-write_at, byte_at-write_at}
use iron_ledger.Device.Consistent.{
  IsConsistent, from_image-IsConsistent, sync-stable, write_at-IsConsistent,
}
use iron_ledger.Device.PowerCut.{power_cut-bytes, power_cut-keeps_prefix}

abbrev image : List ℕ
image = 1 ∷ 2 ∷ 3 ∷ []

abbrev buf : List ℕ
buf = 7 ∷ 8 ∷ []

-- Two bytes written behind a stable image, not yet synced.
abbrev written : SimDevice
written = write_at 3 buf (from_image image)

written-IsConsistent : IsConsistent written
written-IsConsistent = write_at-IsConsistent (from_image-IsConsistent image) 3 buf

abbrev policy : CutPolicy
policy = record { p_persist = 5; p_tear = 2 }

abbrev torn : ℕ → Draw
torn s = record { unit = 6; pick = λ _. 1 }

-- A sector of five bytes of which one reaches the platter.
torn_cut : power_cut policy torn written ≡ image
unfolding power_cut cut_sectors cut_sector write_at insert insert_range persist grow copy_into slice
torn_cut = refl

write_at-IsConsistent_example : IsConsistent (write_at 3 buf (from_image image))
write_at-IsConsistent_example = write_at-IsConsistent (from_image-IsConsistent image) 3 buf

sync-stable_example :
    ((sync written).stable ≡ written.volatile)
    × ((sync written).dirty ≡ [])
    × ((sync written).volatile ≡ written.volatile)
sync-stable_example = sync-stable written-IsConsistent

read_at-write_at_example : read_at 3 2 (write_at 3 buf (from_image image)) ≡ buf
read_at-write_at_example = read_at-write_at 3 buf (from_image image)

power_cut-bytes_example :
    ((i : ℕ)
      → (byte_at (power_cut policy torn written) i ≡ byte_at written.stable i)
        ⊎ (byte_at (power_cut policy torn written) i ≡ byte_at written.volatile i))
    × (length written.stable ≤ length (power_cut policy torn written))
    × (length (power_cut policy torn written) ≤ length written.volatile)
power_cut-bytes_example =
    power_cut-bytes policy torn written written-IsConsistent (λ s len h. (omega arith, omega arith))

kept_prefix : (i : ℕ) → i < 3 → byte_at written.stable i ≡ byte_at written.volatile i
kept_prefix i h =
    ground
      (arith, stable-write_at 3 buf (from_image image), byte_at-write_at 3 buf (from_image image) i)

kept_reaches : 3 ≤ length written.stable
kept_reaches = rw (stable-write_at 3 buf (from_image image)) (omega arith)

power_cut-keeps_prefix_example :
    (3 ≤ length (power_cut policy torn written))
    × ((i : ℕ) → i < 3 → byte_at (power_cut policy torn written) i ≡ byte_at written.stable i)
power_cut-keeps_prefix_example =
    power_cut-keeps_prefix policy torn written 3 (λ s len h. (omega arith, omega arith))
      kept_reaches kept_prefix
