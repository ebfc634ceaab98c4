-- ===== src/Device/Write.antt =====
-- `WriteAt` and `ReadAt`, byte by byte.
use iron_ledger.Common.{
  ℕ, ◌+◌, ◌-◌, ◌/◌, ◌≤◌, ◌<◌, min, max, ◌≡◌, ap, false, ◌&&◌, List, ltb, leb, if◌then◌else◌, length,
  byte_at, arith, byte_at_ext, length-grow, byte_at-grow, length-copy_into, byte_at-copy_into, grow,
  drop, length-take, length-drop, byte_at-take, byte_at-drop,
}
use iron_ledger.Device.{SimDevice, contains, write_at, read_at}
use iron_ledger.Device.Region.{contains-insert_range}

module _ (off : ℕ) (buf : List ℕ) (d : SimDevice) where
  pub length-write_at : length (write_at off buf d).volatile ≡ (
      if ltb 0 (length buf) then max (length d.volatile) (off + length buf) else length d.volatile)
  unfolding write_at
  length-write_at = ground (
    arith,
    length-copy_into off buf (grow (off + length buf) d.volatile),
    length-grow (off + length buf) d.volatile,
  )

  -- The written range holds the buffer, every other byte is as it was.
  pub byte_at-write_at :
      (i : ℕ)
      → byte_at (write_at off buf d).volatile i ≡ (
          if leb off i && ltb i (off + length buf)
          then byte_at buf (i - off)
          else byte_at d.volatile i)
  unfolding write_at
  byte_at-write_at i = ground (
    arith,
    byte_at-copy_into off buf (grow (off + length buf) d.volatile) i,
    byte_at-grow (off + length buf) d.volatile i,
    length-grow (off + length buf) d.volatile,
  )

  pub stable-write_at : (write_at off buf d).stable ≡ d.stable
  unfolding write_at
  stable-write_at = ground arith

  -- Every sector that the range touches is dirty, and none that was dirty is clean.
  pub contains-write_at :
      (i : ℕ)
      → contains (i / 512) (write_at off buf d).dirty ≡ false
      → (contains (i / 512) d.dirty ≡ false) × ((leb off i && ltb i (off + length buf)) ≡ false)
  unfolding write_at
  contains-write_at i e = ground (
    arith,
    contains-insert_range (i / 512) (off / 512) ((off + length buf - 1) / 512 + 1 - off / 512)
        d.dirty,
  )

module _ (off n : ℕ) (d : SimDevice) where
  -- What is read in range is the requested bytes.
  pub length-read_at : length (read_at off n d) ≡ min n (length d.volatile - off)
  unfolding read_at
  length-read_at = ground (
    arith,
    length-take (min n (length d.volatile - off)) (drop off d.volatile),
    length-drop off d.volatile,
  )

  pub byte_at-read_at :
      (i : ℕ)
      → i < n
      → off + i < length d.volatile
      → byte_at (read_at off n d) i ≡ byte_at d.volatile (off + i)
  unfolding read_at
  byte_at-read_at i h k = ground (
    arith,
    byte_at-take (min n (length d.volatile - off)) (drop off d.volatile) i,
    byte_at-drop off d.volatile i,
  )

shifted : (xs : List ℕ) (off i : ℕ) → byte_at xs (off + i - off) ≡ byte_at xs i
shifted xs off i = ap (byte_at xs) (omega arith)

-- A read of a range that was just written gives the written buffer back, wherever it lies.
pub read_at-write_at :
    (off : ℕ) (buf : List ℕ) (d : SimDevice) → read_at off (length buf) (write_at off buf d) ≡ buf
read_at-write_at off buf d =
    byte_at_ext (read_at off (length buf) (write_at off buf d)) buf
      (ground
        (arith, length-read_at off (length buf) (write_at off buf d), length-write_at off buf d))
      (λ i h. ground (
        arith,
        length-read_at off (length buf) (write_at off buf d),
        length-write_at off buf d,
        byte_at-read_at off (length buf) (write_at off buf d) i,
        byte_at-write_at off buf d (off + i),
        shifted buf off i,
      ))

-- Two devices whose images agree on a range read alike there.
pub read_at_agree :
    (off n : ℕ) (d e : SimDevice)
    → off + n ≤ length d.volatile
    → off + n ≤ length e.volatile
    → ((i : ℕ) → i < off + n → byte_at d.volatile i ≡ byte_at e.volatile i)
    → read_at off n d ≡ read_at off n e
read_at_agree off n d e p q h =
    byte_at_ext (read_at off n d) (read_at off n e)
      (omega (arith, length-read_at off n d, length-read_at off n e))
      (λ i k. ground (
        arith,
        length-read_at off n d,
        byte_at-read_at off n d i,
        byte_at-read_at off n e i,
        h (off + i),
      ))
