-- ===== src/Common/Bytes.antt =====
-- The byte operations of std::vector and memcpy that the devices use.
use Prim.Native.Nat.{ℕ, ◌+◌, ◌-◌, ◌≤◌, max}
use mathlib.Core.Path.{◌≡◌, ap}
use mathlib.Core.Bool.{◌&&◌}
use mathlib.Core.List.{List, ◌++◌}
use native.Mathlib.Omega.{arith}
use iron_ledger.Common.Tests.{ltb, leb, if◌then◌else◌}
use iron_ledger.Common.Lists.{
  length, take, drop, replicate, byte_at, length-append, length-take, length-drop, length-replicate,
  byte_at-append, byte_at-take, byte_at-drop, byte_at-replicate, byte_at_end,
}

-- `if (v.size() < need) v.resize(need, 0);`
unfoldable pub grow : ℕ → List ℕ → List ℕ
grow need xs = if ltb (length xs) need then xs ++ replicate (need - length xs) 0 else xs

-- `memcpy(dst + off, src, n)`, for a destination that has room for it.
unfoldable pub copy_into : ℕ → List ℕ → List ℕ → List ℕ
copy_into off src dst = take off dst ++ (src ++ drop (off + length src) dst)

-- The bytes of `src` from `begin` up to `end`.
unfoldable pub slice : ℕ → ℕ → List ℕ → List ℕ
slice begin end src = take (end - begin) (drop begin src)

pub length-grow : (need : ℕ) (xs : List ℕ) → length (grow need xs) ≡ max (length xs) need
unfolding grow
length-grow need xs = ground (
  arith,
  length-append xs (replicate (need - length xs) 0),
  length-replicate {A = ℕ} (need - length xs) 0,
)

pub byte_at-grow : (need : ℕ) (xs : List ℕ) (i : ℕ) → byte_at (grow need xs) i ≡ byte_at xs i
unfolding grow
byte_at-grow need xs i = ground (
  arith,
  byte_at-append xs (replicate (need - length xs) 0) i,
  byte_at-replicate (need - length xs) (i - length xs),
  byte_at_end xs i,
)

pub length-copy_into :
    (off : ℕ) (src dst : List ℕ)
    → off + length src ≤ length dst
    → length (copy_into off src dst) ≡ length dst
unfolding copy_into
length-copy_into off src dst h = ground (
  arith,
  length-append (take off dst) (src ++ drop (off + length src) dst),
  length-append src (drop (off + length src) dst),
  length-take off dst,
  length-drop (off + length src) dst,
)

after :
    (off n : ℕ) (xs : List ℕ) (i : ℕ)
    → off + n ≤ i
    → byte_at xs (off + n + (i - off - n)) ≡ byte_at xs i
after off n xs i h = ap (byte_at xs) (omega arith)

-- Inside the copied range the source's byte, elsewhere the destination's.
pub byte_at-copy_into :
    (off : ℕ) (src dst : List ℕ) (i : ℕ)
    → off ≤ length dst
    → byte_at (copy_into off src dst) i
      ≡ (if leb off i && ltb i (off + length src) then byte_at src (i - off) else byte_at dst i)
unfolding copy_into
byte_at-copy_into off src dst i h = ground (
  arith,
  length-take off dst,
  byte_at-append (take off dst) (src ++ drop (off + length src) dst) i,
  byte_at-take off dst i,
  byte_at-append src (drop (off + length src) dst) (i - off),
  byte_at-drop (off + length src) dst (i - off - length src),
  after off (length src) dst i,
)

pub length-slice :
    (begin end : ℕ) (src : List ℕ) → end ≤ length src → length (slice begin end src) ≡ end - begin
unfolding slice
length-slice begin end src h =
    ground (arith, length-take (end - begin) (drop begin src), length-drop begin src)

pub byte_at-slice :
    (begin end : ℕ) (src : List ℕ) (i : ℕ)
    → byte_at (slice begin end src) i ≡ (if ltb i (end - begin) then byte_at src (begin + i) else 0)
unfolding slice
byte_at-slice begin end src i =
    ground (arith, byte_at-take (end - begin) (drop begin src) i, byte_at-drop begin src i)
