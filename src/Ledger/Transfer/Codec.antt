-- ===== src/Ledger/Transfer/Codec.antt =====
-- The codecs of ledger.cpp against those of wal.cpp: the same bytes, and the same numbers.
use iron_ledger.Common.{
  ℕ, zero, suc, ◌+◌, ◌*◌, ◌^◌, ◌<◌, ◌≡◌, refl, ◌∙◌, sym, ap, List, [], ◌∷◌, ◌++◌, byte_at, AllLt,
  AllLt-byte_at, arith,
}
use mathlib.Core.List.{append_assoc, append-nil}
use iron_ledger.Bits.{◌<<◌, bit_or_low}
use iron_ledger.Wal.Codec.{put_u32, put_loop, put_u64, get_u64}
use iron_ledger.Wal.Codec.RoundTrip.{get_u64-horner}
use iron_ledger.Ledger.Transfer.{push_u32, push_loop, push_u64, read_loop, read_u64}

push_loop_lem :
    (left : ℕ) (out : List ℕ) (v i : ℕ) → push_loop out v i left ≡ out ++ put_loop v i left
unfolding push_loop put_loop
push_loop_lem zero out v i = sym (append-nil out)
push_loop_lem (suc left) out v i =
    push_loop_lem left (out ++ _ ∷ []) v (i + 1)
    ∙ append_assoc out (_ ∷ []) (put_loop v (i + 1) left)

pub push_u64_lem : (out : List ℕ) (v : ℕ) → push_u64 out v ≡ out ++ put_u64 v
unfolding push_u64 put_u64
push_u64_lem out v = push_loop_lem 8 out v 0

pub push_u32_lem : (out : List ℕ) (v : ℕ) → push_u32 out v ≡ out ++ put_u32 v
unfolding push_u32 put_u32
push_u32_lem out v = refl

read_round :
    (i left v : ℕ) (p : List ℕ)
    → v < 2 ^ (8 * i)
    → read_loop i (suc left) v p ≡ read_loop (i + 1) left ((byte_at p i << (8 * i)) + v) p
unfolding read_loop
read_round i left v p h =
    ap (λ (x : ℕ). read_loop (i + 1) left x p) (bit_or_low (8 * i) (byte_at p i) v h)

-- Both readers of a u64 read the same number.
pub read_u64_lem : (p : List ℕ) → AllLt 256 p → read_u64 p ≡ get_u64 p
unfolding read_u64
read_u64_lem p bytes =
    let h : (i : ℕ) → byte_at p i < 256 = λ i. AllLt-byte_at p i bytes in
    let w1 : ℕ = byte_at p 0 * 2 ^ 0 + 0 in
    let w2 : ℕ = byte_at p 1 * 2 ^ 8 + w1 in
    let w3 : ℕ = byte_at p 2 * 2 ^ 16 + w2 in
    let w4 : ℕ = byte_at p 3 * 2 ^ 24 + w3 in
    let w5 : ℕ = byte_at p 4 * 2 ^ 32 + w4 in
    let w6 : ℕ = byte_at p 5 * 2 ^ 40 + w5 in
    let w7 : ℕ = byte_at p 6 * 2 ^ 48 + w6 in
    let w8 : ℕ = byte_at p 7 * 2 ^ 56 + w7 in
    read_round 0 7 0 p (omega (arith))
    ∙ read_round 1 6 w1 p (omega (arith, h 0))
    ∙ read_round 2 5 w2 p (omega (arith, h 0, h 1))
    ∙ read_round 3 4 w3 p (omega (arith, h 0, h 1, h 2))
    ∙ read_round 4 3 w4 p (omega (arith, h 0, h 1, h 2, h 3))
    ∙ read_round 5 2 w5 p (omega (arith, h 0, h 1, h 2, h 3, h 4))
    ∙ read_round 6 1 w6 p (omega (arith, h 0, h 1, h 2, h 3, h 4, h 5))
    ∙ read_round 7 0 w7 p (omega (arith, h 0, h 1, h 2, h 3, h 4, h 5, h 6))
    ∙ last w8
    ∙ omega (arith, get_u64-horner p bytes)
  where
    last : (w : ℕ) → read_loop 8 0 w p ≡ w
    last w = unfold read_loop in refl
