-- ===== src/Wal/Codec/RoundTrip.antt =====
-- Each reader gives back what its writer wrote, whatever follows.
use iron_ledger.Common.{
  ℕ, zero, suc, ◌+◌, ◌*◌, ◌%◌, ◌^◌, ◌<◌, ◌≤◌, ◌≡◌, refl, ◌∙◌, ap, List, [], ◌∷◌, ◌++◌, length, take,
  byte_at, AllLt, AllLt-append, AllLt-byte_at, arith,
}
use iron_ledger.Bits.{◌<<◌, bit_or, bit_or_high, bit_or_low}
use iron_ledger.Wal.Codec.{put_u32, put_loop, put_u64, get_u32, get_loop, get_u64}

-- Four bytes as a number.
pub get_u32_sum :
    (p : List ℕ)
    → AllLt 256 p
    → get_u32 p ≡ byte_at p 0 + byte_at p 1 * 2 ^ 8 + byte_at p 2 * 2 ^ 16 + byte_at p 3 * 2 ^ 24
unfolding get_u32
get_u32_sum p bytes =
    let h : (i : ℕ) → byte_at p i < 256 = λ i. AllLt-byte_at p i bytes in
    let a : ℕ = byte_at p 0 in
    let two : bit_or a (byte_at p 1 << 8) ≡ (byte_at p 1 << 8) + a =
      bit_or_low 8 (byte_at p 1) a (h 0) in
    let three : bit_or (bit_or a (byte_at p 1 << 8)) (byte_at p 2 << 16)
        ≡ (byte_at p 2 << 16) + bit_or a (byte_at p 1 << 8) =
      bit_or_low 16 (byte_at p 2) (bit_or a (byte_at p 1 << 8)) (omega (arith, h 0, h 1)) in
    omega (
      arith,
      bit_or_low 24 (byte_at p 3) (bit_or (bit_or a (byte_at p 1 << 8)) (byte_at p 2 << 16))
          (omega (arith, h 0, h 1, h 2)),
    )

-- Eight bytes as a number, the last of them the highest.
abbrev pub horner : ℕ → ℕ → List ℕ → ℕ
horner zero v p = v
horner (suc i) v p = horner i (v * 256 + byte_at p i) p

get_round : (v b : ℕ) → v < 2 ^ 56 → b < 256 → bit_or ((v << 8) % 2 ^ 64) b ≡ v * 256 + b
get_round v b h k = let e : (v << 8) % 2 ^ 64 ≡ v << 8 = omega arith in rw e (bit_or_high 8 v b k)

loop_round :
    (i v : ℕ) (p : List ℕ)
    → v < 2 ^ 56
    → byte_at p i < 256
    → get_loop (suc i) v p ≡ get_loop i (v * 256 + byte_at p i) p
unfolding get_loop
loop_round i v p h k = ap (λ (x : ℕ). get_loop i x p) (get_round v (byte_at p i) h k)

pub get_u64-horner : (p : List ℕ) → AllLt 256 p → get_u64 p ≡ horner 8 0 p
unfolding get_u64
get_u64-horner p bytes =
    let h : (i : ℕ) → byte_at p i < 256 = λ i. AllLt-byte_at p i bytes in
    let v1 : ℕ = 0 * 256 + byte_at p 7 in
    let v2 : ℕ = v1 * 256 + byte_at p 6 in
    let v3 : ℕ = v2 * 256 + byte_at p 5 in
    let v4 : ℕ = v3 * 256 + byte_at p 4 in
    let v5 : ℕ = v4 * 256 + byte_at p 3 in
    let v6 : ℕ = v5 * 256 + byte_at p 2 in
    let v7 : ℕ = v6 * 256 + byte_at p 1 in
    let v8 : ℕ = v7 * 256 + byte_at p 0 in
    loop_round 7 0 p (omega (arith)) (h 7)
    ∙ loop_round 6 v1 p (omega (arith, h 7)) (h 6)
    ∙ loop_round 5 v2 p (omega (arith, h 7, h 6)) (h 5)
    ∙ loop_round 4 v3 p (omega (arith, h 7, h 6, h 5)) (h 4)
    ∙ loop_round 3 v4 p (omega (arith, h 7, h 6, h 5, h 4)) (h 3)
    ∙ loop_round 2 v5 p (omega (arith, h 7, h 6, h 5, h 4, h 3)) (h 2)
    ∙ loop_round 1 v6 p (omega (arith, h 7, h 6, h 5, h 4, h 3, h 2)) (h 1)
    ∙ loop_round 0 v7 p (omega (arith, h 7, h 6, h 5, h 4, h 3, h 2, h 1)) (h 0)
    ∙ (unfold get_loop in refl)

pub put_u32_bytes : (v : ℕ) → AllLt 256 (put_u32 v)
unfolding put_u32
put_u32_bytes v = omega arith

pub put_u64_bytes : (v : ℕ) → AllLt 256 (put_u64 v)
unfolding put_u64 put_loop
put_u64_bytes v = omega arith

pub get_u32-put_u32 :
    (v : ℕ) (rest : List ℕ) → v < 2 ^ 32 → AllLt 256 rest → get_u32 (put_u32 v ++ rest) ≡ v
unfolding put_u32
get_u32-put_u32 v rest h k =
    get_u32_sum (put_u32 v ++ rest) (AllLt-append 256 (put_u32 v) rest (put_u32_bytes v) k)
    ∙ omega arith

-- GetU64 reads back every number below 2 ^ 64 that PutU64 wrote, whatever bytes follow.
pub get_u64-put_u64 :
    (v : ℕ) (rest : List ℕ) → v < 2 ^ 64 → AllLt 256 rest → get_u64 (put_u64 v ++ rest) ≡ v
unfolding put_u64 put_loop
get_u64-put_u64 v rest h k =
    get_u64-horner (put_u64 v ++ rest) (AllLt-append 256 (put_u64 v) rest (put_u64_bytes v) k)
    ∙ omega arith

pub length-put_u32 : (v : ℕ) → length (put_u32 v) ≡ 4
unfolding put_u32
length-put_u32 v = refl

pub length-put_u64 : (v : ℕ) → length (put_u64 v) ≡ 8
unfolding put_u64 put_loop
length-put_u64 v = refl

-- The other way round: the writer gives back the bytes that were read.
pub put_u32-get_u32 :
    (a b c d : ℕ) (rest : List ℕ)
    → AllLt 256 (a ∷ b ∷ c ∷ d ∷ rest)
    → put_u32 (get_u32 (a ∷ b ∷ c ∷ d ∷ rest)) ≡ a ∷ b ∷ c ∷ d ∷ []
unfolding put_u32
put_u32-get_u32 a b c d rest h = rw (get_u32_sum (a ∷ b ∷ c ∷ d ∷ rest) h) (ground arith)

pub get_u64-lt : (p : List ℕ) → AllLt 256 p → get_u64 p < 2 ^ 64
get_u64-lt p h = omega (
  arith,
  get_u64-horner p h,
  AllLt-byte_at p 0 h,
  AllLt-byte_at p 1 h,
  AllLt-byte_at p 2 h,
  AllLt-byte_at p 3 h,
  AllLt-byte_at p 4 h,
  AllLt-byte_at p 5 h,
  AllLt-byte_at p 6 h,
  AllLt-byte_at p 7 h,
)

pub get_u32-lt : (p : List ℕ) → AllLt 256 p → get_u32 p < 2 ^ 32
get_u32-lt p h = omega (
  arith,
  get_u32_sum p h,
  AllLt-byte_at p 0 h,
  AllLt-byte_at p 1 h,
  AllLt-byte_at p 2 h,
  AllLt-byte_at p 3 h,
)

pub put_u64-get_u64 :
    (a b c d e f g i : ℕ) (rest : List ℕ)
    → AllLt 256 (a ∷ b ∷ c ∷ d ∷ e ∷ f ∷ g ∷ i ∷ rest)
    → put_u64 (get_u64 (a ∷ b ∷ c ∷ d ∷ e ∷ f ∷ g ∷ i ∷ rest)) ≡ a ∷ b ∷ c ∷ d ∷ e ∷ f ∷ g ∷ i ∷ []
unfolding put_u64 put_loop
put_u64-get_u64 a b c d e f g i rest h =
    rw (get_u64-horner (a ∷ b ∷ c ∷ d ∷ e ∷ f ∷ g ∷ i ∷ rest) h) (ground arith)

-- Of eight or more bytes, PutU64 writes the first eight again from the number that GetU64 reads
-- in them.
pub put_u64-get_u64-take :
    (p : List ℕ) → AllLt 256 p → 8 ≤ length p → put_u64 (get_u64 p) ≡ take 8 p
put_u64-get_u64-take ([]) h n = absurd (omega arith)
put_u64-get_u64-take (a ∷ []) h n = absurd (omega arith)
put_u64-get_u64-take (a ∷ b ∷ []) h n = absurd (omega arith)
put_u64-get_u64-take (a ∷ b ∷ c ∷ []) h n = absurd (omega arith)
put_u64-get_u64-take (a ∷ b ∷ c ∷ d ∷ []) h n = absurd (omega arith)
put_u64-get_u64-take (a ∷ b ∷ c ∷ d ∷ e ∷ []) h n = absurd (omega arith)
put_u64-get_u64-take (a ∷ b ∷ c ∷ d ∷ e ∷ f ∷ []) h n = absurd (omega arith)
put_u64-get_u64-take (a ∷ b ∷ c ∷ d ∷ e ∷ f ∷ g ∷ []) h n = absurd (omega arith)
put_u64-get_u64-take (a ∷ b ∷ c ∷ d ∷ e ∷ f ∷ g ∷ i ∷ rest) h n =
    put_u64-get_u64 a b c d e f g i rest h

pub put_u32-get_u32-take :
    (p : List ℕ) → AllLt 256 p → 4 ≤ length p → put_u32 (get_u32 p) ≡ take 4 p
put_u32-get_u32-take ([]) h n = absurd (omega arith)
put_u32-get_u32-take (a ∷ []) h n = absurd (omega arith)
put_u32-get_u32-take (a ∷ b ∷ []) h n = absurd (omega arith)
put_u32-get_u32-take (a ∷ b ∷ c ∷ []) h n = absurd (omega arith)
put_u32-get_u32-take (a ∷ b ∷ c ∷ d ∷ rest) h n = put_u32-get_u32 a b c d rest h
