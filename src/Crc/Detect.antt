-- ===== src/Crc/Detect.antt =====
-- One damaged byte always changes the checksum, since each round of the loop is injective in the
-- running value and in the byte.
use iron_ledger.Common.{
  ℕ, zero, suc, ◌+◌, ◌*◌, ◌/◌, ◌%◌, ◌^◌, ◌<◌, ◌≡◌, ◌≢◌, refl, sym, ◌∙◌, ap, Bool, true, false, List,
  [], ◌∷◌, ◌++◌, arith, ◌==◌, ◌&&◌, not, ◌||◌, get_or, length, AllLt,
}
use iron_ledger.Bits.{bit_xor, bit_and_byte}
use iron_ledger.Bits.Xor.{bit_xor_cancel, bit_xor_cancel_right, bit_xor_high, bit_xor-lt}
use iron_ledger.Crc.{table, entry, crc_step, crc_loop, complement, crc32c}
use iron_ledger.Crc.Bounds.{crc_step-lt, crc_loop-lt}
use iron_ledger.Crc.Compose.{crc_loop-append}

abbrev top : ℕ → ℕ
top x = x / 2 ^ 24

occurs : ℕ → List ℕ → Bool
occurs t [] = false
occurs t (x ∷ xs) = t == top x || occurs t xs

distinct_tops : List ℕ → Bool
distinct_tops [] = true
distinct_tops (x ∷ xs) = not (occurs (top x) xs) && distinct_tops xs

table_tops : (distinct_tops table ≡ true) × (length table ≡ 256)
unfolding distinct_tops occurs table
table_tops = (refl, refl)

occurs-get_or :
    (t i : ℕ) (xs : List ℕ) → i < length xs → t ≡ top (get_or xs i 0) → occurs t xs ≡ true
unfolding occurs
occurs-get_or t i [] h e = absurd (omega arith)
occurs-get_or t zero (x ∷ xs) h e = ground arith
occurs-get_or t (suc i) (x ∷ xs) h e = ground (arith, occurs-get_or t i xs)

tops_injective :
    (i j : ℕ) (xs : List ℕ)
    → distinct_tops xs ≡ true
    → i < length xs
    → j < length xs
    → top (get_or xs i 0) ≡ top (get_or xs j 0)
    → i ≡ j
unfolding distinct_tops
tops_injective i j [] d p q e = absurd (omega arith)
tops_injective zero zero (x ∷ xs) d p q e = refl
tops_injective zero (suc j) (x ∷ xs) d p q e = ground (arith, occurs-get_or (top x) j xs)
tops_injective (suc i) zero (x ∷ xs) d p q e = ground (arith, occurs-get_or (top x) i xs)
tops_injective (suc i) (suc j) (x ∷ xs) d p q e = ground (arith, tops_injective i j xs)

-- The top byte of an entry of the table tells which entry it is.
entry_injective : (i j : ℕ) → i < 256 → j < 256 → top (entry i) ≡ top (entry j) → i ≡ j
unfolding entry
entry_injective i j p q e =
    tops_injective i j table table_tops.0 (rw table_tops.1 p) (rw table_tops.1 q) e

-- Entry and shifted value do not meet in the top byte.
top-bit_xor : (e c : ℕ) → c < 2 ^ 24 → top (bit_xor e c) ≡ top e
top-bit_xor e c q =
    let split : e ≡ e / 2 ^ 24 * 2 ^ 24 + e % 2 ^ 24 = omega arith in
    omega (
      arith,
      ap (λ (x : ℕ). bit_xor x c) split,
      bit_xor_high 24 (e / 2 ^ 24) (e % 2 ^ 24) c (omega arith) q,
      bit_xor-lt 24 (e % 2 ^ 24) c (omega arith) q,
    )

-- The index that a round reads.
abbrev index : ℕ → ℕ → ℕ
index c b = bit_xor c b % 256

index-low : (c b : ℕ) → b < 256 → index c b ≡ bit_xor (c % 256) b
index-low c b h =
    let split : c ≡ c / 256 * 2 ^ 8 + c % 256 = omega arith in
    omega (
      arith,
      ap (λ (x : ℕ). bit_xor x b) split,
      bit_xor_high 8 (c / 256) (c % 256) b (omega arith) h,
      bit_xor-lt 8 (c % 256) b (omega arith) h,
    )

step_at : (c b : ℕ) → crc_step c b ≡ bit_xor (entry (index c b)) (c / 256)
unfolding crc_step
step_at c b = rw bit_and_byte

same_index :
    (c d a b : ℕ) → c < 2 ^ 32 → d < 2 ^ 32 → crc_step c a ≡ crc_step d b → index c a ≡ index d b
same_index c d a b p q e = entry_injective (index c a) (index d b) (omega arith) (omega arith) (
    sym (top-bit_xor (entry (index c a)) (c / 256) (omega arith))
    ∙ ap (λ (x : ℕ). x / 2 ^ 24) (sym (step_at c a) ∙ e ∙ step_at d b)
    ∙ top-bit_xor (entry (index d b)) (d / 256) (omega arith))

same_high :
    (c d a b : ℕ) → c < 2 ^ 32 → d < 2 ^ 32 → crc_step c a ≡ crc_step d b → c / 256 ≡ d / 256
same_high c d a b p q e =
    bit_xor_cancel (entry (index d b)) (c / 256) (d / 256)
      (rw (← same_index c d a b p q e) (sym (step_at c a)) ∙ e ∙ step_at d b)

-- A round is injective in the running value.
crc_step_injective :
    (c d b : ℕ) → c < 2 ^ 32 → d < 2 ^ 32 → b < 256 → crc_step c b ≡ crc_step d b → c ≡ d
crc_step_injective c d b p q h e = omega (
  arith,
  same_high c d b b p q e,
  bit_xor_cancel_right (c % 256) (d % 256) b
      (sym (index-low c b h) ∙ same_index c d b b p q e ∙ index-low d b h),
)

-- A round is injective in the byte.
crc_step_injective_byte :
    (c a b : ℕ) → c < 2 ^ 32 → a < 256 → b < 256 → crc_step c a ≡ crc_step c b → a ≡ b
crc_step_injective_byte c a b p h k e =
    bit_xor_cancel (c % 256) a b
      (sym (index-low c a h) ∙ same_index c c a b p p e ∙ index-low c b k)

crc_loop_injective :
    (c d : ℕ) (bs : List ℕ)
    → c < 2 ^ 32
    → d < 2 ^ 32
    → AllLt 256 bs
    → crc_loop c bs ≡ crc_loop d bs
    → c ≡ d
unfolding crc_loop
crc_loop_injective c d [] p q h e = e
crc_loop_injective c d (b ∷ bs) p q h e = crc_step_injective c d b p q h.0 (
    crc_loop_injective (crc_step c b) (crc_step d b) bs (crc_step-lt c b p) (crc_step-lt d b q) h.1
      e)

crc32c_loops :
    (xs ys : List ℕ) (prev : ℕ)
    → crc32c xs prev ≡ crc32c ys prev
    → crc_loop (complement prev) xs ≡ crc_loop (complement prev) ys
unfolding crc32c
crc32c_loops xs ys prev e = omega (
  arith,
  crc_loop-lt (complement prev) xs (omega arith),
  crc_loop-lt (complement prev) ys (omega arith),
)

loop_after :
    (c : ℕ) (pre post : List ℕ) (a : ℕ)
    → crc_loop c (pre ++ a ∷ post) ≡ crc_loop (crc_step (crc_loop c pre) a) post
loop_after c pre post a = crc_loop-append c pre (a ∷ post) ∙ (unfold crc_loop in refl)

same_loop :
    (pre post : List ℕ) (a b prev : ℕ)
    → crc32c (pre ++ a ∷ post) prev ≡ crc32c (pre ++ b ∷ post) prev
    → crc_loop (crc_step (crc_loop (complement prev) pre) a) post
      ≡ crc_loop (crc_step (crc_loop (complement prev) pre) b) post
same_loop pre post a b prev e =
    sym (loop_after (complement prev) pre post a)
    ∙ crc32c_loops (pre ++ a ∷ post) (pre ++ b ∷ post) prev e
    ∙ loop_after (complement prev) pre post b

-- Two buffers of bytes that differ in exactly one byte have different checksums, whatever value
-- both are continued from.
pub crc32c-detects_byte :
    (pre post : List ℕ) (a b prev : ℕ)
    → a < 256
    → b < 256
    → AllLt 256 post
    → a ≢ b
    → crc32c (pre ++ a ∷ post) prev ≢ crc32c (pre ++ b ∷ post) prev
crc32c-detects_byte pre post a b prev h k bytes ne e = ne (
    crc_step_injective_byte c a b fits h k (
      crc_loop_injective (crc_step c a) (crc_step c b) post (crc_step-lt c a fits)
        (crc_step-lt c b fits) bytes same))
  where
    c : ℕ
    c = crc_loop (complement prev) pre

    fits : c < 2 ^ 32
    fits = crc_loop-lt (complement prev) pre (omega arith)

    same : crc_loop (crc_step c a) post ≡ crc_loop (crc_step c b) post
    same = same_loop pre post a b prev e
