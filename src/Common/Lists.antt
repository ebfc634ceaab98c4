-- ===== src/Common/Lists.antt =====
-- Lists measured and indexed by the native numbers. A `std::vector<uint8_t>` is a list of
-- numbers, and `byte_at` reads it with 0 beyond the end.
use Prim.Native.Nat.{ℕ, zero, suc, ◌+◌, ◌-◌, ◌≤◌, ◌<◌, min}
use Prim.Native.Nat.add
use mathlib.Core.Path.{◌≡◌, refl, ap, ap₂}
use mathlib.Core.List.{List, [], ◌∷◌, ◌++◌}
use native.Mathlib.Omega.{arith}
use iron_ledger.Common.Tests.{ltb, if◌then◌else◌}

module _ {ℓ} {A : Type ℓ} where
  abbrev pub length : List A → ℕ
  length [] = 0
  length (x ∷ xs) = suc (length xs)

  abbrev pub get_or : List A → ℕ → A → A
  get_or [] i d = d
  get_or (x ∷ xs) zero d = x
  get_or (x ∷ xs) (suc i) d = get_or xs i d

  abbrev pub take : ℕ → List A → List A
  take zero xs = []
  take (suc n) [] = []
  take (suc n) (x ∷ xs) = x ∷ take n xs

  abbrev pub drop : ℕ → List A → List A
  drop zero xs = xs
  drop (suc n) [] = []
  drop (suc n) (x ∷ xs) = drop n xs

  abbrev pub replicate : ℕ → A → List A
  replicate zero a = []
  replicate (suc n) a = a ∷ replicate n a

  pub length-append : (xs ys : List A) → length (xs ++ ys) ≡ length xs + length ys
  length-append [] ys = omega arith
  length-append (x ∷ xs) ys = omega (arith, length-append xs ys)

  pub length-take : (n : ℕ) (xs : List A) → length (take n xs) ≡ min n (length xs)
  length-take zero xs = omega arith
  length-take (suc n) [] = omega arith
  length-take (suc n) (x ∷ xs) = omega (arith, length-take n xs)

  pub length-drop : (n : ℕ) (xs : List A) → length (drop n xs) ≡ length xs - n
  length-drop zero xs = omega arith
  length-drop (suc n) [] = omega arith
  length-drop (suc n) (x ∷ xs) = omega (arith, length-drop n xs)

  pub length-replicate : (n : ℕ) (a : A) → length (replicate n a) ≡ n
  length-replicate zero a = refl
  length-replicate (suc n) a = ap suc (length-replicate n a)

  pub take_all : (n : ℕ) (xs : List A) → length xs ≤ n → take n xs ≡ xs
  take_all zero [] h = refl
  take_all zero (x ∷ xs) h = absurd (omega arith)
  take_all (suc n) [] h = refl
  take_all (suc n) (x ∷ xs) h = ap (◌∷◌ x) (take_all n xs (omega arith))

  pub take-append-drop : (n : ℕ) (xs : List A) → take n xs ++ drop n xs ≡ xs
  take-append-drop zero xs = refl
  take-append-drop (suc n) [] = refl
  take-append-drop (suc n) (x ∷ xs) = ap (◌∷◌ x) (take-append-drop n xs)

  pub drop-drop : (n m : ℕ) (xs : List A) → drop n (drop m xs) ≡ drop (m + n) xs
  drop-drop n zero xs = let e : 0 + n ≡ n = omega arith in rw e
  drop-drop zero (suc m) [] = rw (add.suc m 0)
  drop-drop (suc n) (suc m) [] = rw (add.suc m (suc n))
  drop-drop n (suc m) (x ∷ xs) = rw (add.suc m n) (drop-drop n m xs)

  pub take-append : (xs ys : List A) → take (length xs) (xs ++ ys) ≡ xs
  take-append [] ys = refl
  take-append (x ∷ xs) ys = ap (◌∷◌ x) (take-append xs ys)

  pub drop-append : (xs ys : List A) → drop (length xs) (xs ++ ys) ≡ ys
  drop-append [] ys = refl
  drop-append (x ∷ xs) ys = drop-append xs ys

-- Every element is below the bound: for the bound 256, a list of bytes.
abbrev pub AllLt : ℕ → List ℕ → Type 0
AllLt n [] = Unit
AllLt n (x ∷ xs) = (x < n) × AllLt n xs

pub AllLt-append : (n : ℕ) (xs ys : List ℕ) → AllLt n xs → AllLt n ys → AllLt n (xs ++ ys)
AllLt-append n [] ys p q = q
AllLt-append n (x ∷ xs) ys p q = (p.0, AllLt-append n xs ys p.1 q)

abbrev pub byte_at : List ℕ → ℕ → ℕ
byte_at xs i = get_or xs i 0

pub AllLt-drop : (n m : ℕ) (xs : List ℕ) → AllLt n xs → AllLt n (drop m xs)
AllLt-drop n zero xs h = h
AllLt-drop n (suc m) [] h = h
AllLt-drop n (suc m) (x ∷ xs) h = AllLt-drop n m xs h.1

pub AllLt-byte_at : (xs : List ℕ) (i : ℕ) → AllLt 256 xs → byte_at xs i < 256
AllLt-byte_at [] i h = omega arith
AllLt-byte_at (x ∷ xs) zero h = h.0
AllLt-byte_at (x ∷ xs) (suc i) h = AllLt-byte_at xs i h.1

pub byte_at_end : (xs : List ℕ) (i : ℕ) → length xs ≤ i → byte_at xs i ≡ 0
byte_at_end [] i h = refl
byte_at_end (x ∷ xs) zero h = absurd (omega arith)
byte_at_end (x ∷ xs) (suc i) h = byte_at_end xs i (omega arith)

pub byte_at-append :
    (xs ys : List ℕ) (i : ℕ)
    → byte_at (xs ++ ys) i
      ≡ (if ltb i (length xs) then byte_at xs i else byte_at ys (i - length xs))
byte_at-append [] ys i = let e : i - 0 ≡ i = omega arith in rw e (ground arith)
byte_at-append (x ∷ xs) ys zero = ground arith
byte_at-append (x ∷ xs) ys (suc i) = ground (arith, byte_at-append xs ys i)

pub byte_at-append_right :
    (xs ys : List ℕ) (i : ℕ) → byte_at (xs ++ ys) (length xs + i) ≡ byte_at ys i
byte_at-append_right [] ys i = let e : 0 + i ≡ i = omega arith in rw e
byte_at-append_right (x ∷ xs) ys i = rw (add.suc (length xs) i) (byte_at-append_right xs ys i)

pub byte_at-take :
    (n : ℕ) (xs : List ℕ) (i : ℕ) → byte_at (take n xs) i ≡ (if ltb i n then byte_at xs i else 0)
byte_at-take zero xs i = ground arith
byte_at-take (suc n) [] i = ground arith
byte_at-take (suc n) (x ∷ xs) zero = ground arith
byte_at-take (suc n) (x ∷ xs) (suc i) = ground (arith, byte_at-take n xs i)

pub byte_at-drop : (n : ℕ) (xs : List ℕ) (i : ℕ) → byte_at (drop n xs) i ≡ byte_at xs (n + i)
byte_at-drop zero xs i = let e : 0 + i ≡ i = omega arith in rw e
byte_at-drop (suc n) [] i = refl
byte_at-drop (suc n) (x ∷ xs) i = rw (add.suc n i) (byte_at-drop n xs i)

pub byte_at-replicate : (n i : ℕ) → byte_at (replicate n 0) i ≡ 0
byte_at-replicate zero i = refl
byte_at-replicate (suc n) zero = refl
byte_at-replicate (suc n) (suc i) = byte_at-replicate n i

-- Two byte strings of one length that agree at every index are equal.
pub byte_at_ext :
    (xs ys : List ℕ)
    → length xs ≡ length ys
    → ((i : ℕ) → i < length xs → byte_at xs i ≡ byte_at ys i)
    → xs ≡ ys
byte_at_ext [] [] e h = refl
byte_at_ext [] (y ∷ ys) e h = absurd (omega arith)
byte_at_ext (x ∷ xs) [] e h = absurd (omega arith)
byte_at_ext (x ∷ xs) (y ∷ ys) e h =
    ap₂ ◌∷◌ (h 0 (omega arith)) (byte_at_ext xs ys (omega arith) (λ i p. h (suc i) (omega arith)))
