-- ===== src/Ledger/Book/Complete.antt =====
-- `Validate` the other way round: what it accepts.
use mathlib.Core.Logic.{◌↔◌}
use iron_ledger.Common.{
  ℕ, ◌+◌, ◌^◌, ◌≤◌, ◌<◌, ◌≡◌, ◌≢◌, inl, inr, refl, sym, ◌∙◌, ap, true, false, Option, none, some,
  List, [], ◌∷◌, ◌==◌, arith, Bool-cases,
}
use iron_ledger.Common.Int.{
  ℤ, pos, ◌+ℤ◌, pos_part, neg_part, IsI64, is_negative, add_overflow, add_overflow_fits, int_laws,
}
use iron_ledger.Ledger.Modes.{ok}
use iron_ledger.Ledger.Transfer.{Posting, Transfer}
use iron_ledger.Ledger.Book.{
  Balances, Book, find, balance, world_account, sum_amounts, add_delta, deltas, check_deltas,
  validate_sum, validate,
}
use iron_ledger.Ledger.Book.Deltas.{
  sum, net, IsAcceptable, validate-IsAcceptable, balance_found, net-balance,
}
use iron_ledger.Ledger.Book.Sound.{IsSound}

-- What the legs of a transfer give, and what they take.
abbrev pub gains : List Posting → ℕ
gains [] = 0
gains (p ∷ ps) = pos_part p.amount + gains ps

abbrev pub losses : List Posting → ℕ
losses [] = 0
losses (p ∷ ps) = neg_part p.amount + losses ps

-- No sum over some of the legs overflows.
abbrev pub IsModest : Transfer → Type 0
IsModest t = (gains t.postings < 2 ^ 63) × (losses t.postings ≤ 2 ^ 63)

pub +ℤ_parts_le :
    (a b : ℤ)
    → (pos_part (a +ℤ b) ≤ pos_part a + pos_part b) × (neg_part (a +ℤ b) ≤ neg_part a + neg_part b)
unfolding ◌+ℤ◌
+ℤ_parts_le a b = ground arith

sum_amounts_step :
    (acc : ℤ) (p : Posting) (ps : List Posting) (s : ℤ) {r : Option ℤ}
    → add_overflow acc p.amount ≡ some s
    → sum_amounts s ps ≡ r
    → sum_amounts acc (p ∷ ps) ≡ r
unfolding sum_amounts
sum_amounts_step acc p ps s e h = ground arith

sum_amounts_fits :
    (acc : ℤ) (ps : List Posting)
    → pos_part acc + gains ps < 2 ^ 63
    → neg_part acc + losses ps ≤ 2 ^ 63
    → sum_amounts acc ps ≡ some (acc +ℤ sum ps)
unfolding sum
sum_amounts_fits acc [] g l = unfold sum_amounts in ap some (omega int_laws)
sum_amounts_fits acc (p ∷ ps) g l =
    let parts = +ℤ_parts_le acc p.amount in
    sum_amounts_step acc p ps (acc +ℤ p.amount)
      (add_overflow_fits acc p.amount (omega (arith, parts.0), omega (arith, parts.1)))
      (sum_amounts_fits (acc +ℤ p.amount) ps (omega (arith, parts.0)) (omega (arith, parts.1))
        ∙ ap some (omega int_laws))

-- The keys of a std::unordered_map differ, and here its values are bounded.
abbrev IsKeyed : ℕ → ℕ → Balances → Type 0
IsKeyed g l [] = Unit
IsKeyed g l ((j, v) ∷ m) = (find j m ≡ none) × (pos_part v ≤ g) × (neg_part v ≤ l) × IsKeyed g l m

IsKeyed-mono : (g l g' l' : ℕ) (m : Balances) → g ≤ g' → l ≤ l' → IsKeyed g l m → IsKeyed g' l' m
IsKeyed-mono g l g' l' [] p q h = tt
IsKeyed-mono g l g' l' ((j, v) ∷ m) p q h =
    (h.0, omega arith, omega arith, IsKeyed-mono g l g' l' m p q h.3)

add_delta_here :
    (k j : ℕ) (a v : ℤ) (m : Balances)
    → (j == k) ≡ true
    → IsI64 (v +ℤ a)
    → add_delta k a ((j, v) ∷ m) ≡ some ((j, v +ℤ a) ∷ m)
unfolding add_delta
add_delta_here k j a v m e fits = rw (e, add_overflow_fits v a fits) refl

add_delta_there :
    (k j : ℕ) (a v : ℤ) (m n : Balances)
    → (j == k) ≡ false
    → add_delta k a m ≡ some n
    → add_delta k a ((j, v) ∷ m) ≡ some ((j, v) ∷ n)
unfolding add_delta
add_delta_there k j a v m n e h = rw (e, h) refl

add_delta_new :
    (k : ℕ) (a : ℤ) → IsI64 (pos 0 +ℤ a) → add_delta k a [] ≡ some ((k, pos 0 +ℤ a) ∷ [])
unfolding add_delta
add_delta_new k a fits = rw (add_overflow_fits (pos 0) a fits) refl

-- `delta[account] += amount` does not overflow, and puts in no other account.
add_delta-IsKeyed :
    (g l k : ℕ) (a : ℤ) (m : Balances)
    → IsKeyed g l m
    → g + pos_part a < 2 ^ 63
    → l + neg_part a ≤ 2 ^ 63
    → (m' : Balances) × (add_delta k a m ≡ some m')
      × IsKeyed (g + pos_part a) (l + neg_part a) m'
      × ((i : ℕ) → (k == i) ≡ false → find i m ≡ none → find i m' ≡ none)
unfolding find
add_delta-IsKeyed g l k a [] h p q =
    let parts = +ℤ_parts_le (pos 0) a in
    (
      (k, pos 0 +ℤ a) ∷ [],
      add_delta_new k a (omega (arith, parts.0), omega (arith, parts.1)),
      (refl, omega (arith, parts.0), omega (arith, parts.1), tt),
      λ i e _. ground arith,
    )
add_delta-IsKeyed g l k a ((j, v) ∷ m) h p q = elim (Bool-cases (j == k)) [
  | inl e ↦
      let parts = +ℤ_parts_le v a in
      (
        (j, v +ℤ a) ∷ m,
        add_delta_here k j a v m e (omega (arith, parts.0, h.1), omega (arith, parts.1, h.2)),
        (
          h.0,
          omega (arith, parts.0, h.1),
          omega (arith, parts.1, h.2),
          IsKeyed-mono g l (g + pos_part a) (l + neg_part a) m (omega arith) (omega arith) h.3,
        ),
        λ i f n. ground arith,
      )
  | inr e ↦
      let (n, made, keyed, absent) = add_delta-IsKeyed g l k a m h.3 p q in
      (
        (j, v) ∷ n,
        add_delta_there k j a v m n e made,
        (absent j (ground arith) h.0, omega (arith, h.1), omega (arith, h.2), keyed),
        λ i f none_before. ground (arith, absent i f),
      )
]

deltas_step :
    (p : Posting) (ps : List Posting) (m n m' : Balances)
    → add_delta p.account p.amount m ≡ some n
    → deltas ps n ≡ some m'
    → deltas (p ∷ ps) m ≡ some m'
unfolding deltas
deltas_step p ps m n m' e h = ground arith

deltas-IsKeyed :
    (g l : ℕ) (ps : List Posting) (m : Balances)
    → IsKeyed g l m
    → g + gains ps < 2 ^ 63
    → l + losses ps ≤ 2 ^ 63
    → (m' : Balances) × (deltas ps m ≡ some m') × IsKeyed (g + gains ps) (l + losses ps) m'
deltas-IsKeyed g l [] m h p q =
    (m, (unfold deltas in refl), IsKeyed-mono g l (g + 0) (l + 0) m (omega arith) (omega arith) h)
deltas-IsKeyed g l (x ∷ ps) m h p q =
    let (n, made, keyed, absent) =
      add_delta-IsKeyed g l x.account x.amount m h (omega arith) (omega arith) in
    let (m', rest, whole) =
      deltas-IsKeyed (g + pos_part x.amount) (l + neg_part x.amount) ps n keyed (omega arith)
        (omega arith) in
    (
      m',
      deltas_step x ps m n m' made rest,
      IsKeyed-mono (g + pos_part x.amount + gains ps) (l + neg_part x.amount + losses ps)
          (g + gains (x ∷ ps)) (l + losses (x ∷ ps)) m' (omega arith) (omega arith) whole,
    )

-- What an account may be left with.
abbrev MayBeLeft : ℤ → Type 0
MayBeLeft a = IsI64 a × (is_negative a ≡ false)

check_world :
    (b m : Balances) (j : ℕ) (v : ℤ)
    → (j == world_account) ≡ true
    → check_deltas b m ≡ ok
    → check_deltas b ((j, v) ∷ m) ≡ ok
unfolding check_deltas
check_world b m j v e h = rw e h

check_funded :
    (b m : Balances) (j : ℕ) (v : ℤ)
    → MayBeLeft (balance j b +ℤ v)
    → check_deltas b m ≡ ok
    → check_deltas b ((j, v) ∷ m) ≡ ok
unfolding check_deltas
check_funded b m j v left h = elim (Bool-cases (j == world_account)) [
  | inl e ↦ rw e h
  | inr e ↦ rw (e, add_overflow_fits (balance j b) v left.0, left.1) h
]

check_deltas_complete :
    (g l : ℕ) (b m : Balances)
    → IsKeyed g l m
    → ((k : ℕ) (d : ℤ) → k ≢ world_account → find k m ≡ some d → MayBeLeft (balance k b +ℤ d))
    → check_deltas b m ≡ ok
unfolding find
check_deltas_complete g l b [] h left = unfold check_deltas in refl
check_deltas_complete g l b ((j, v) ∷ m) h left =
    let rest = check_deltas_complete g l b m h.3 (λ k d ne e. elim (Bool-cases (j == k)) [
      | inl same ↦ absurd (ground (arith, h.0))
      | inr other ↦ left k d ne (ground arith)
    ]) in
    elim (Bool-cases (j == world_account)) [
      | inl e ↦ check_world b m j v e rest
      | inr e ↦ check_funded b m j v (left j v (ground arith) (ground arith)) rest
    ]

validate_of :
    (t : Transfer) (b : Book) (m : Balances)
    → IsAcceptable t b
    → sum_amounts (pos 0) t.postings ≡ some (pos 0)
    → deltas t.postings [] ≡ some m
    → check_deltas b.balances m ≡ ok
    → validate t b ≡ ok
unfolding validate validate_sum
validate_of t b m a s d c = ground (arith, a.at_least, a.at_most, a.new_key, s, d, c)

-- What is left of an account on which an acceptable transfer has a net amount.
left_of :
    (t : Transfer) (b : Book) (k : ℕ)
    → IsSound b
    → IsAcceptable t b
    → k ≢ world_account
    → MayBeLeft (balance k b.balances +ℤ net k t.postings)
left_of t b k s a ne = elim (a.funded k ne) [
  | inl same ↦ rw same (s.ranges k, s.funded k ne)
  | inr left ↦ left
]

-- In a sound book, for a transfer whose positive amounts sum to less than 2 ^ 63 and whose
-- negative amounts to no less than - 2 ^ 63: Validate accepts it exactly if it is acceptable,
-- that is, if it has 2 to 8 postings that sum to zero, its key is new, and every account but the
-- world's is either left at its balance by the net amount or ends with a balance that is not
-- negative and fits an int64_t.
pub validate_complete :
    (t : Transfer) (b : Book) → IsSound b → IsModest t → (validate t b ≡ ok) ↔ IsAcceptable t b
validate_complete t b s h = (
  validate-IsAcceptable t b,
  λ a.
      let (m, made, keyed) =
        deltas-IsKeyed 0 0 t.postings [] tt (omega (arith, h.0)) (omega (arith, h.1)) in
      validate_of t b m a
        (sum_amounts_fits (pos 0) t.postings (omega (arith, h.0)) (omega (arith, h.1))
          ∙ ap some (rw a.balanced (omega int_laws)))
        made
        (check_deltas_complete (0 + gains t.postings) (0 + losses t.postings) b.balances m keyed
          (λ k d ne e.
            rw (sym (balance_found k m d e) ∙ net-balance k t m made) (left_of t b k s a ne))),
)
