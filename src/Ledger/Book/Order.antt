-- ===== src/Ledger/Book/Order.antt =====
-- The order in which `Validate` walks the std::unordered_map of the net amounts.
use mathlib.Core.List.{Permᴰ}
use iron_ledger.Common.{
  ℕ, ◌≡◌, refl, sym, ◌∙◌, ap, ap₂, Bool, true, false, not, ◌&&◌, Option, none, some, ◌∷◌, ◌==◌,
  if◌then◌else◌, arith, Bool-cases, inl, inr,
}
use iron_ledger.Common.Int.{ℤ, is_negative, add_overflow}
use iron_ledger.Ledger.Modes.{SubmitStatus, ok, unbalanced, insufficient_funds}
use iron_ledger.Ledger.Book.{Balances, balance, world_account, check_deltas}

-- Whether a verdict is that the transfer is accepted.
abbrev pub accepts : SubmitStatus → Bool
accepts ok = true
accepts _ = false

-- Whether a balance may be what is left.
may_be_left : Option ℤ → Bool
may_be_left none = false
may_be_left (some after) = not (is_negative after)

-- Whether one net amount passes.
passes : Balances → ℕ × ℤ → Bool
passes balances (account, d) =
    if account == world_account
    then true
    else may_be_left (add_overflow (balance account balances) d)

after_sum :
    (balances rest : Balances) (sum : Option ℤ)
    → accepts (elim sum [
      | none ↦ unbalanced
      | some after ↦ if is_negative after then insufficient_funds else check_deltas balances rest
    ])
      ≡ may_be_left sum && accepts (check_deltas balances rest)
unfolding may_be_left
after_sum balances rest none = refl
after_sum balances rest (some after) = ground arith

check_deltas-cons :
    (balances rest : Balances) (entry : ℕ × ℤ)
    → accepts (check_deltas balances (entry ∷ rest))
      ≡ passes balances entry && accepts (check_deltas balances rest)
unfolding check_deltas passes
check_deltas-cons balances rest (account, d) = elim (Bool-cases (account == world_account)) [
  | inl e ↦ rw e refl
  | inr e ↦ rw e (after_sum balances rest (add_overflow (balance account balances) d))
]

&&_swap : (a b c : Bool) → a && (b && c) ≡ b && (a && c)
&&_swap true b c = refl
&&_swap false true c = refl
&&_swap false false c = refl

-- Whatever order the net amounts of a transfer are walked in, the third loop of Validate accepts
-- them in all orders or in none.
pub check_deltas-Perm :
    (balances : Balances) {m n : Balances}
    → Permᴰ m n
    → accepts (check_deltas balances m) ≡ accepts (check_deltas balances n)
check_deltas-Perm balances Permᴰ.nil = refl
check_deltas-Perm balances (Permᴰ.cons {a} {b} {l₁} {l₂} e p) =
    check_deltas-cons balances l₁ a
    ∙ ap₂ (λ (x : ℕ × ℤ) (y : Bool). passes balances x && y) e (check_deltas-Perm balances p)
    ∙ sym (check_deltas-cons balances l₂ b)
check_deltas-Perm balances (Permᴰ.swap {a} {b} {a'} {b'} {l} e f) =
    check_deltas-cons balances (b ∷ l) a
    ∙ ap (λ (y : Bool). passes balances a && y) (check_deltas-cons balances l b)
    ∙ &&_swap (passes balances a) (passes balances b) (accepts (check_deltas balances l))
    ∙ ap₂
        (λ (x y : ℕ × ℤ).
          passes balances x && (passes balances y && accepts (check_deltas balances l)))
        f e
    ∙ sym (
        check_deltas-cons balances (b' ∷ l) a'
        ∙ ap (λ (y : Bool). passes balances a' && y) (check_deltas-cons balances l b'))
check_deltas-Perm balances (Permᴰ.trans p q) =
    check_deltas-Perm balances p ∙ check_deltas-Perm balances q
