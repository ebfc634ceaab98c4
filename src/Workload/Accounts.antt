-- ===== src/Workload/Accounts.antt =====
-- `PickAccounts`: the accounts are distinct and real, and it returns unless the engine repeats
-- itself for ever.
use native.Mathlib.Nat.{mod-lt}
use iron_ledger.Common.{
  ℕ, zero, suc, ◌+◌, ◌%◌, ◌≤◌, ◌<◌, ◌≡◌, inl, inr, refl, sym, ◌∙◌, subst, true, false, Bool-cases,
  some, List, [], ◌∷◌, ◌++◌, ltb, leb, length, arith,
}
use iron_ledger.Device.{contains}
use iron_ledger.Workload.{WorkloadOptions, pick_accounts}
use iron_ledger.Workload.Legs.{AreReal, AreDistinct, AreReal-snoc, AreDistinct-snoc, length-snoc}

-- The engine does not draw the same few accounts for ever: while some account is not among those
-- that are chosen, only finitely many draws in a row, `repeats`, give one that is.
pub record IsVaried {S : Type 0} (rng : S → ℕ × S) (accounts : ℕ) : Type 0 where
  pub repeats : List ℕ → S → ℕ
  pub falls :
      (out : List ℕ) (s : S)
      → length out < accounts
      → contains (1 + (rng s).0 % accounts) out ≡ true
      → repeats out (rng s).1 < repeats out s

module _ {S : Type 0} (rng : S → ℕ × S) (o : WorkloadOptions) where
  drawn : S → ℕ
  drawn s = 1 + (rng s).0 % o.accounts

  module _ (fuel n : ℕ) (out : List ℕ) (s : S) where
    pick_done : ltb (length out) n ≡ false → pick_accounts rng o (suc fuel) n out s ≡ some (out, s)
    unfolding pick_accounts
    pick_done e = rw (e, pick_accounts) refl

    pick_again :
        ltb (length out) n ≡ true
        → contains (drawn s) out ≡ true
        → pick_accounts rng o (suc fuel) n out s ≡ pick_accounts rng o fuel n out (rng s).1
    unfolding pick_accounts drawn
    pick_again e f = ground arith

    pick_new :
        ltb (length out) n ≡ true
        → contains (drawn s) out ≡ false
        → pick_accounts rng o (suc fuel) n out s
          ≡ pick_accounts rng o fuel n (out ++ drawn s ∷ []) (rng s).1
    unfolding pick_accounts drawn
    pick_new e f = ground arith

  -- A round more changes nothing once the loop has returned.
  pub pick_more :
      (fuel n : ℕ) (out : List ℕ) (s : S) (r : List ℕ × S)
      → pick_accounts rng o fuel n out s ≡ some r
      → pick_accounts rng o (suc fuel) n out s ≡ some r
  pick_more zero n out s r h = unfold pick_accounts in cc
  pick_more (suc fuel) n out s r h = elim (Bool-cases (ltb (length out) n)) [
    | inr e ↦ pick_done (suc fuel) n out s e ∙ sym (pick_done fuel n out s e) ∙ h
    | inl e ↦ elim (Bool-cases (contains (drawn s) out)) [
      | inl f ↦
          pick_again (suc fuel) n out s e f
          ∙ pick_more fuel n out (rng s).1 r (sym (pick_again fuel n out s e f) ∙ h)
      | inr f ↦
          pick_new (suc fuel) n out s e f
          ∙ pick_more fuel n (out ++ drawn s ∷ []) (rng s).1 r (sym (pick_new fuel n out s e f) ∙ h)
    ]
  ]

  pub pick_from :
      (fuel g n : ℕ) (out : List ℕ) (s : S) (r : List ℕ × S)
      → fuel ≤ g
      → pick_accounts rng o fuel n out s ≡ some r
      → pick_accounts rng o g n out s ≡ some r
  pick_from zero zero n out s r h e = e
  pick_from (suc fuel) zero n out s r h e = absurd (omega arith)
  pick_from fuel (suc g) n out s r h e = elim (Bool-cases (leb fuel g)) [
    | inl le ↦ pick_more g n out s r (pick_from fuel g n out s r (ground arith) e)
    | inr last ↦
        let same : fuel ≡ suc g = ground arith in
        subst (λ (f : ℕ). pick_accounts rng o f n out s ≡ some r) same e
  ]

  -- What the accounts that are chosen are.
  abbrev pub AreChosen : ℕ → List ℕ → Type 0
  AreChosen n out = AreReal o.accounts out × AreDistinct out × (length out ≡ n)

  -- With `k` accounts to go, and at most `r` repeats before the next one, the loop returns accounts
  -- that are real, distinct and as many as were asked for.
  pick_ends :
      (varied : IsVaried rng o.accounts) (k r n : ℕ) (out : List ℕ) (s : S)
      → n ≤ o.accounts
      → 1 ≤ o.accounts
      → length out + k ≡ n
      → varied.repeats out s < r
      → AreReal o.accounts out
      → AreDistinct out
      → (fuel : ℕ) × (res : List ℕ × S) × (pick_accounts rng o fuel n out s ≡ some res)
        × AreChosen n res.0
  unfolding drawn
  pick_ends varied zero r n out s le one sum low real distinct =
      (1, (out, s), pick_done 0 n out s (ground arith), (real, distinct, omega arith))
  pick_ends varied (suc k) zero n out s le one sum low real distinct = absurd (omega arith)
  pick_ends varied (suc k) (suc r) n out s le one sum low real distinct =
      let room : ltb (length out) n ≡ true = ground arith in
      elim (Bool-cases (contains (drawn s) out)) [
        | inl f ↦
            let fewer = varied.falls out s (omega arith) f in
            let (fuel, res, e, chosen) =
              pick_ends varied (suc k) r n out (rng s).1 le one sum (omega arith) real distinct in
            (suc fuel, res, pick_again fuel n out s room f ∙ e, chosen)
        | inr f ↦
            let more : List ℕ = out ++ drawn s ∷ [] in
            let small : (rng s).0 % o.accounts < o.accounts = mod-lt (rng s).0 one in
            let (fuel, res, e, chosen) =
              pick_ends varied k (suc (varied.repeats more (rng s).1)) n more (rng s).1 le one
                (omega (arith, length-snoc (drawn s) out)) (omega arith)
                (AreReal-snoc o.accounts (drawn s) out real (omega arith) (omega arith))
                (AreDistinct-snoc (drawn s) out distinct f) in
            (suc fuel, res, pick_new fuel n out s room f ∙ e, chosen)
      ]

  -- `PickAccounts` returns distinct real accounts, as many as it is asked for.
  pub pick_accounts-AreChosen :
      (varied : IsVaried rng o.accounts) (n : ℕ) (s : S)
      → 1 ≤ o.accounts
      → n ≤ o.accounts
      → (fuel : ℕ) × (res : List ℕ × S) × (pick_accounts rng o fuel n [] s ≡ some res)
        × AreChosen n res.0
  pick_accounts-AreChosen varied n s one le =
      pick_ends varied n (suc (varied.repeats [] s)) n [] s le one (omega arith) (omega arith) tt tt
