-- ===== src/Kill/Replayed.antt =====
-- What a clean replay of the first transfers of a stream gives, and their keys.
use iron_ledger.Common.{
  ℕ, ◌+◌, ◌≡◌, refl, sym, ◌∙◌, ap, ap₂, subst, true, List, [], ◌∷◌, ◌++◌, length, take, arith,
  take-append,
}
use iron_ledger.Common.Int.{ℤ, pos, negsuc}
use iron_ledger.Ledger.Transfer.{Transfer}
use iron_ledger.Ledger.Book.{Balances, empty_book}
use iron_ledger.Ledger.Submit.{Ledger, submit}
use iron_ledger.Ledger.Submit.Booked.{submit-book}
use iron_ledger.Ledger.Submit.Log.{replay, AllValid}
use iron_ledger.Ledger.Submit.Reopen.{fresh-IsLogged, keys_of, length-keys_of, replay-applied_keys}
use iron_ledger.Workload.{WorkloadOptions}
use iron_ledger.Workload.Payment.{AreIssued}
use iron_ledger.CrashSim.{
  open_fresh, submit_all, replay_options, clean_replay, same_amount, same_balances, dense_from,
}

pub submit_all-book :
    (ts : List Transfer) (l : Ledger)
    → AllValid ts l.book
    → (submit_all ts l).book ≡ replay ts l.book
unfolding submit_all
submit_all-book [] l h = refl
submit_all-book (t ∷ ts) l h =
    let next = submit-book t l h.1 in
    submit_all-book ts (submit t l).0 (subst (AllValid ts) (sym next) h.2) ∙ ap (replay ts) next

-- A clean replay of transfers that are accepted one after the other.
clean_replay_lem :
    (ts : List Transfer)
    → AllValid ts empty_book
    → clean_replay ts ≡ (replay ts empty_book).balances
unfolding clean_replay
clean_replay_lem ts h =
    let e = (fresh-IsLogged replay_options).current in
    ap (λ b. b.balances)
      (submit_all-book ts (open_fresh replay_options) (subst (AllValid ts) (sym e) h)
        ∙ ap (replay ts) e)

same_amount_refl : (a : ℤ) → same_amount a a ≡ true
unfolding same_amount
same_amount_refl (pos n) = ground arith
same_amount_refl (negsuc n) = ground arith

same_balances_refl : (m : Balances) → same_balances m m ≡ true
unfolding same_balances
same_balances_refl [] = refl
same_balances_refl ((k, v) ∷ m) = ground (arith, same_amount_refl v, same_balances_refl m)

issued_dense :
    (o : WorkloadOptions) (from : ℕ) (us rest : List Transfer)
    → AreIssued o from (us ++ rest)
    → dense_from from (keys_of us) ≡ true
unfolding dense_from
issued_dense o from [] rest h = refl
issued_dense o from (t ∷ us) rest h =
    ground (arith, h.0.same_key, issued_dense o (from + 1) us rest h.1)

pub applied_dense :
    (o : WorkloadOptions) (us rest ts : List Transfer)
    → ts ≡ us ++ rest
    → AreIssued o 0 ts
    → dense_from 0 (replay us empty_book).applied_keys ≡ true
applied_dense o us rest ts e h =
    ap (dense_from 0) (replay-applied_keys us empty_book)
    ∙ issued_dense o 0 us rest (subst (AreIssued o 0) e h)

first_applied :
    (us rest ts : List Transfer)
    → ts ≡ us ++ rest
    → take (length (replay us empty_book).applied_keys) ts ≡ us
first_applied us rest ts e =
    ap₂ (λ (n : ℕ) (xs : List Transfer). take n xs)
      (ap length (replay-applied_keys us empty_book) ∙ length-keys_of us) e
    ∙ take-append us rest

pub state_equal :
    (us rest ts : List Transfer)
    → ts ≡ us ++ rest
    → AllValid us empty_book
    → same_balances
        (replay us empty_book).balances
        (clean_replay (take (length (replay us empty_book).applied_keys) ts))
      ≡ true
state_equal us rest ts e valid =
    ap (same_balances (replay us empty_book).balances)
      (ap clean_replay (first_applied us rest ts e) ∙ clean_replay_lem us valid)
    ∙ same_balances_refl (replay us empty_book).balances
