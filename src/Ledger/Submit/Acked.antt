-- ===== src/Ledger/Submit/Acked.antt =====
-- What a trace acknowledges is in the book of what had been logged by then.
use iron_ledger.Common.{
  ℕ, ◌≡◌, inl, inr, sym, subst, true, Bool-cases, List, [], ◌∷◌, ◌++◌, arith, ◌==◌,
}
use iron_ledger.Device.{contains}
use iron_ledger.Device.World.{Event, acks}
use iron_ledger.Ledger.Transfer.{Transfer}
use iron_ledger.Ledger.Book.{Book, empty_book, apply}
use iron_ledger.Ledger.Submit.Log.{replay}
use iron_ledger.Ledger.Submit.Pieces.{replay-append}
use iron_ledger.Ledger.Submit.Logged.{Told, told_nothing, told_write, told_ack}
use iron_ledger.Ledger.Recovery.Replay.{apply_has_key}

replay_keeps_key :
    (k : ℕ) (ts : List Transfer) (b : Book)
    → contains k b.seen_keys ≡ true
    → contains k (replay ts b).seen_keys ≡ true
replay_keeps_key k [] b h = h
replay_keeps_key k (t ∷ ts) b h = replay_keeps_key k ts (apply t b) ((apply_has_key t b).1 k h)

pub append_keeps_key :
    (k : ℕ) (ts more : List Transfer)
    → contains k (replay ts empty_book).seen_keys ≡ true
    → contains k (replay (ts ++ more) empty_book).seen_keys ≡ true
append_keeps_key k ts more h =
    subst (λ b. contains k b.seen_keys ≡ true) (sym (replay-append ts more empty_book))
      (replay_keeps_key k more (replay ts empty_book) h)

equal_of : (k j : ℕ) → (k == j) ≡ true → k ≡ j
equal_of k j e = ground arith

either_key :
    (k j : ℕ) (ks : List ℕ) (b : Book)
    → contains j b.seen_keys ≡ true
    → (contains k ks ≡ true → contains k b.seen_keys ≡ true)
    → contains k (j ∷ ks) ≡ true
    → contains k b.seen_keys ≡ true
either_key k j ks b h rest q = elim (Bool-cases (k == j)) [
  | inl e ↦ subst (λ i. contains i b.seen_keys ≡ true) (sym (equal_of k j e)) h
  | inr e ↦ rest (ground arith)
]

pub Told-acks :
    {es : List Event} {ts : List Transfer} (k : ℕ)
    → Told es ts
    → contains k (acks es) ≡ true
    → contains k (replay ts empty_book).seen_keys ≡ true
unfolding acks
Told-acks k told_nothing q = cc
Told-acks k (told_write {ts} d more h e) q = append_keeps_key k ts more (Told-acks k h q)
Told-acks k (told_ack {es} {ts} j d h e) q =
    either_key k j (acks es) (replay ts empty_book) e (Told-acks k h) q
