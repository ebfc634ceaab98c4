-- ===== src/Kill/Left.antt =====
-- What a SIGKILL of the worker leaves in the file: a beginning of the log of what it had accepted.
use mathlib.Core.List.{append_assoc, append-nil}
use iron_ledger.Common.{
  ℕ, ◌-◌, ◌≡◌, refl, sym, ◌∙◌, ap, subst, true, List, [], ◌∷◌, ◌++◌, length, take, arith,
}
use iron_ledger.Device.{SimDevice, contains}
use iron_ledger.Device.World.{Event, wrote, acked}
use iron_ledger.Ledger.Transfer.{Transfer}
use iron_ledger.Ledger.Book.{empty_book}
use iron_ledger.Ledger.Submit.{Ledger}
use iron_ledger.Ledger.Submit.Log.{log_bytes, log_bytes-nil, replay}
use iron_ledger.Ledger.Submit.Pieces.{take-append_right, log_joined}
use iron_ledger.Ledger.Submit.Logged.{IsLogged, Told, told_nothing, told_write, told_ack}
use iron_ledger.Ledger.Submit.Acked.{Told-acks}
use iron_ledger.Kill.Worker.{contents, Killed, between, in_write}

-- The trace at an earlier moment told of fewer transfers.
pub Told-earlier :
    (later es : List Event) (ts : List Transfer)
    → Told (later ++ es) ts
    → (us more : List Transfer) × Told es us × (ts ≡ us ++ more)
Told-earlier [] es ts h = (ts, [], h, sym (append-nil ts))
Told-earlier (wrote d ∷ later) es _ (told_write {ts = us} _ more h e) =
    let (first, rest, told, split) = Told-earlier later es us h in
    (
      first,
      rest ++ more,
      told,
      ap (λ (xs : List Transfer). xs ++ more) split ∙ append_assoc first rest more,
    )
Told-earlier (acked j d ∷ later) es ts (told_ack _ _ h e) = Told-earlier later es ts h

Told-contents : {es : List Event} {ts : List Transfer} → Told es ts → contents es ≡ log_bytes 0 ts
Told-contents told_nothing = sym (log_bytes-nil 0)
Told-contents (told_write d more h e) = e
Told-contents (told_ack k d h e) = Told-contents h

Told-write :
    {es : List Event} {d : SimDevice} {us : List Transfer}
    → Told (wrote d ∷ es) us
    → (ts more : List Transfer) × Told es ts
      × (us ≡ ts ++ more)
      × (d.volatile ≡ log_bytes 0 (ts ++ more))
Told-write (told_write {ts} d more h e) = (ts, more, h, refl, e)

-- What a kill leaves: the log of the first transfers and a beginning of the log of those behind them.
pub record IsLeft (all : List Transfer) (image keys : List ℕ) : Type 0 where
  pub logged : List Transfer
  pub more : List Transfer
  pub unlogged : List Transfer
  pub together : all ≡ (logged ++ more) ++ unlogged
  pub cut : ℕ
  pub same : image ≡ log_bytes 0 logged ++ take cut (log_bytes (length (log_bytes 0 logged)) more)
  pub known :
      (k : ℕ) → contains k keys ≡ true → contains k (replay logged empty_book).seen_keys ≡ true

pub Killed-IsLeft :
    {all : List Transfer} {l : Ledger} {image keys : List ℕ}
    → IsLogged all l
    → Killed l.world.trace image keys
    → IsLeft all image keys
Killed-IsLeft {l} h (between later es keys e told_by) =
    let (us, more, told, split) =
      Told-earlier later es h.flushed (subst (λ tr. Told tr h.flushed) e h.told) in
    record {
      logged = us;
      more = [];
      unlogged = more ++ h.unflushed;
      together =
          h.together
          ∙ ap (λ (xs : List Transfer). xs ++ h.unflushed) split
          ∙ append_assoc us more h.unflushed
          ∙ ap (λ (xs : List Transfer). xs ++ (more ++ h.unflushed)) (sym (append-nil us));
      cut = 0;
      same = Told-contents told ∙ sym (append-nil (log_bytes 0 us));
      known = λ k q. Told-acks k told (told_by k q);
    }
Killed-IsLeft {l} h (in_write later es d n keys e room told_by) =
    let (us, behind, told, split) =
      Told-earlier later (wrote d ∷ es) h.flushed (subst (λ tr. Told tr h.flushed) e h.told) in
    let (ts, more, before, parts, left) = Told-write told in
    let start : contents es ≡ log_bytes 0 ts = Told-contents before in
    let off = length (log_bytes 0 ts) in
    record {
      logged = ts;
      more = more;
      unlogged = behind ++ h.unflushed;
      together =
          h.together
          ∙ ap (λ (xs : List Transfer). xs ++ h.unflushed) split
          ∙ append_assoc us behind h.unflushed
          ∙ ap (λ (xs : List Transfer). xs ++ (behind ++ h.unflushed)) parts;
      cut = n - off;
      same =
          ap (take n) (left ∙ log_joined ts more)
          ∙ ap (λ (m : ℕ). take m (log_bytes 0 ts ++ log_bytes off more))
              (omega (arith, room, ap length start))
          ∙ take-append_right (n - off) (log_bytes 0 ts) (log_bytes off more);
      known = λ k q. Told-acks k before (told_by k q);
    }
