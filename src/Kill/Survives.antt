-- ===== src/Kill/Survives.antt =====
-- The campaign of kill_driver.cpp against the worker, in any mode: what is recovered is the exact
-- state after the first transfers, and nothing acknowledged is missing.
use mathlib.Core.List.{append_assoc, append-nil}
use iron_ledger.Common.{
  ℕ, ◌^◌, ◌<◌, ◌≡◌, refl, sym, ◌∙◌, ap, subst, Bool, true, false, List, [], ◌∷◌, ◌++◌, length,
  arith, length-append,
}
use iron_ledger.Device.{contains, from_image}
use iron_ledger.Ledger.Modes.{
  LedgerOptions, SubmitStatus, ok, duplicate, bad_posting_count, unbalanced, insufficient_funds,
}
use iron_ledger.Ledger.Transfer.{Transfer}
use iron_ledger.Ledger.Book.{empty_book, validate}
use iron_ledger.Ledger.Recovery.{recover, empty_report}
use iron_ledger.Ledger.Submit.{Ledger, set_ack_sink, submit, submit_validated, commit}
use iron_ledger.Ledger.Submit.Log.{replay, AllValid}
use iron_ledger.Ledger.Submit.Pieces.{AllValid-append, log_bytes-le}
use iron_ledger.Ledger.Submit.Truncated.{recovered, recover-take}
use iron_ledger.Ledger.Submit.Logging.{
  accepted, set_ack_sink-IsLogged, submit-IsLogged, commit-IsDrained,
}
use iron_ledger.Ledger.Submit.Logged.{IsLogged}
use iron_ledger.Ledger.Submit.Reopen.{fresh-IsLogged}
use iron_ledger.CrashSim.{open_fresh}
use iron_ledger.CrashSim.Cut.{AllTyped}
use iron_ledger.Kill.Worker.{is_ok, work, kill_worker, Killed}
use iron_ledger.Ledger.Submit.Acked.{append_keeps_key}
use iron_ledger.Kill.Left.{IsLeft, Killed-IsLeft}

-- What the worker has accepted when it ends: the first transfers of its stream.
pub record HasWorked (all ts : List Transfer) (l : Ledger) : Type 0 where
  pub done : List Transfer
  pub rest : List Transfer
  pub together : ts ≡ done ++ rest
  pub logged : IsLogged (all ++ done) l

-- The loop after a submit.
abbrev pub goes_on : Ledger × SubmitStatus → List Transfer → Ledger
goes_on (m, st) ts = elim (is_ok st) [ true ↦ work ts m | false ↦ m ]

pub work-cons :
    (t : Transfer) (ts : List Transfer) (l : Ledger) → work (t ∷ ts) l ≡ goes_on (submit t l) ts
unfolding work
work-cons t ts l = refl

validated_verdict :
    (st : SubmitStatus) (t : Transfer) (l : Ledger) → (submit_validated st t l).1 ≡ st
unfolding submit_validated
validated_verdict ok t l = refl
validated_verdict duplicate t l = refl
validated_verdict bad_posting_count t l = refl
validated_verdict unbalanced t l = refl
validated_verdict insufficient_funds t l = refl

pub submit_verdict : (t : Transfer) (l : Ledger) → (submit t l).1 ≡ validate t l.book
unfolding submit
submit_verdict t l = validated_verdict (validate t l.book) t l

stopped :
    (all : List Transfer) (t : Transfer) (ts : List Transfer) (m : Ledger)
    → IsLogged all m
    → HasWorked all (t ∷ ts) m
stopped all t ts m h = record {
  done = [];
  rest = t ∷ ts;
  together = refl;
  logged = subst (λ us. IsLogged us m) (sym (append-nil all)) h;
}

goes_on-HasWorked :
    (st : SubmitStatus) (all : List Transfer) (t : Transfer) (ts : List Transfer) (m : Ledger)
    → IsLogged (accepted st t all) m
    → (IsLogged (all ++ t ∷ []) m → HasWorked (all ++ t ∷ []) ts (work ts m))
    → HasWorked all (t ∷ ts) (goes_on (m, st) ts)
goes_on-HasWorked ok all t ts m h go =
    let w = go h in
    record {
      done = t ∷ w.done;
      rest = w.rest;
      together = ap (◌∷◌ t) w.together;
      logged = subst (λ us. IsLogged us (work ts m)) (append_assoc all (t ∷ []) w.done) w.logged;
    }
goes_on-HasWorked duplicate all t ts m h go = stopped all t ts m h
goes_on-HasWorked bad_posting_count all t ts m h go = stopped all t ts m h
goes_on-HasWorked unbalanced all t ts m h go = stopped all t ts m h
goes_on-HasWorked insufficient_funds all t ts m h go = stopped all t ts m h

pub work-nil : (l : Ledger) → work [] l ≡ commit l
unfolding work
work-nil l = refl

pub work-HasWorked :
    (ts all : List Transfer) (l : Ledger)
    → AllTyped ts
    → IsLogged all l
    → HasWorked all ts (work ts l)
work-HasWorked [] all l typed h = subst (HasWorked all []) (sym (work-nil l)) (record {
  done = [];
  rest = [];
  together = refl;
  logged =
      subst (λ us. IsLogged us (commit l)) (sym (append-nil all)) (commit-IsDrained l h).logged;
})
work-HasWorked (t ∷ ts) all l typed h =
    subst (HasWorked all (t ∷ ts))
      (sym (work-cons t ts l ∙ ap (λ st. goes_on ((submit t l).0, st) ts) (submit_verdict t l)))
      (goes_on-HasWorked (validate t l.book) all t ts (submit t l).0 (submit-IsLogged t l typed.0 h)
        (work-HasWorked ts (all ++ t ∷ []) (submit t l).0 typed.1))

-- What is recovered after a kill: the replay of the first transfers, with all that is acknowledged.
pub record IsRecovered (v : Bool) (ts : List Transfer) (image keys : List ℕ) : Type 0 where
  pub applied : List Transfer
  pub rest : List Transfer
  pub part : List ℕ
  pub together : ts ≡ applied ++ rest
  pub valid : AllValid applied empty_book
  pub found : recover (from_image image) v empty_report ≡ recovered applied part
  pub known :
      (k : ℕ) → contains k keys ≡ true → contains k (replay applied empty_book).seen_keys ≡ true

left-IsRecovered :
    (v : Bool) (all ts rest : List Transfer) (image keys : List ℕ)
    → ts ≡ all ++ rest
    → length ts < 2 ^ 32
    → AllValid all empty_book
    → IsLeft all image keys
    → IsRecovered v ts image keys
left-IsRecovered v all ts rest image keys e few valid h =
    let split =
      AllValid-append (h.logged ++ h.more) h.unlogged empty_book
        (subst (λ us. AllValid us empty_book) h.together valid) in
    let (c, found) = recover-take v h.logged h.more h.cut split.0 (
      omega (
        arith,
        log_bytes-le 0 (h.logged ++ h.more) empty_book split.0,
        ap length e,
        ap length h.together,
        length-append all rest,
        length-append (h.logged ++ h.more) h.unlogged,
      )) in
    let us = h.logged ++ c.whole in
    let whole : h.logged ++ h.more ≡ us ++ c.rest =
      ap (λ (xs : List Transfer). h.logged ++ xs) c.together
      ∙ sym (append_assoc h.logged c.whole c.rest) in
    record {
      applied = us;
      rest = (c.rest ++ h.unlogged) ++ rest;
      part = c.part;
      together =
          e
          ∙ ap (λ (xs : List Transfer). xs ++ rest)
              (h.together
                ∙ ap (λ (xs : List Transfer). xs ++ h.unlogged) whole
                ∙ append_assoc us c.rest h.unlogged)
          ∙ append_assoc us (c.rest ++ h.unlogged) rest;
      valid =
          (AllValid-append us c.rest empty_book
            (subst (λ xs. AllValid xs empty_book) whole split.0)).0;
      found = ap (λ (bs : List ℕ). recover (from_image bs) v empty_report) h.same ∙ found;
      known = λ k q. append_keeps_key k h.logged c.whole (h.known k q);
    }

-- In any mode, for a stream of less than 2 ^ 32 transfers with integers in the range of their C++
-- types: wherever SIGKILL stops the worker, between two calls or inside a write that has put a
-- beginning of its bytes, recovery of the file, with checksums on or off, gives exactly the
-- replay of the first transfers of the stream, all of them valid, with a report of nothing amiss,
-- and every key that the driver has received is among theirs.
pub kill_worker-IsRecovered :
    (opts : LedgerOptions) (v : Bool) (ts : List Transfer) (image keys : List ℕ)
    → AllTyped ts
    → length ts < 2 ^ 32
    → Killed (kill_worker opts ts).world.trace image keys
    → IsRecovered v ts image keys
unfolding kill_worker
kill_worker-IsRecovered opts v ts image keys typed few k =
    let w =
      work-HasWorked ts [] (set_ack_sink (open_fresh opts)) typed
        (set_ack_sink-IsLogged (open_fresh opts) (fresh-IsLogged opts)) in
    left-IsRecovered v w.done ts w.rest image keys w.together few w.logged.valid
      (Killed-IsLeft w.logged k)
