-- ===== src/Ledger/Submit/Reopen.antt =====
-- A ledger that is opened again on what a `Commit` left, in any mode.
use mathlib.Core.List.{append_assoc, append-nil}
use iron_ledger.Common.{
  ℕ, ◌+◌, ◌^◌, ◌≤◌, ◌<◌, ◌≡◌, refl, sym, ◌∙◌, ap, ap₂, Bool, List, [], ◌∷◌, ◌++◌, length, arith,
  length-append,
}
use iron_ledger.Device.{from_image}
use iron_ledger.Wal.Scan.{clean_end}
use iron_ledger.Ledger.Modes.{
  LedgerOptions, SubmitStatus, ok, duplicate, bad_posting_count, unbalanced, insufficient_funds,
}
use iron_ledger.Ledger.Transfer.{Transfer}
use iron_ledger.Ledger.Book.{Book, empty_book, validate, apply}
use iron_ledger.Ledger.Recovery.{Replay, recover, empty_report}
use iron_ledger.Ledger.Submit.{
  Ledger, open_ledger, set_ack_sink, commit, Op, op_submit, op_commit, perform, perform_all,
}
use iron_ledger.Ledger.Submit.Log.{log_bytes, log_bytes-nil, replay, AllValid}
use iron_ledger.Ledger.Submit.Pieces.{log_bytes-le}
use iron_ledger.Ledger.Submit.Truncated.{recovered, recover-part}
use iron_ledger.Ledger.Submit.Perform.{IsTypedOp}
use iron_ledger.Ledger.Submit.Life.{reopened}
use iron_ledger.Ledger.Submit.Logging.{
  accepted, set_ack_sink-IsLogged, submit-IsLogged, commit-IsDrained,
}
use iron_ledger.Ledger.Submit.Logged.{IsLogged, IsDrained, buffer_empty, told_nothing}

abbrev pub keys_of : List Transfer → List ℕ
keys_of [] = []
keys_of (t ∷ ts) = t.idem_key ∷ keys_of ts

pub replay-applied_keys :
    (ts : List Transfer) (b : Book) → (replay ts b).applied_keys ≡ b.applied_keys ++ keys_of ts
unfolding apply
replay-applied_keys [] b = sym (append-nil b.applied_keys)
replay-applied_keys (t ∷ ts) b =
    replay-applied_keys ts (apply t b) ∙ append_assoc b.applied_keys (t.idem_key ∷ []) (keys_of ts)

pub length-keys_of : (ts : List Transfer) → length (keys_of ts) ≡ length ts
length-keys_of [] = refl
length-keys_of (t ∷ ts) = omega (arith, length-keys_of ts)

recover_whole :
    (v : Bool) (ts : List Transfer) (image : List ℕ)
    → image ≡ log_bytes 0 ts
    → AllValid ts empty_book
    → length image < 2 ^ 64
    → recover (from_image image) v empty_report ≡ recovered ts []
recover_whole v ts image e valid fits =
    ap (λ (bs : List ℕ). recover (from_image bs) v empty_report)
      (e ∙ sym (append-nil (log_bytes 0 ts)))
    ∙ recover-part v ts [] [] valid tt (omega (arith, ap length e)) refl

pub fresh-IsLogged : (opts : LedgerOptions) → IsLogged [] (reopened [] opts [])
unfolding open_ledger
fresh-IsLogged opts =
    let e = recover_whole opts.verify_crc [] [] (sym (log_bytes-nil 0)) tt (omega arith) in
    let empty = log_bytes-nil 0 in
    record {
      flushed = [];
      unflushed = [];
      on_device = sym empty;
      at_end = ap (λ r. r.1) e;
      buffered = sym (log_bytes-nil (length (log_bytes 0 [])));
      together = refl;
      valid = tt;
      current = ap (λ r. r.0.0) e;
      pending = λ k q. cc;
      told = told_nothing;
    }

abbrev pub AllTypedOps : List Op → Type 0
AllTypedOps [] = Unit
AllTypedOps (op ∷ ops) = IsTypedOp op × AllTypedOps ops

-- The transfers that are accepted after an operation.
unfoldable pub accepted_after : Op → Ledger → List Transfer → List Transfer
accepted_after (op_submit t) l all = accepted (validate t l.book) t all
accepted_after op_commit l all = all

perform-IsLogged :
    {all : List Transfer} (op : Op) (l : Ledger)
    → IsTypedOp op
    → IsLogged all l
    → IsLogged (accepted_after op l all) (perform op l)
unfolding perform accepted_after
perform-IsLogged (op_submit t) l typed h = submit-IsLogged t l typed h
perform-IsLogged op_commit l typed h = (commit-IsDrained l h).logged

accepted-le :
    (st : SubmitStatus) (t : Transfer) (all : List Transfer)
    → length (accepted st t all) ≤ length all + 1
accepted-le ok t all = omega (arith, length-append all (t ∷ []))
accepted-le duplicate t all = omega arith
accepted-le bad_posting_count t all = omega arith
accepted-le unbalanced t all = omega arith
accepted-le insufficient_funds t all = omega arith

accepted_after-le :
    (op : Op) (l : Ledger) (all : List Transfer) → length (accepted_after op l all) ≤ length all + 1
unfolding accepted_after
accepted_after-le (op_submit t) l all = accepted-le (validate t l.book) t all
accepted_after-le op_commit l all = omega arith

pub perform_all-IsLogged :
    (ops : List Op) (l : Ledger) (all : List Transfer)
    → AllTypedOps ops
    → IsLogged all l
    → (more : List Transfer) × IsLogged more (perform_all ops l)
      × (length more ≤ length all + length ops)
unfolding perform_all
perform_all-IsLogged [] l all typed h = (all, h, omega arith)
perform_all-IsLogged (op ∷ ops) l all typed h =
    let (more, k, n) =
      perform_all-IsLogged ops (perform op l) (accepted_after op l all) typed.1
        (perform-IsLogged op l typed.0 h) in
    (more, k, omega (arith, accepted_after-le op l all))

-- A book with the report of a recovery that found nothing amiss, up to an offset.
abbrev pub all_of : Book → ℕ → Replay × ℕ
all_of b end = (
  (
    b,
    record empty_report {
      records_applied = length b.applied_keys;
      valid_bytes = end;
      stop = clean_end;
    },
  ),
  end,
)

pub drained_recover :
    {all : List Transfer} (l : Ledger) (v : Bool)
    → IsDrained all l
    → length all < 2 ^ 32
    → recover (from_image l.world.dev.volatile) v empty_report
      ≡ all_of l.book (length l.world.dev.volatile)
drained_recover {all} l v d few =
    let h = d.logged in
    let image : l.world.dev.volatile ≡ log_bytes 0 all =
      h.on_device ∙ ap (log_bytes 0) (sym (buffer_empty l h d.empty)) in
    let count : length all ≡ length (replay all empty_book).applied_keys =
      omega (arith, length-keys_of all, ap length (replay-applied_keys all empty_book)) in
    recover_whole v all l.world.dev.volatile image h.valid
      (omega (arith, ap length image, log_bytes-le 0 all empty_book h.valid))
    ∙ rw count refl
    ∙ sym (ap₂ all_of h.current (ap length image))

-- What a ledger over an empty device has become after some operations and a `Commit`.
abbrev pub committed : LedgerOptions → List Op → Ledger
committed opts ops = commit (perform_all ops (set_ack_sink (reopened [] opts [])))

-- For a ledger that is opened on an empty device in any mode, less than 2 ^ 32 operations whose
-- integers are in the range of their C++ types, and a Commit: recovery of what readers of the
-- device see then, with checksums on or off, gives exactly the book of the ledger, with a report
-- of all its transfers and nothing amiss, up to the end of the device.
pub commit-recover :
    (opts : LedgerOptions) (ops : List Op) (v : Bool)
    → AllTypedOps ops
    → length ops < 2 ^ 32
    → recover (from_image (committed opts ops).world.dev.volatile) v empty_report
      ≡ all_of (committed opts ops).book (length (committed opts ops).world.dev.volatile)
commit-recover opts ops v typed few =
    let start = set_ack_sink (reopened [] opts []) in
    let (all, h, n) =
      perform_all-IsLogged ops start [] typed
        (set_ack_sink-IsLogged (reopened [] opts []) (fresh-IsLogged opts)) in
    drained_recover (commit (perform_all ops start)) v (commit-IsDrained (perform_all ops start) h)
      (omega arith)
