-- ===== src/Ledger/Submit/Budget.antt =====
-- The calls of `Sync` over a whole stream of submits, from the opening of a ledger on.
use iron_ledger.Common.{◌^◌, ◌≤◌, ◌<◌, ◌≡◌, refl, sym, ◌∙◌, ap, subst, List, [], ◌∷◌, length, arith}
use iron_ledger.Ledger.Modes.{
  DurabilityMode, no_sync, lazy_sync, sync_every, group_commit, LedgerOptions, SubmitStatus, ok,
  duplicate, bad_posting_count, unbalanced, insufficient_funds,
}
use iron_ledger.Ledger.Transfer.{Transfer}
use iron_ledger.Ledger.Book.{validate}
use iron_ledger.Ledger.Submit.{
  Ledger, set_ack_sink, log_transfer, settle, submit, submit_validated, Op, op_submit, perform,
  perform_all, open_ledger,
}
use iron_ledger.Ledger.Submit.Perform.{perform-opts}
use iron_ledger.Ledger.Submit.Life.{reopened}
use iron_ledger.Ledger.Submit.Reopen.{fresh-IsLogged}
use iron_ledger.Ledger.Submit.Counts.{syncs}
use iron_ledger.Ledger.Submit.Batches.{applied, IsBatched, settled, log_transfer-IsPending}

-- The calls of `Submit` on a list of transfers.
abbrev pub submits : List Transfer → List Op
submits [] = []
submits (t ∷ ts) = op_submit t ∷ submits ts

pub length-submits : (ts : List Transfer) → length (submits ts) ≡ length ts
length-submits [] = refl
length-submits (t ∷ ts) = omega (arith, length-submits ts)

validated-IsBatched :
    (m : DurabilityMode) (st : SubmitStatus) (t : Transfer) (l : Ledger)
    → m ≡ l.opts.mode
    → l.opts.group_size < 2 ^ 32
    → IsBatched m l
    → IsBatched m (submit_validated st t l).0
unfolding submit_validated
validated-IsBatched m ok t l e fits h =
    let done : IsBatched m (settle m (log_transfer t l)) =
      settled m l (log_transfer t l) fits h (log_transfer-IsPending t l) in
    subst (λ m'. IsBatched m (settle m' (log_transfer t l))) e done
validated-IsBatched m duplicate t l e fits h = h
validated-IsBatched m bad_posting_count t l e fits h = h
validated-IsBatched m unbalanced t l e fits h = h
validated-IsBatched m insufficient_funds t l e fits h = h

one_submit :
    (m : DurabilityMode) (t : Transfer) (l : Ledger)
    → m ≡ l.opts.mode
    → l.opts.group_size < 2 ^ 32
    → IsBatched m l
    → IsBatched m (perform (op_submit t) l)
unfolding perform submit
one_submit m t l e fits h = validated-IsBatched m (validate t l.book) t l e fits h

submits-IsBatched :
    (m : DurabilityMode) (ts : List Transfer) (l : Ledger)
    → m ≡ l.opts.mode
    → l.opts.group_size < 2 ^ 32
    → IsBatched m l
    → IsBatched m (perform_all (submits ts) l)
unfolding perform_all
submits-IsBatched m [] l e fits h = h
submits-IsBatched m (t ∷ ts) l e fits h =
    let opts = perform-opts (op_submit t) l in
    submits-IsBatched m ts (perform (op_submit t) l) (e ∙ ap (λ o. o.mode) (sym opts))
      (rw opts fits) (one_submit m t l e fits h)

-- A ledger that is just opened.
record IsUnused (opts : LedgerOptions) (l : Ledger) : Type 0 where
  no_syncs : syncs l ≡ 0
  none_applied : applied l ≡ 0
  none_waits : length l.pending_acks ≡ 0
  since : l.since_sync ≡ 0
  same_opts : l.opts ≡ opts

started : (opts : LedgerOptions) → IsUnused opts (set_ack_sink (reopened [] opts []))
unfolding set_ack_sink open_ledger
started opts = record {
  no_syncs = refl;
  none_applied = ap (λ b. length b.applied_keys) (fresh-IsLogged opts).current;
  none_waits = refl;
  since = refl;
  same_opts = refl;
}

unused-IsBatched :
    (m : DurabilityMode) (opts : LedgerOptions) (l : Ledger)
    → 1 ≤ opts.group_size
    → IsUnused opts l
    → IsBatched m l
unused-IsBatched no_sync opts l some_size u = u.no_syncs
unused-IsBatched lazy_sync opts l some_size u =
    rw (u.no_syncs, u.since, u.same_opts, u.none_applied) (omega arith, some_size)
unused-IsBatched sync_every opts l some_size u = u.no_syncs ∙ sym u.none_applied
unused-IsBatched group_commit opts l some_size u =
    rw (u.no_syncs, u.none_waits, u.same_opts, u.none_applied) (omega arith, some_size)

-- For a ledger that is opened on an empty device in any mode, with a group size of 1 to 2 ^ 32 -
-- 1, and any list of submits, no matter which of them are accepted. In no_sync the device's Sync
-- is not called. In sync_every it is called once for each accepted transfer. In lazy_sync and
-- group_commit the group size times the calls, plus what is in the open batch (the count since
-- the last sync, or the pending acknowledgements), is the number of accepted transfers, and the
-- open batch is smaller than the group size.
pub submits-syncs :
    (opts : LedgerOptions) (ts : List Transfer)
    → 1 ≤ opts.group_size
    → opts.group_size < 2 ^ 32
    → IsBatched opts.mode (perform_all (submits ts) (set_ack_sink (reopened [] opts [])))
submits-syncs opts ts some_size fits =
    let start = set_ack_sink (reopened [] opts []) in
    let u = started opts in
    submits-IsBatched opts.mode ts start (ap (λ o. o.mode) (sym u.same_opts)) (rw u.same_opts fits)
      (unused-IsBatched opts.mode opts start some_size u)
