-- ===== src/Kill/WorkerMain.antt =====
-- tools/kill_worker.cpp, `main` behind the reading of its arguments, when no kill arrives.
use iron_ledger.Common.{
  ℕ, ◌+◌, ◌*◌, ◌^◌, ◌≤◌, ◌<◌, ◌≡◌, refl, sym, ◌∙◌, ap, subst, Bool, ◌&&◌, Option, none, some, List,
  [], ◌∷◌, leb, length, arith,
}
use iron_ledger.Common.Int.{pos_part}
use iron_ledger.Device.{contains, from_image}
use iron_ledger.Device.World.{acks}
use iron_ledger.Ledger.Modes.{LedgerOptions, SubmitStatus}
use iron_ledger.Ledger.Transfer.{Transfer}
use iron_ledger.Ledger.Book.{Book, empty_book, apply}
use iron_ledger.Ledger.Recovery.{recover, empty_report}
use iron_ledger.Ledger.Submit.{Ledger, set_ack_sink, submit, commit, perform, perform_all}
use iron_ledger.Ledger.Submit.Log.{replay, AllValid}
use iron_ledger.Ledger.Submit.Reopen.{
  fresh-IsLogged, AllTypedOps, keys_of, length-keys_of, replay-applied_keys, committed,
  commit-recover, all_of,
}
use iron_ledger.Ledger.Submit.Logging.{set_ack_sink-IsLogged}
use iron_ledger.Ledger.Submit.Booked.{commit-book, replay_has_key}
use iron_ledger.Ledger.Submit.Budget.{submits, length-submits}
use iron_ledger.Ledger.Submit.Answered.{commit-answers}
use iron_ledger.Workload.{WorkloadOptions, default_options, issue}
use iron_ledger.Workload.Legs.{IsSane, default_options-IsSane}
use iron_ledger.Workload.Accounts.{IsVaried}
use iron_ledger.Workload.Payment.{AreIssued}
use iron_ledger.Workload.Issue.{issue-AreIssued}
use iron_ledger.Workload.Moves.{most_moved}
use iron_ledger.Workload.Accepted.{issued-AllValid}
use iron_ledger.CrashSim.{open_fresh}
use iron_ledger.Kill.Worker.{work, kill_worker}
use iron_ledger.Kill.Survives.{goes_on, work-nil, work-cons, submit_verdict}
use iron_ledger.Ledger.Submit.Booked.{submit-book}
use iron_ledger.Kill.CommandLine.{WorkerArgs}

-- The workload's options.
abbrev pub worker_workload : WorkerArgs → WorkloadOptions
worker_workload w = record default_options { accounts = w.accounts }

-- `main` of the worker from its arguments on; `none` only if `PickAccounts` takes more than `fuel`
-- rounds.
unfoldable pub worker_main {ℓ} :
    {S : Type ℓ} → (S → ℕ × S) → (ℕ → S) → ℕ → WorkerArgs → Option Ledger
worker_main rng seeded fuel w =
    elim (issue rng (worker_workload w) fuel w.ops
      (record { rng_state = seeded w.seed; issued = 0 })) [
        | none ↦ none
        | some ts ↦ some (kill_worker w.opts ts)
      ]

submits-AllTypedOps : (ts : List Transfer) (b : Book) → AllValid ts b → AllTypedOps (submits ts)
submits-AllTypedOps [] b h = tt
submits-AllTypedOps (t ∷ ts) b h = (h.0, submits-AllTypedOps ts (apply t b) h.2)

-- Where every transfer is accepted, the loop runs through.
work-runs :
    (ts : List Transfer) (l : Ledger)
    → AllValid ts l.book
    → (work ts l ≡ commit (perform_all (submits ts) l))
      × ((perform_all (submits ts) l).book ≡ replay ts l.book)
unfolding perform_all perform
work-runs [] l h = (work-nil l, refl)
work-runs (t ∷ ts) l h =
    let next = submit-book t l h.1 in
    let (rest, book) = work-runs ts (submit t l).0 (subst (AllValid ts) (sym next) h.2) in
    (
      work-cons t ts l
          ∙ ap (λ (st : SubmitStatus). goes_on ((submit t l).0, st) ts) (submit_verdict t l ∙ h.1)
          ∙ rest,
      book ∙ ap (replay ts) next,
    )

issued_keys :
    (o : WorkloadOptions) (k from : ℕ) (ts : List Transfer)
    → AreIssued o from ts
    → contains k (keys_of ts) ≡ (leb (from + 1) k && leb k (from + length ts))
issued_keys o k from [] h = ground arith
issued_keys o k from (t ∷ ts) h = ground (arith, h.0.same_key, issued_keys o k (from + 1) ts h.1)

module _ (o : WorkloadOptions) (sane : IsSane o) (opts : LedgerOptions) (ts : List Transfer)
    (issued : AreIssued o 0 ts) (less : length ts * most_moved o ≤ pos_part o.funding)
    (fits : 2 * pos_part o.funding < 2 ^ 63) where
  accepted_all : AllValid ts empty_book
  accepted_all = issued-AllValid o ts sane issued less fits

  started : (set_ack_sink (open_fresh opts)).book ≡ empty_book
  started = (set_ack_sink-IsLogged (open_fresh opts) (fresh-IsLogged opts)).current

  ran :
      (kill_worker opts ts ≡ committed opts (submits ts))
      × ((perform_all (submits ts) (set_ack_sink (open_fresh opts))).book ≡ replay ts empty_book)
  unfolding kill_worker
  ran =
      let (runs, book) =
        work-runs ts (set_ack_sink (open_fresh opts))
          (subst (AllValid ts) (sym started) accepted_all) in
      (runs, book ∙ ap (replay ts) started)

  worker_book : (kill_worker opts ts).book ≡ replay ts empty_book
  worker_book =
      ap (λ l. l.book) ran.0
      ∙ commit-book (perform_all (submits ts) (set_ack_sink (open_fresh opts)))
      ∙ ran.1

  worker_acks :
      (k : ℕ) → contains k (acks (kill_worker opts ts).world.trace) ≡ (leb 1 k && leb k (length ts))
  worker_acks k =
      ap (λ l. contains k (acks l.world.trace)) ran.0
      ∙ commit-answers opts (submits ts) k (submits-AllTypedOps ts empty_book accepted_all)
      ∙ ap (λ l. contains k l.book.seen_keys) (sym ran.0)
      ∙ ap (λ b. contains k b.seen_keys) worker_book
      ∙ replay_has_key k ts empty_book
      ∙ ground (arith, issued_keys o k 0 ts issued)

  worker_recovers :
      (v : Bool)
      → length ts < 2 ^ 32
      → recover (from_image (kill_worker opts ts).world.dev.volatile) v empty_report
        ≡ all_of (kill_worker opts ts).book (length (kill_worker opts ts).world.dev.volatile)
  worker_recovers v few =
      subst
        (λ l.
          recover (from_image l.world.dev.volatile) v empty_report
          ≡ all_of l.book (length l.world.dev.volatile))
        (sym ran.0)
        (commit-recover opts (submits ts) v (submits-AllTypedOps ts empty_book accepted_all)
          (omega (arith, length-submits ts)))

issue_then :
    {S : Type 0} (rng : S → ℕ × S) (seeded : ℕ → S) (g : ℕ) (w : WorkerArgs) (ts : List Transfer)
    → issue rng (worker_workload w) g w.ops (record { rng_state = seeded w.seed; issued = 0 })
      ≡ some ts
    → worker_main rng seeded g w ≡ some (kill_worker w.opts ts)
unfolding worker_main
issue_then rng seeded g w ts e = ground arith

-- What the worker leaves when it ends by itself.
pub record IsFinished (w : WorkerArgs) (l : Ledger) : Type 0 where
  pub acked : (k : ℕ) → contains k (acks l.world.trace) ≡ (leb 1 k && leb k w.ops)
  pub applied : length l.book.applied_keys ≡ w.ops
  pub recovers :
      (v : Bool)
      → recover (from_image l.world.dev.volatile) v empty_report
        ≡ all_of l.book (length l.world.dev.volatile)

-- For a worker with at least two and less than 2 ^ 32 accounts and at most 142857142 operations,
-- in any mode, and an engine that does not repeat chosen accounts for ever: if no kill arrives,
-- main runs through. No transfer of its stream is ever rejected, the keys that it has
-- acknowledged in the end are exactly those from 1 to the number of operations, and recovery of
-- its file, with checksums on or off, gives exactly the book of its ledger, which has as many
-- applied keys, with a report of nothing amiss up to the end of the file.
pub worker_main-finishes :
    {S : Type 0} (rng : S → ℕ × S) (seeded : ℕ → S) (w : WorkerArgs)
    → 2 ≤ w.accounts
    → w.accounts < 2 ^ 32
    → IsVaried rng w.accounts
    → w.ops ≤ 142_857_142
    → (fuel : ℕ) × (l : Ledger) × ((g : ℕ) → fuel ≤ g → worker_main rng seeded g w ≡ some l)
      × IsFinished w l
worker_main-finishes rng seeded w two few varied affordable =
    let o = worker_workload w in
    let sane = default_options-IsSane w.accounts two few in
    let (fuel, ts, made, issued, size) =
      issue-AreIssued rng o sane varied w.ops (record { rng_state = seeded w.seed; issued = 0 })
        (omega arith) in
    let less : length ts * most_moved o ≤ pos_part o.funding = omega arith in
    (
      fuel,
      kill_worker w.opts ts,
      λ g h. issue_then rng seeded g w ts (made g h),
      record {
        acked = λ k.
            worker_acks o sane w.opts ts issued less (omega arith) k
            ∙ ap (λ n. leb 1 k && leb k n) size;
        applied =
            ap (λ b. length b.applied_keys) (worker_book o sane w.opts ts issued less (omega arith))
            ∙ ap length (replay-applied_keys ts empty_book)
            ∙ length-keys_of ts
            ∙ size;
        recovers = λ v. worker_recovers o sane w.opts ts issued less (omega arith) v (omega arith);
      },
    )
