-- ===== src/CrashSim.antt =====
-- tools/crash_sim.cpp: the campaign of trials, each of which cuts the power at a write of the
-- workload, recovers and checks. The engines and distributions are parameters.
pub mod Campaign
pub mod Cut
pub mod Totals
pub mod CommandLine
pub mod ReplayHint
pub mod ExitCode
mod Tests
use iron_ledger.Common.{
  ℕ, zero, suc, ◌+◌, ◌%◌, ◌^◌, Bool, true, false, not, ◌&&◌, ◌||◌, Option, none, some, List, [],
  ◌∷◌, leb, ◌==◌, if◌then◌else◌, length, take, arith,
}
use iron_ledger.Common.Int.{ℤ, pos, negsuc}
use iron_ledger.Device.{SimDevice, CutPolicy, Draw, contains, from_image, fresh, power_cut}
use iron_ledger.Device.World.{World, Event, wrote, acked, acks}
use iron_ledger.Ledger.Modes.{
  DurabilityMode, no_sync, lazy_sync, sync_every, group_commit, LedgerOptions,
}
use iron_ledger.Ledger.Transfer.{Transfer}
use iron_ledger.Ledger.Book.{Balances, Book, has_key, total_balance, is_zero}
use iron_ledger.Ledger.Recovery.{RecoveryReport, empty_report, corruption_admitted}
use iron_ledger.Ledger.Submit.{Ledger, open_ledger, set_ack_sink, submit}
use iron_ledger.Workload.{WorkloadOptions, default_options, Workload, issue}

pub record Config : Type 0 where
  pub mode : DurabilityMode
  pub crc : Bool

-- The numbers of `Params`.
pub record Params : Type 0 where
  pub trials : ℕ
  pub ops : ℕ
  pub seed : ℕ
  pub group : ℕ
  pub accounts : ℕ
  pub p_persist : ℕ
  pub p_tear : ℕ

pub data Outcome : Type 0 where
  clean torn_accepted silent_corruption : Outcome

-- MakeOptions
abbrev pub make_options : Config → Params → LedgerOptions
make_options c p = record { mode = c.mode; verify_crc = c.crc; group_size = p.group }

-- MakeWorkload, but for the seed.
abbrev pub make_workload : Params → WorkloadOptions
make_workload p = record default_options { accounts = p.accounts }

-- `for (…) l.Submit(w.Next());`, on the transfers that the workload issues.
unfoldable pub submit_all : List Transfer → Ledger → Ledger
submit_all [] l = l
submit_all (t ∷ ts) l = submit_all ts (submit t l).0

-- `SimDevice dev; Ledger l(dev, opts);`
abbrev pub open_fresh : LedgerOptions → Ledger
open_fresh opts = (open_ledger (record { dev = fresh; trace = [] }) opts empty_report).0

-- The options that `CleanReplay` uses: the defaults.
abbrev pub replay_options : LedgerOptions
replay_options = record { mode = sync_every; verify_crc = true; group_size = 32 }

-- CleanReplay, on the first transfers of the same stream.
unfoldable pub clean_replay : List Transfer → Balances
clean_replay ts = (submit_all ts (open_fresh replay_options)).book.balances

-- `==` on the maps of balances.
unfoldable pub same_amount : ℤ → ℤ → Bool
same_amount (pos n) (pos m) = n == m
same_amount (negsuc n) (negsuc m) = n == m
same_amount _ _ = false

unfoldable pub same_balances : Balances → Balances → Bool
same_balances [] [] = true
same_balances ((j, v) ∷ m) ((k, w) ∷ n) = j == k && same_amount v w && same_balances m n
same_balances _ _ = false

-- The writes that a trace tells of.
abbrev pub writes : List Event → ℕ
writes [] = 0
writes (wrote d ∷ es) = writes es + 1
writes (acked k d ∷ es) = writes es

-- The hook of the second pass: the device and what came before at the write number `crash_at`, if
-- the run comes to it. The hook throws there, which ends the run; nothing later in the trace is
-- read.
unfoldable pub capture : ℕ → List Event → Option (SimDevice × List Event)
capture crash_at [] = none
capture crash_at (wrote d ∷ es) =
    if writes es + 1 == crash_at then some (d, es) else capture crash_at es
capture crash_at (acked k d ∷ es) = capture crash_at es

-- The device at the cut and the keys that were acknowledged by then: at the write, or at the end
-- if the hook was not called so often.
unfoldable pub cut_point : Option (SimDevice × List Event) → World → SimDevice × List ℕ
cut_point (some (d, es)) w = (d, acks es)
cut_point none w = (w.dev, acks w.trace)

-- `for (…) if (!recovered.HasKey(acked[i])) ++lost;`
unfoldable pub count_lost : List ℕ → Book → ℕ
count_lost [] b = 0
count_lost (k ∷ ks) b = (if has_key k b then 0 else 1) + count_lost ks b

-- `keys[i] == i + 1` for every key, from the position `i` on.
unfoldable pub dense_from : ℕ → List ℕ → Bool
dense_from i [] = true
dense_from i (k ∷ ks) = k == i + 1 && dense_from (i + 1) ks

-- What `RunTrial` returns and stores through its pointers.
pub record Trial : Type 0 where
  pub outcome : Outcome
  pub acks : ℕ
  pub lost : ℕ
  pub prefix_bad : Bool
  pub state_bad : Bool
  pub conservation_bad : Bool

-- The classification at the end of `RunTrial`.
abbrev pub classify : Bool → Bool → Outcome
classify admitted violated =
    if admitted then torn_accepted else if violated then silent_corruption else clean

-- The checks of `RunTrial` on the recovered ledger.
unfoldable pub judge : Params → List Transfer → List ℕ → Ledger → RecoveryReport → Trial
judge p ts keys recovered report =
    let applied = recovered.book.applied_keys in
    let prefix_ok = leb (length applied) p.ops && dense_from 0 applied in
    let state_ok =
      prefix_ok
      && same_balances recovered.book.balances (clean_replay (take (length applied) ts)) in
    let conservation_ok = is_zero (total_balance recovered.book.balances) in
    record {
      outcome =
          classify (corruption_admitted report)
            (not prefix_ok || not state_ok || not conservation_ok);
      acks = length keys;
      lost = count_lost keys recovered.book;
      prefix_bad = not prefix_ok;
      state_bad = not state_ok;
      conservation_bad = not conservation_ok;
    }

-- The power is cut, and the ledger recovers on what is left.
unfoldable pub recover_and_judge :
    LedgerOptions → Params → (ℕ → Draw) → List Transfer → SimDevice × List ℕ → Trial
recover_and_judge opts p draws ts (d, keys) =
    let policy : CutPolicy = record { p_persist = p.p_persist; p_tear = p.p_tear } in
    let image = power_cut policy draws d in
    let (recovered, report) =
      open_ledger (record { dev = from_image image; trace = [] }) opts empty_report in
    judge p ts keys recovered report

-- RunTrial on the transfers of its stream: `pick` is the number that its engine draws.
unfoldable pub run_trial : Config → Params → ℕ → (ℕ → Draw) → List Transfer → Trial
run_trial c p pick draws ts =
    let opts = make_options c p in
    let count = (submit_all ts (open_fresh opts)).world.dev.write_count in
    let crash_at = 1 + pick % (count + 1) in
    let last = submit_all ts (set_ack_sink (open_fresh opts)) in
    recover_and_judge opts p draws ts (cut_point (capture crash_at last.world.trace) last.world)
