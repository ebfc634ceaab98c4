-- ===== src/Kill/Child.antt =====
-- tools/kill_driver.cpp, `RunTrial`: how a trial starts, what the child does up to execv, and a trial
-- whose worker never ran.
use Prim.Native.String.{String}
use mathlib.Core.List.{append-nil}
use iron_ledger.Common.{
  ℕ, ◌+◌, ◌^◌, ◌<◌, ◌≡◌, refl, sym, ◌∙◌, Bool, true, not, Option, none, some, List, [],
  if◌then◌else◌, length, arith,
}
use iron_ledger.Device.World.{acks}
use iron_ledger.Ledger.Modes.{DurabilityMode, LedgerOptions}
use iron_ledger.Conversions.{Conversions, ReadsBack}
use iron_ledger.Kill.CommandLine.{driver_args, read_args, worker_args, worker_args-driver_args}
use iron_ledger.Ledger.Transfer.{Transfer}
use iron_ledger.Workload.{WorkloadOptions}
use iron_ledger.Workload.Payment.{AreIssued}
use iron_ledger.Kill.Worker.{kill_worker, Killed, between}
use iron_ledger.Kill.Verdict.{KillTally, Remains, kill_trial}
use iron_ledger.Kill.Passes.{IsTrial, kill_trial-nothing_amiss}
use iron_ledger.Kill.Watch.{exited, TrialAnswers, keys_told, remains_of}
use iron_ledger.Kill.Watched.{received_all, keys_told_lem}

-- _exit with a code, or the worker's main with its arguments.
pub data ChildEnd : Type 0 where
  child_exits : ℕ → ChildEnd
  executes : String → List String → ChildEnd

module _ (c : Conversions) where
  -- The child, told whether dup2 and execv work: `p.worker`, `path`, `mode`, `crc`, `p.group`, the
  -- seed and `p.accounts`.
  unfoldable pub child :
      Bool → Bool → String → String → DurabilityMode → Bool → ℕ → ℕ → ℕ → ChildEnd
  child dup2_worked execv_worked worker path mode crc group seed accounts =
      if not dup2_worked
      then child_exits 4
      else if not execv_worked
      then child_exits 5
      else executes worker (driver_args c path mode crc group seed accounts)

-- `RunTrial` up to the recovery: `none` where it returns false.
abbrev pub trial_remains : Bool → Bool → TrialAnswers → List ℕ → List Transfer → Option Remains
trial_remains pipe_worked fork_worked a image stream =
    if not pipe_worked
    then none
    else if not fork_worked
    then none
    else some (remains_of a image stream)

module _ (opts : LedgerOptions) (w : WorkloadOptions) (stream : List Transfer)
    (issued : AreIssued w 0 stream) (few : length stream < 2 ^ 32) (a : TrialAnswers)
    (silent : received_all a ≡ []) where
  no_keys : keys_told a ≡ []
  no_keys = keys_told_lem a [] 0 tt silent

  unstarted-Killed :
      (keys : List ℕ) → keys ≡ [] → Killed (kill_worker opts stream).world.trace [] keys
  unfolding acks
  unstarted-Killed keys e =
      between (kill_worker opts stream).world.trace [] keys
        (sym (append-nil (kill_worker opts stream).world.trace)) (λ k h. ground (arith, e, h))

  unstarted-IsTrial : IsTrial opts (remains_of a [] stream)
  unstarted-IsTrial = record {
    workload = w;
    issued = issued;
    few = few;
    killed = unstarted-Killed (keys_told a) no_keys;
  }

  -- A child that exits before it has a worker, with an empty pipe and an empty file: the driver
  -- counts the trial and nothing else, neither as killed nor as amiss.
  pub kill_trial-exited :
      (code : ℕ) (t : KillTally)
      → a.status ≡ exited code
      → kill_trial opts (remains_of a [] stream) t ≡ record t { trials = t.trials + 1 }
  kill_trial-exited code t e =
      let add_none : (n : ℕ) → n + 0 ≡ n = λ n. omega arith in
      kill_trial-nothing_amiss opts (remains_of a [] stream) unstarted-IsTrial t
      ∙ rw (no_keys, e, add_none t.killed, add_none t.acks) refl

-- A child that gets as far as a worker, and the arguments that its main reads.
pub executes-worker_args :
    (c : Conversions)
    → ReadsBack c
    → (worker path : String) (m : DurabilityMode) (crc : Bool) (group seed accounts : ℕ)
    → group < 2 ^ 32
    → seed < 2 ^ 64
    → accounts < 2 ^ 32
    → (args : List String) × (child c true true worker path m crc group seed accounts
        ≡ executes worker args)
      × (worker_args c args
          ≡ read_args (record {
            path = some path;
            opts = record { mode = m; verify_crc = crc; group_size = group };
            seed = seed;
            accounts = accounts;
            ops = 2_000_000;
          }))
unfolding child
executes-worker_args c back worker path m crc group seed accounts g s a = (
  driver_args c path m crc group seed accounts,
  refl,
  worker_args-driver_args c back path m crc group seed accounts g s a,
)
