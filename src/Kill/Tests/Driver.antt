-- ===== src/Kill/Tests/Driver.antt =====
-- The main functions of the kill test: a worker that is not killed, and a driver whose workers are
-- killed before their first write.
use Prim.Native.String.{String, len}
use iron_ledger.Common.{ℕ, ◌≤◌, ◌≡◌, true, false, none, some, List, [], ◌∷◌, arith}
use iron_ledger.Ledger.Submit.{Ledger}
use iron_ledger.Workload.Counting.{counting, counting-IsVaried}
use iron_ledger.Kill.CommandLine.{WorkerArgs}
use iron_ledger.Kill.WorkerMain.{worker_main, IsFinished, worker_main-finishes}
use iron_ledger.Kill.Driver.{Millis, Victim, Host}
use iron_ledger.Kill.Tests.{unsynced}

abbrev three_ops : WorkerArgs
three_ops = record { path = some "log"; opts = unsynced; seed = 4; accounts = 2; ops = 3 }

worker_main-finishes_example :
    (fuel : ℕ) × (l : Ledger) × ((g : ℕ)
      → fuel ≤ g
      → worker_main counting (λ s. s) g three_ops ≡ some l)
    × IsFinished three_ops l
worker_main-finishes_example =
    worker_main-finishes counting (λ s. s) three_ops (omega arith) (omega arith) counting-IsVaried
      (omega arith)

abbrev nothing_written : Victim
nothing_written = record { died = true; image = []; keys = [] }

abbrev host : Host
host = record {
  self = "build/kill_driver";
  executable = λ _. true;
  tmpdir = none;
  appends = λ _. false;
  pid = 3;
  processes = λ _. some nothing_written;
  stream = λ seed accounts. [];
}

abbrev millis : Millis ℕ
millis = record { shortest = 0; longest = 25; strtod = len }

abbrev arguments : List String
arguments = "--trials" ∷ "||" ∷ "--quiet" ∷ "--accounts" ∷ "||" ∷ []
