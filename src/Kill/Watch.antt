-- ===== src/Kill/Watch.antt =====
-- tools/kill_driver.cpp, `RunTrial`: what the parent does from the fork to the death of the worker.
-- What the system calls answer, and how often the clock lets the loop go round, are parameters.
use iron_ledger.Common.{ℕ, Bool, false, ◌&&◌, List, [], ◌∷◌, ◌==◌}
use iron_ledger.Ledger.Transfer.{Transfer}
use iron_ledger.Kill.{ReadAnswer, drain}
use iron_ledger.Kill.Verdict.{Remains}

-- What waitpid stores: WIFSIGNALED with WTERMSIG, or an exit.
pub data WaitStatus : Type 0 where
  signaled exited : ℕ → WaitStatus

-- SIGKILL
abbrev pub sigkill : ℕ
sigkill = 9

-- What a trial is told: by the reads of each `Drain` before the deadline, by kill and waitpid, and
-- by the reads of the last `Drain`.
pub record TrialAnswers : Type 0 where
  pub rounds : List (List ReadAnswer)
  pub kill_worked : Bool
  pub status : WaitStatus
  pub last : List ReadAnswer

-- The loop until the deadline.
unfoldable pub drain_rounds : List (List ReadAnswer) → List ℕ → List ℕ → List ℕ × List ℕ
drain_rounds [] carry acked = (carry, acked)
drain_rounds (rs ∷ more) carry acked =
    let (carry', acked') = drain rs carry acked in drain_rounds more carry' acked'

-- The keys that the parent has in the end.
unfoldable pub keys_told : TrialAnswers → List ℕ
keys_told a =
    let (carry, acked) = drain_rounds a.rounds [] [] in
    let (carry', acked') = drain a.last carry acked in acked'

-- The test before `++t->killed`.
abbrev pub died_of_kill : Bool → WaitStatus → Bool
died_of_kill kill_worked (signaled n) = kill_worked && n == sigkill
died_of_kill kill_worked (exited n) = false

-- A trial before the recovery, with the file that is left and the stream of its seed.
abbrev pub remains_of : TrialAnswers → List ℕ → List Transfer → Remains
remains_of a image stream = record {
  died = died_of_kill a.kill_worked a.status;
  image = image;
  keys = keys_told a;
  stream = stream;
}
