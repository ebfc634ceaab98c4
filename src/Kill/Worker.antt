-- ===== src/Kill/Worker.antt =====
-- tools/kill_worker.cpp, from the opening of the ledger on, and what a SIGKILL leaves of it: the file,
-- in the page cache of the kernel, and the keys in the pipe.
use iron_ledger.Common.{ℕ, ◌≤◌, ◌≡◌, Bool, true, false, List, [], ◌∷◌, ◌++◌, length, take}
use iron_ledger.Device.{SimDevice, contains}
use iron_ledger.Device.World.{Event, wrote, acked, acks}
use iron_ledger.Ledger.Modes.{LedgerOptions, SubmitStatus, ok}
use iron_ledger.Ledger.Transfer.{Transfer}
use iron_ledger.Ledger.Submit.{Ledger, set_ack_sink, submit, commit}
use iron_ledger.CrashSim.{open_fresh}

-- `ledger.Submit(w.Next()) == SubmitStatus::kOk`
abbrev pub is_ok : SubmitStatus → Bool
is_ok ok = true
is_ok _ = false

-- The loop of `main` and what follows it; `Die` ends the process when a transfer is rejected.
unfoldable pub work : List Transfer → Ledger → Ledger
work [] l = commit l
work (t ∷ ts) l = let (l', st) = submit t l in elim (is_ok st) [ true ↦ work ts l' | false ↦ l' ]

-- `main` on the transfers of its stream: the file is truncated, and `EmitAck` is the sink.
unfoldable pub kill_worker : LedgerOptions → List Transfer → Ledger
kill_worker opts ts = work ts (set_ack_sink (open_fresh opts))

-- What the file holds after the calls of a trace: SIGKILL does not lose what was written.
abbrev pub contents : List Event → List ℕ
contents [] = []
contents (wrote d ∷ es) = d.volatile
contents (acked k d ∷ es) = contents es

-- What is left when the process is killed in a run with this trace: an image of the file and the
-- keys that the driver has received, all of which were emitted before.
pub data Killed (trace : List Event) : List ℕ → List ℕ → Type 0 where
  -- between two calls
  between :
      (later es : List Event) (keys : List ℕ)
      → trace ≡ later ++ es
      → ((k : ℕ) → contains k keys ≡ true → contains k (acks es) ≡ true)
      → Killed trace (contents es) keys
  -- in the loop of a `WriteAt`, all of which append: what is there is a beginning of what it leaves
  in_write :
      (later es : List Event) (d : SimDevice) (n : ℕ) (keys : List ℕ)
      → trace ≡ later ++ wrote d ∷ es
      → length (contents es) ≤ n
      → ((k : ℕ) → contains k keys ≡ true → contains k (acks es) ≡ true)
      → Killed trace (take n d.volatile) keys
