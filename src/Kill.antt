-- ===== src/Kill.antt =====
-- tools/kill_worker.cpp, `EmitAck`, and tools/kill_driver.cpp, `Drain`: the two ends of the pipe of
-- acknowledgements. What the system calls answer is a parameter, the list of the answers in the
-- order of the calls.
pub mod Emit
pub mod Worker
pub mod Verdict
pub mod Left
pub mod Survives
pub mod Replayed
pub mod Passes
pub mod CommandLine
pub mod WorkerMain
pub mod Driver
pub mod DriverLoops
pub mod DriverArgs
pub mod DriverExit
pub mod Paths
pub mod Drained
pub mod Watch
pub mod Watched
pub mod Heard
pub mod Child
mod Tests
use iron_ledger.Common.{
  ℕ, zero, suc, ◌+◌, Bool, true, false, List, [], ◌∷◌, ◌++◌, leb, length, take, drop,
}
use iron_ledger.Wal.Codec.{put_u64}
use iron_ledger.Ledger.Transfer.{read_u64}

-- ::write: a number of bytes written, an EINTR, another error.
pub data WriteAnswer : Type 0 where
  wrote : ℕ → WriteAnswer
  write_interrupted write_failed : WriteAnswer

-- How a call ends: with a return, with _exit(3), or it is still waiting for an answer.
pub data EmitEnd : Type 0 where
  returned died waiting : EmitEnd

-- The loop of `EmitAck`, on the bytes from `off` on and what the pipe holds.
unfoldable pub emit_loop : List WriteAnswer → List ℕ → List ℕ → EmitEnd × List ℕ
emit_loop ws [] pipe = (returned, pipe)
emit_loop [] (b ∷ bs) pipe = (waiting, pipe)
emit_loop (wrote n ∷ ws) (b ∷ bs) pipe = emit_loop ws (drop n (b ∷ bs)) (pipe ++ take n (b ∷ bs))
emit_loop (write_interrupted ∷ ws) (b ∷ bs) pipe = emit_loop ws (b ∷ bs) pipe
emit_loop (write_failed ∷ ws) (b ∷ bs) pipe = (died, pipe)

-- EmitAck. Its first loop is that of `PutU64` in wal.cpp.
unfoldable pub emit_ack : List WriteAnswer → ℕ → List ℕ → EmitEnd × List ℕ
emit_ack ws key pipe = emit_loop ws (put_u64 key) pipe

-- ::read: one byte and more, the end of the pipe, an EINTR, another error.
pub data ReadAnswer : Type 0 where
  got : ℕ → List ℕ → ReadAnswer
  closed read_interrupted read_failed : ReadAnswer

-- The inner loop of `Drain`: whole keys are moved from the carry to `acked`. Its key is read as
-- `GetU64` of ledger.cpp reads it. Each round but the last takes eight bytes.
unfoldable pub split_keys : ℕ → List ℕ → List ℕ → List ℕ × List ℕ
split_keys zero carry acked = (carry, acked)
split_keys (suc fuel) carry acked = elim (leb 8 (length carry)) [
  | true ↦ split_keys fuel (drop 8 carry) (acked ++ read_u64 carry ∷ [])
  | false ↦ (carry, acked)
]

-- Drain: the carry and the keys when it returns, or when the answers are used up.
unfoldable pub drain : List ReadAnswer → List ℕ → List ℕ → List ℕ × List ℕ
drain [] carry acked = (carry, acked)
drain (got b bs ∷ rs) carry acked =
    let bytes = carry ++ b ∷ bs in
    let (carry', acked') = split_keys (length bytes) bytes acked in drain rs carry' acked'
drain (closed ∷ rs) carry acked = (carry, acked)
drain (read_interrupted ∷ rs) carry acked = drain rs carry acked
drain (read_failed ∷ rs) carry acked = (carry, acked)
