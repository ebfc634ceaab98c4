-- ===== src/Lib.antt =====
-- Iron-Ledger: a double-entry ledger, event-sourced onto a write-ahead log, over a device that can
-- lose power.
--
-- The program's parts and the files that model them:
--   src/crc32c.cpp: Crc (`crc32c`), with the table built as the source builds it. Crc/Bounds,
--     Crc/Compose and Crc/Detect prove its laws, Bits those of xor and shifts.
--   src/device.cpp, class SimDevice: Device (`write_at`, `read_at`, `sync`, `power_cut`). An image
--     is a list of numbers, the set of dirty sectors its ascending list. The post-write hook and the
--     ledger's ack sink are code of the caller: Device/World records their calls in one trace, each
--     with the device that it sees, so that the power can go inside each of them.
--     Device/Region, Write, Consistent and PowerCut are about the bytes of the images.
--   src/device.cpp, class FileDevice: FileDevice, with the kernel's calls as a parameter, and
--     FileDevice/WriteLoop and ReadLoop about its WriteAt and ReadAt.
--   src/wal.cpp: Wal/Codec (PutU32 to GetU64), Wal/Record (FillHeader, EncodeRecord), Wal/Writer
--     (LogWriter) and Wal/Scan (ScanLog). Wal/Scan/Run tells how the loop ends, Holds what it does
--     with a record, Local which bytes a round depends on, Visits what it does to the state.
--   src/ledger.cpp: Ledger/Modes (the enums, the options and their names), Ledger/Transfer
--     (EncodeTransfer, DecodeTransfer), Ledger/Book (Validate, Apply and the queries),
--     Ledger/Recovery (the constructor's visitor and scan) and Ledger/Submit (the class Ledger:
--     Submit, Commit, SyncNow, AckPending). Ledger/Submit/Log and Durable say what the log of a
--     list of transfers recovers to and what a power cut leaves of it; Backed, Settle and Perform
--     show the invariant of the durable modes; Life is the step relation of a ledger over a device
--     that loses power again and again; Counts, Batches and Budget are about the calls of Sync,
--     Booked about the book. Ledger/Book/Complete tells what Validate accepts, Ledger/Transfer/Frames
--     compares the type of the transfers with that of the payloads. Ledger/Bank is an abstract
--     specification, a bank without log and containers, and Ledger/Bank/Refines its refinement.
--     Pieces and Truncated are about a log that is cut off anywhere; Logged, Logging and Acked, for
--     any mode, about what the device, the buffer and the trace hold; Reopen and Answered about
--     what a Commit achieves.
--   tools/kill_worker.cpp, EmitAck, and tools/kill_driver.cpp, Drain: Kill, with the answers of
--     the system calls as a list. Kill/Emit is about the one end of the pipe, Kill/Drained about
--     the other. Kill/Worker is the main of the worker and what SIGKILL leaves of it, Kill/Verdict
--     the part of the driver that judges that, Kill/Left, Survives, Replayed and Passes are about
--     the two, Kill/Watch is the part before the recovery, Kill/Child its beginning and the child
--     up to execv, Watched and Heard are about the way of a key from the sink through the pipe to
--     the verdict, and Kill/CommandLine is about the arguments that the driver passes to the
--     worker.
--     Kill/WorkerMain is the main function of the worker, Kill/Driver that of the driver with its
--     command line and paths; Kill/DriverArgs, DriverLoops, DriverExit and Paths are about them. The
--     file of the worker is the simulated device as a reader sees it; FileDevice/WriteLoop and
--     ReadLoop relate the file device to that.
--   tools/workload.h: Workload (PickLegs, PickAccounts, Next), with the engine as a parameter.
--     Workload/Legs, Accounts and Payment say what its parts return, Issue puts them together; Moves
--     and Accepted show that no ledger rejects the stream.
--   tools/crash_sim.cpp: CrashSim (RunTrial, CleanReplay) and CrashSim/Campaign (RunCampaign, the
--     selection of configurations and the exit code of main). The write at which the power is cut
--     is looked up in the trace of the whole run. CrashSim/Cut is about a trial, CrashSim/Totals
--     about the campaign, the workload that feeds it included. CrashSim/CommandLine is the main
--     function with its command line, ExitCode and ReplayHint are about it.
--   Conversions: the functions of the C library that the command lines use, as parameters.
--   Common holds what they share: Boolean tests, lists of bytes, integers and int64_t.
--
-- Integers: a uint32_t or uint64_t is a native natural number with its wrap-around written out; an
-- int64_t is an integer of Common/Int, whose unchecked additions wrap around in two's complement,
-- where the source would overflow. Offsets and the counters of the device and of the reports do
-- not wrap around. The random distributions of PowerCut are a parameter: what they return for each
-- sector, with the range that they document as a hypothesis. The probabilities and the draws are
-- compared only, so that natural numbers stand for the doubles.
--
-- Fuel: the loop of ScanLog runs on a count of rounds, one more than the device has bytes. An
-- accepted record has at least its header of 24 bytes, so that the loop ends before the count does.
-- The loops of FileDevice have a round for each byte and each interrupted call. The loop of
-- PickAccounts ends when the engine has drawn enough accounts: the theorems give a count of rounds
-- for an engine that does not repeat itself for ever.
--
-- The std::unordered_map of Validate is walked in the order of first insertion; Ledger/Book/Order is
-- about the others. A failed allocation and a throwing sink are not modelled, nor are, of tools/, the
-- output, the clock that decides when a worker is killed, the removal of the log files, and
-- tests/. That a pipe or fork fails, whether a file opens or is executable, what a C library
-- function reads, what is left of a killed worker, and in Kill/Driver the stream of a seed and a
-- number of accounts are parameters.
pub mod Common
pub mod Conversions
pub mod Bits
pub mod Crc
pub mod Device
pub mod Wal
pub mod Ledger
pub mod Kill
pub mod FileDevice
pub mod Workload
pub mod CrashSim
