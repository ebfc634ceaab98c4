-- ===== src/Ledger.antt =====
-- ledger.h and ledger.cpp: the double-entry ledger, event-sourced onto the log.
pub mod Transfer
pub mod Modes
pub mod Book
pub mod Recovery
pub mod Submit
pub mod Bank
mod Tests
