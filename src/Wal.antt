-- ===== src/Wal.antt =====
-- wal.h and wal.cpp: the write-ahead log.
pub mod Codec
pub mod Record
pub mod Writer
pub mod Scan
mod Tests
