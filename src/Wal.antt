-- ===== src/Wal.antt =====
-- src/wal.rs: the write-ahead log.
pub mod Operations
pub mod Serialize
pub mod Laws
pub mod Ends
