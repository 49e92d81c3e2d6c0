-- ===== src/Wal.antt =====
-- internal/store/wal: the write-ahead log.
pub mod Record
pub mod Pack
pub mod Recovery
mod Tests
