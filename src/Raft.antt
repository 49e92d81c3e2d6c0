-- ===== src/Raft.antt =====
-- internal/store/raft: the storage of a Raft log over the write-ahead log.
pub mod Log
pub mod Recovery
pub mod Compact
pub mod Barrier
pub mod Guard
pub mod State
pub mod Snapshot
mod Tests
mod Elements
