-- ===== src/Raft.antt =====
-- The Raft consensus module (src/raft).
pub mod State
pub mod Log
pub mod Persist
pub mod Vote
pub mod Append
pub mod Snapshot
pub mod Leader
pub mod Commit
pub mod Make
pub mod Evolve
pub mod Durable
pub mod Step
pub mod Safety
pub mod Crash
mod Tests
