-- ===== src/KvRaft.antt =====
-- The key/value service of src/kvraft: server.go, client.go and common.go, and the specification of src/models/kv.go, over the interface of a Raft
-- peer.
pub mod Defs
pub mod Apply
pub mod Clerk
pub mod Model
mod Tests
mod ClerkTests
