-- ===== src/ShardCtrler.antt =====
-- The shard controller (src/shardctrler: server.go, client.go and common.go): its configurations, the placement of
-- shards on groups, and the replicated operations.
pub mod Defs
pub mod Rebalance
pub mod Apply
pub mod Clerk
mod Tests
mod ClerkTests
