-- ===== src/ShardKv.antt =====
-- The sharded key/value service (src/shardkv): groups of servers that take over shards from each other
-- when the shard controller changes the configuration.
pub mod Defs
pub mod Keys
pub mod Apply
pub mod Server
pub mod Transfer
pub mod Clerk
pub mod Invariant
pub mod Tasks
pub mod Handover
pub mod Migration
pub mod Restart
mod Samples
mod Tests
mod RestartTests
mod ClerkTests
