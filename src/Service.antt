-- ===== src/Service.antt =====
-- What the servers on top of Raft share (src/kvraft, src/shardctrler and src/shardkv): the
-- detection of repeated requests, and the channels on which RPC handlers wait; and the calls of the clients.
pub mod Requests
pub mod WaitChs
pub mod Calls
