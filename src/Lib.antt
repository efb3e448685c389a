-- ===== src/Lib.antt =====
-- The distributed system of this repository as a model: the Raft consensus module (src/raft), and the
-- three services that run over it, the key/value server (src/kvraft), the shard controller
-- (src/shardctrler) and the sharded key/value server (src/shardkv), with their clients; and, apart from
-- these, MapReduce (src/mr): the coordinator, the work of a worker, and the sequential program.
--
-- How the parts interact. A service hands an operation to its Raft peer by Start, waits on a channel for
-- the index it got, and applies what the peer delivers on its apply channel, in log order, on every
-- server. A peer talks to the others by RequestVote, AppendEntries and InstallSnapshot, and to its
-- persister, from which Make restores it. A service hands its snapshots to Raft, and gets those of a
-- leader back through the apply channel. A sharded server fetches one configuration after another from the
-- shard controller, and its groups hand shards over by Pull and Leave: the new owner pulls a shard and
-- then tells the old one to delete it.
--
-- Which file models which code:
-- - Prelude: tests on numbers, lists over native numbers, Go's int (pos and negsuc, so that -1 is
--   `minus_one`), and Outcome: `fatal` is a log.Fatalf or a run-time panic, which ends the process.
-- - Assoc: Go maps as association lists. Gob: one encoder and decoder as a parameter, with its round-trip
--   law, for src/labgob; Gob/Samples has small ones for the tests.
-- - Raft/State, Raft/Log, Raft/Persist, Raft/Make: the Raft struct with RaftState.go and persister.go, the
--   getters on the log, persist and readPersist, Make. Raft/Vote: RequestVote, the election and its
--   replies. Raft/Append: AppendEntries. Raft/Snapshot: Snapshot, InstallSnapshot, CondInstallSnapshot.
--   Raft/Leader: Start, the senders and the handling of their replies. Raft/Commit:
--   tryIncrementCommitIndex and applyLoop. Raft/Step has all of them as steps of one peer.
-- - Raft/Log/Laws, Raft/Persist/RoundTrip, Raft/Vote/Rules, Raft/Append/Merge, Check, Handler and
--   Conflict, Raft/Commit/Rule, Delivery and Race, Raft/Evolve, Raft/Durable, Raft/Safety and Raft/Crash
--   hold proofs.
-- - Service/Requests: latestAppliedRequest; Service/WaitChs: waitChs. All services use them.
-- - KvRaft/Defs and KvRaft/Apply: src/kvraft/server.go. KvRaft/Apply/Refinement, Once, Replay and Reply
--   hold proofs.
-- - ShardCtrler/Defs, ShardCtrler/Rebalance and ShardCtrler/Apply: src/shardctrler/server.go.
--   ShardCtrler/Rebalance/Counts, Balance, Holding, Owners, Sums, Initial and Join, and
--   ShardCtrler/Apply/History and Progress, hold proofs.
-- - ShardKv/Keys: key2shard of src/shardkv/client.go. ShardKv/Defs, Apply, Server and Transfer:
--   src/shardkv/server.go, common.go and server_shard_transfer.go; Transfer has Pull, Leave and one round
--   of each of the goroutines pullShard, sendLeave and fetchNextConfig. ShardKv/Apply/Serve, Statuses,
--   Moves, Moving and Configs, and ShardKv/Invariant, Tasks, Handover, Migration and Restart, hold proofs;
--   ShardKv/Samples has states for the tests.
-- - Service/Calls, KvRaft/Clerk, ShardCtrler/Clerk and ShardKv/Clerk: the clients, client.go of each
--   service; KvRaft/Clerk/Retry, ShardCtrler/Clerk/Query and Change, and ShardKv/Clerk/Servers and Retry,
--   hold proofs.
-- - KvRaft/Model: KvModel of src/models/kv.go; KvRaft/Model/Accepted holds proofs.
-- - Mr/Coordinator: src/mr/coordinator.go, each handler by itself; Mr/Coordinator/Steps has them as they
--   interleave, and Mr/Coordinator/Finished, Scans, Truth, Phases, Race, Rounds and Alone hold proofs.
--   Mr/Worker: the tasks of src/mr/worker.go, and src/main/mrsequential.go; Mr/Worker/Order is the order
--   by which they sort, Mr/Worker/Grouping, Buckets and Equivalence hold proofs, and Mr/Worker/Samples has
--   a sort and an encoder for the tests. Mr/Turns: the loop of a worker against the coordinator;
--   Mr/Turns/Progress and Finish hold proofs. Mr/WordCount: src/mrapps/wc.go, with proofs.
--
-- Atomicity. The lock of raft.go is exclusive, so a handler is one step. Where the code gives the lock up
-- in between, the model has one definition for each part: fetch_batch and finish_batch of applyLoop,
-- heartbeat_request and handle_heartbeat_reply, vote_request and handle_vote_reply, begin_request and
-- finish_request of a service handler around its select. A report to the MapReduce coordinator holds the
-- lock of its own task only, so it sets the phase, looks at each task and writes the flag in steps of its
-- own; asking for a task is one step, as is a checker after its sleep. A reply may come late or never,
-- since a step may take any reply.
--
-- Numbers. Terms, indices, group ids and client ids are natural numbers; what the code compares with -1 or
-- reads from a client as an int is an integer. Machine words are taken as unbounded. The loop of a JOIN
-- runs on fuel, one more than the sum of the squares of the group sizes, which falls in every round; the
-- sweep of tryIncrementCommitIndex runs on the length of the log, since its index grows in every round up
-- to that length. The retry loops of the clients run on fuel, which their theorems show to be enough once
-- a server answers; the loop of Query counts its five rounds. A worker reads a file on fuel, one more than
-- its length, since a value takes a byte at least, and groups a sorted list on fuel, its length, since a
-- round takes an element. Every other loop is structural recursion over a list or a number that the code
-- counts down.
--
-- Not modelled: timers and sleeps, the network and its RPC library, the input files of a MapReduce worker,
-- the loading of its plugins, and the test harnesses with their linearizability checker. Raft is seen by
-- the services through arguments: the results of GetState, Start and RaftStateSize, and the messages of
-- the apply channel. The replies that a client gets are a function of the call; so are, for a sharded
-- server, the replies of other groups to Pull and Leave, and of the controller to Query. The goroutines
-- pullShard and sendLeave of a sharded server that run are a list in its state: applyLoop adds to it, and
-- one that leaves its loop is taken out. The hash function, the JSON encoder and the sorting of Go's
-- library are parameters.
mod Prelude
pub mod Assoc
pub mod Gob
pub mod Raft
pub mod Service
pub mod KvRaft
pub mod ShardCtrler
pub mod Mr
pub mod ShardKv
