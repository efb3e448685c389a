-- ===== src/Raft/Step.antt =====
-- A peer of src/raft/raft.go as a transition system: one step is one operation that returned, run
-- with the locks that the code takes, in any order and at any time.
use mit_distributed_system.Prelude.{ℕ, ◌≡◌, Bool, Option, some, List, ok}
use mit_distributed_system.Gob.{Bytes}
use mit_distributed_system.Raft.State.{Raft, LogEntry}
use mit_distributed_system.Raft.Persist.{Codec}
use mit_distributed_system.Raft.Vote.{
  RequestVoteArgs, RequestVoteReply, request_vote, do_election, election_timeout, handle_vote_reply,
  timer_tick,
}
use mit_distributed_system.Raft.Append.{AppendEntriesArgs, AppendEntriesReply, append_entries}
use mit_distributed_system.Raft.Snapshot.{InstallSnapshotArgs, take_snapshot, install_snapshot}
use mit_distributed_system.Raft.Leader.{
  Request, start, leader_init, kill, handle_append_reply, handle_snapshot_reply,
  handle_heartbeat_reply,
}
use mit_distributed_system.Raft.Commit.{commit_round, finish_batch, take_notification}

module _ {C : Type 0} (codec : Codec C) where
  -- The operations that save no snapshot.
  pub data PlainStep (rf rf' : Raft C) : Type 0 where
    vote_requested :
        (args : RequestVoteArgs) (reply : RequestVoteReply)
        → request_vote codec rf args ≡ ok (rf', reply)
        → PlainStep rf rf'
    vote_replied :
        (this_term votes : ℕ) (reply : RequestVoteReply)
        → rf' ≡ (handle_vote_reply codec rf this_term votes reply).0
        → PlainStep rf rf'
    timer_ticked : rf' ≡ timer_tick codec rf → PlainStep rf rf'
    election_timed_out : rf' ≡ election_timeout codec rf → PlainStep rf rf'
    election_began : rf' ≡ do_election codec rf → PlainStep rf rf'
    lead_began : rf' ≡ leader_init rf → PlainStep rf rf'
    entries_received :
        (args : AppendEntriesArgs C) (reply : AppendEntriesReply)
        → append_entries codec rf args ≡ ok (rf', reply)
        → PlainStep rf rf'
    command_started :
        (command : C) (answer : ℕ × ℕ × Bool)
        → start codec rf command ≡ ok (some (rf', answer))
        → PlainStep rf rf'
    append_replied :
        (to : ℕ) (args : AppendEntriesArgs C) (reply : AppendEntriesReply)
        (next : Option (Request C))
        → handle_append_reply codec rf to args reply ≡ ok (rf', next)
        → PlainStep rf rf'
    snapshot_replied :
        (to : ℕ) (args : InstallSnapshotArgs) (term : ℕ) (next : Option (Request C))
        → handle_snapshot_reply codec rf to args term ≡ ok (rf', next)
        → PlainStep rf rf'
    heartbeat_replied :
        (from : ℕ) (args : AppendEntriesArgs C) (reply : AppendEntriesReply)
        → handle_heartbeat_reply codec rf from args reply ≡ ok rf'
        → PlainStep rf rf'
    commit_tried :
        (this_term i next : ℕ) → commit_round rf this_term i ≡ ok (rf', next) → PlainStep rf rf'
    notified : rf' ≡ take_notification rf → PlainStep rf rf'
    batch_finished :
        (next_applied : ℕ) (entries : List (LogEntry C))
        → rf' ≡ finish_batch rf next_applied entries
        → PlainStep rf rf'
    killed : rf' ≡ kill rf → PlainStep rf rf'

  pub data Step (rf rf' : Raft C) : Type 0 where
    plain : PlainStep rf rf' → Step rf rf'
    snapshot_taken :
        (index : ℕ) (snapshot : Bytes)
        → take_snapshot codec rf index snapshot ≡ ok rf'
        → Step rf rf'
    snapshot_received :
        (args : InstallSnapshotArgs) (term : ℕ)
        → install_snapshot codec rf args ≡ ok (rf', term)
        → Step rf rf'

  -- Any number of steps.
  pub data PlainRun (rf : Raft C) : Raft C → Type 0 where
    here : PlainRun rf rf
    next : {a b : Raft C} → PlainRun rf a → PlainStep a b → PlainRun rf b

  pub data Run (rf : Raft C) : Raft C → Type 0 where
    here : Run rf rf
    next : {a b : Raft C} → Run rf a → Step a b → Run rf b
