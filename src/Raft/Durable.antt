-- ===== src/Raft/Durable.antt =====
-- The persisted bytes are those of the current term, vote and log after every operation but the two
-- that save a snapshot.
use mit_distributed_system.Prelude.{
  ℕ, ◌≡◌, refl, arith, ok, Bool, Option, none, some, List, [], OnOk,
}
use mit_distributed_system.Gob.{Bytes}
use mit_distributed_system.Raft.State.{Raft, LogEntry}
use mit_distributed_system.Raft.Persist.{Codec, persist, read_persist, persistent_state}
use mit_distributed_system.Raft.Vote.{
  RequestVoteArgs, RequestVoteReply, consider_vote, is_newer_than_me, request_vote, step_down,
  do_election, handle_vote_reply,
}
use mit_distributed_system.Raft.Append.{
  AppendEntriesArgs, AppendEntriesReply, store_entries, accept_entries, check_previous,
  answer_leader, meet_leader, append_entries, advance_commit,
}
use mit_distributed_system.Raft.Snapshot.{InstallSnapshotArgs, save_snapshot}
use mit_distributed_system.Raft.Leader.{
  Request, start, raise_match, retry_from, handle_append_reply, handle_snapshot_reply,
  handle_heartbeat_reply,
}
use mit_distributed_system.Raft.Commit.{commit_round}

module _ {C : Type 0} (codec : Codec C) where
  -- A crash loses nothing: the persisted state is the encoding of the current one.
  abbrev pub IsSaved : Raft C → Type 0
  IsSaved rf = rf.persister.raftstate ≡ persistent_state codec rf

  consider_vote-Saves :
      (rf : Raft C) (args : RequestVoteArgs) {rf' : Raft C} {reply : RequestVoteReply}
      → consider_vote codec rf args ≡ ok (rf', reply)
      → IsSaved rf
      → IsSaved rf'
  unfolding consider_vote is_newer_than_me persist persistent_state
  consider_vote-Saves rf args h s = ground arith

  pub request_vote-Saves :
      (rf : Raft C) (args : RequestVoteArgs) {rf' : Raft C} {reply : RequestVoteReply}
      → request_vote codec rf args ≡ ok (rf', reply)
      → IsSaved rf
      → IsSaved rf'
  unfolding request_vote persist persistent_state
  request_vote-Saves rf args h s =
      ground (
        arith,
        consider_vote-Saves rf args,
        consider_vote-Saves (step_down codec rf args.term) args,
      )

  pub do_election-Saves : (rf : Raft C) → IsSaved (do_election codec rf)
  unfolding do_election persist persistent_state
  do_election-Saves rf = refl

  pub handle_vote_reply-Saves :
      (rf : Raft C) (this_term votes : ℕ) (reply : RequestVoteReply)
      → IsSaved rf
      → IsSaved (handle_vote_reply codec rf this_term votes reply).0
  unfolding handle_vote_reply persist persistent_state
  handle_vote_reply-Saves rf this_term votes reply s = ground arith

  meet_leader-Saves : (rf : Raft C) (term : ℕ) → IsSaved rf → IsSaved (meet_leader codec rf term)
  unfolding meet_leader persist persistent_state
  meet_leader-Saves rf term s = ground arith

  store_entries-Saves :
      (rf : Raft C) (prev : ℕ) (es : Option (List (LogEntry C)))
      → IsSaved rf
      → OnOk (store_entries codec rf prev es) IsSaved
  unfolding store_entries persist persistent_state
  store_entries-Saves rf prev none s = s
  store_entries-Saves rf prev (some es) s = ground arith

  answer_leader-Saves :
      (rf : Raft C) (args : AppendEntriesArgs C)
      → IsSaved rf
      → OnOk (answer_leader codec rf args) (λ answer. IsSaved answer.0)
  unfolding answer_leader check_previous accept_entries advance_commit persistent_state
  answer_leader-Saves rf args s =
      ground (arith, store_entries-Saves rf args.prev_log_index args.entries)

  pub append_entries-Saves :
      (rf : Raft C) (args : AppendEntriesArgs C) {rf' : Raft C} {reply : AppendEntriesReply}
      → append_entries codec rf args ≡ ok (rf', reply)
      → IsSaved rf
      → IsSaved rf'
  unfolding append_entries
  append_entries-Saves rf args h s = ground (
    arith,
    answer_leader-Saves (meet_leader codec rf args.term) args (meet_leader-Saves rf args.term s),
  )

  pub start-Saves :
      (rf : Raft C) (command : C) {rf' : Raft C} {answer : ℕ × ℕ × Bool}
      → start codec rf command ≡ ok (some (rf', answer))
      → IsSaved rf
      → IsSaved rf'
  unfolding start persist persistent_state
  start-Saves rf command h s = ground arith

  raise_match-Saves :
      (rf : Raft C) (to matched : ℕ) {rf' : Raft C}
      → raise_match rf to matched ≡ ok rf'
      → IsSaved rf
      → IsSaved rf'
  unfolding raise_match persistent_state
  raise_match-Saves rf to matched h s = ground arith

  pub handle_append_reply-Saves :
      (rf : Raft C) (to : ℕ) (args : AppendEntriesArgs C) (reply : AppendEntriesReply)
      {rf' : Raft C} {next : Option (Request C)}
      → handle_append_reply codec rf to args reply ≡ ok (rf', next)
      → IsSaved rf
      → IsSaved rf'
  unfolding handle_append_reply retry_from raise_match persist persistent_state
  handle_append_reply-Saves rf to args reply h s = ground arith

  pub handle_snapshot_reply-Saves :
      (rf : Raft C) (to : ℕ) (args : InstallSnapshotArgs) (term : ℕ) {rf' : Raft C}
      {next : Option (Request C)}
      → handle_snapshot_reply codec rf to args term ≡ ok (rf', next)
      → IsSaved rf
      → IsSaved rf'
  unfolding handle_snapshot_reply persist persistent_state
  handle_snapshot_reply-Saves rf to args term h s = ground arith

  pub handle_heartbeat_reply-Saves :
      (rf : Raft C) (from : ℕ) (args : AppendEntriesArgs C) (reply : AppendEntriesReply)
      {rf' : Raft C}
      → handle_heartbeat_reply codec rf from args reply ≡ ok rf'
      → IsSaved rf
      → IsSaved rf'
  unfolding handle_heartbeat_reply raise_match persist persistent_state
  handle_heartbeat_reply-Saves rf from args reply h s = ground arith

  pub commit_round-Saves :
      (rf : Raft C) (this_term i : ℕ) {rf' : Raft C} {next : ℕ}
      → commit_round rf this_term i ≡ ok (rf', next)
      → IsSaved rf
      → IsSaved rf'
  unfolding commit_round persistent_state
  commit_round-Saves rf this_term i h s = ground arith

  -- A snapshot that is saved wipes the persisted state.
  pub save_snapshot-wipes :
      (rf : Raft C) (snapshot : Bytes)
      → OnOk
          (save_snapshot codec rf snapshot)
          (λ rf'. rf'.persister ≡ record { raftstate = []; snapshot = snapshot })
  unfolding save_snapshot read_persist
  save_snapshot-wipes rf snapshot = refl
