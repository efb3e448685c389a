-- ===== src/Raft/Evolve.antt =====
-- What every operation of a peer keeps: the term does not fall, and a vote is not changed in its
-- term.
use mit_distributed_system.Prelude.{
  ℕ, suc, ◌≤◌, ◌≡◌, ◌≢◌, refl, arith, ok, pos, minus_one, ==ℤ_iff, Bool, Option, none, some, List,
  [], ◌∷◌, ◌∙◌, ◌+◌, OnOk, OnOk-bind, OnOk-mono,
}
use mit_distributed_system.Gob.{Bytes}
use mit_distributed_system.Raft.State.{Raft, LogEntry}
use mit_distributed_system.Raft.Persist.{Codec, persist, read_persist}
use mit_distributed_system.Raft.Vote.{
  RequestVoteArgs, RequestVoteReply, consider_vote, is_newer_than_me, request_vote, step_down,
  do_election, election_timeout, handle_vote_reply,
}
use mit_distributed_system.Raft.Append.{
  AppendEntriesArgs, AppendEntriesReply, place_entry, copy_entries, store_entries, accept_entries,
  check_previous, answer_leader, meet_leader, append_entries, advance_commit,
}
use mit_distributed_system.Raft.Snapshot.{
  InstallSnapshotArgs, save_snapshot, take_snapshot, install_snapshot,
}
use mit_distributed_system.Raft.Leader.{
  Request, start, raise_match, retry_from, handle_append_reply, handle_snapshot_reply,
  handle_heartbeat_reply,
}
use mit_distributed_system.Raft.Commit.{commit_round}

pub record Evolves {C : Type 0} (rf rf' : Raft C) : Type 0 where
  pub term_grows : rf.current_term ≤ rf'.current_term
  pub vote_kept :
      rf.current_term ≡ rf'.current_term → rf.voted_for ≢ minus_one → rf'.voted_for ≡ rf.voted_for

module _ {C : Type 0} (codec : Codec C) where
  consider_vote-Evolves :
      (rf : Raft C) (args : RequestVoteArgs) {rf' : Raft C} {reply : RequestVoteReply}
      → consider_vote codec rf args ≡ ok (rf', reply)
      → Evolves rf rf'
  unfolding consider_vote is_newer_than_me persist
  consider_vote-Evolves rf args h = record {
    term_grows = ground arith;
    vote_kept = λ e n.
        ground
          (arith, ==ℤ_iff rf.voted_for minus_one, ==ℤ_iff rf.voted_for (pos args.candidate_id));
  }

  pub request_vote-Evolves :
      (rf : Raft C) (args : RequestVoteArgs) {rf' : Raft C} {reply : RequestVoteReply}
      → request_vote codec rf args ≡ ok (rf', reply)
      → Evolves rf rf'
  unfolding request_vote persist
  request_vote-Evolves rf args h = ground (
    arith,
    consider_vote-Evolves rf args,
    consider_vote-Evolves (step_down codec rf args.term) args,
  )

  pub do_election-Evolves : (rf : Raft C) → Evolves rf (do_election codec rf)
  unfolding do_election persist
  do_election-Evolves rf = ground arith

  pub election_timeout-Evolves : (rf : Raft C) → Evolves rf (election_timeout codec rf)
  unfolding election_timeout
  election_timeout-Evolves rf = ground arith

  pub handle_vote_reply-Evolves :
      (rf : Raft C) (this_term votes : ℕ) (reply : RequestVoteReply)
      → Evolves rf (handle_vote_reply codec rf this_term votes reply).0
  unfolding handle_vote_reply persist
  handle_vote_reply-Evolves rf this_term votes reply = ground arith

  meet_leader-Evolves : (rf : Raft C) (term : ℕ) → Evolves rf (meet_leader codec rf term)
  unfolding meet_leader persist
  meet_leader-Evolves rf term = ground arith

  -- An operation that leaves the term and the vote alone.
  abbrev pub SameVote : Raft C → Raft C → Type 0
  SameVote rf rf' = (rf'.current_term ≡ rf.current_term) × (rf'.voted_for ≡ rf.voted_for)

  place_entry-SameVote :
      (rf : Raft C) (index : ℕ) (e : LogEntry C) → OnOk (place_entry rf index e) (SameVote rf)
  unfolding place_entry
  place_entry-SameVote rf index e = ground arith

  copy_entries-SameVote :
      (rf : Raft C) (index : ℕ) (es : List (LogEntry C))
      → OnOk (copy_entries rf index es) (SameVote rf)
  unfolding copy_entries
  copy_entries-SameVote rf index [] = (refl, refl)
  copy_entries-SameVote rf index (e ∷ es) =
      OnOk-bind (SameVote rf) (SameVote rf) (place_entry rf index e) _
        (place_entry-SameVote rf index e)
        λ rf1 first.
          OnOk-mono (SameVote rf1) (SameVote rf) (copy_entries rf1 (suc index) es)
            (copy_entries-SameVote rf1 (suc index) es)
            (λ rf2 rest. (rest.0 ∙ first.0, rest.1 ∙ first.1))

  store_entries-SameVote :
      (rf : Raft C) (prev : ℕ) (es : Option (List (LogEntry C)))
      → OnOk (store_entries codec rf prev es) (SameVote rf)
  unfolding store_entries persist
  store_entries-SameVote rf prev none = (refl, refl)
  store_entries-SameVote rf prev (some es) = ground (arith, copy_entries-SameVote rf (prev + 1) es)

  answer_leader-SameVote :
      (rf : Raft C) (args : AppendEntriesArgs C)
      → OnOk (answer_leader codec rf args) (λ answer. SameVote rf answer.0)
  unfolding answer_leader check_previous accept_entries advance_commit
  answer_leader-SameVote rf args =
      ground (arith, store_entries-SameVote rf args.prev_log_index args.entries)

  pub append_entries-Evolves :
      (rf : Raft C) (args : AppendEntriesArgs C) {rf' : Raft C} {reply : AppendEntriesReply}
      → append_entries codec rf args ≡ ok (rf', reply)
      → Evolves rf rf'
  unfolding append_entries
  append_entries-Evolves rf args h = ground (
    arith,
    meet_leader-Evolves rf args.term,
    answer_leader-SameVote (meet_leader codec rf args.term) args,
  )

  save_snapshot-SameVote :
      (rf : Raft C) (snapshot : Bytes) {rf' : Raft C}
      → save_snapshot codec rf snapshot ≡ ok rf'
      → SameVote rf rf'
  unfolding save_snapshot persist read_persist
  save_snapshot-SameVote rf snapshot h = ground arith

  pub take_snapshot-SameVote :
      (rf : Raft C) (index : ℕ) (snapshot : Bytes) {rf' : Raft C}
      → take_snapshot codec rf index snapshot ≡ ok rf'
      → SameVote rf rf'
  unfolding take_snapshot save_snapshot persist read_persist
  take_snapshot-SameVote rf index snapshot h = ground arith

  pub install_snapshot-Evolves :
      (rf : Raft C) (args : InstallSnapshotArgs) {rf' : Raft C} {term : ℕ}
      → install_snapshot codec rf args ≡ ok (rf', term)
      → Evolves rf rf'
  unfolding install_snapshot save_snapshot persist read_persist
  install_snapshot-Evolves rf args h = ground arith

  pub start-SameVote :
      (rf : Raft C) (command : C) {rf' : Raft C} {answer : ℕ × ℕ × Bool}
      → start codec rf command ≡ ok (some (rf', answer))
      → SameVote rf rf'
  unfolding start persist
  start-SameVote rf command h = ground arith

  raise_match-SameVote :
      (rf : Raft C) (to matched : ℕ) {rf' : Raft C}
      → raise_match rf to matched ≡ ok rf'
      → SameVote rf rf'
  unfolding raise_match
  raise_match-SameVote rf to matched h = ground arith

  pub handle_append_reply-Evolves :
      (rf : Raft C) (to : ℕ) (args : AppendEntriesArgs C) (reply : AppendEntriesReply)
      {rf' : Raft C} {next : Option (Request C)}
      → handle_append_reply codec rf to args reply ≡ ok (rf', next)
      → Evolves rf rf'
  unfolding handle_append_reply retry_from raise_match persist
  handle_append_reply-Evolves rf to args reply h = ground arith

  pub handle_snapshot_reply-Evolves :
      (rf : Raft C) (to : ℕ) (args : InstallSnapshotArgs) (term : ℕ) {rf' : Raft C}
      {next : Option (Request C)}
      → handle_snapshot_reply codec rf to args term ≡ ok (rf', next)
      → Evolves rf rf'
  unfolding handle_snapshot_reply persist
  handle_snapshot_reply-Evolves rf to args term h = ground arith

  pub handle_heartbeat_reply-Evolves :
      (rf : Raft C) (from : ℕ) (args : AppendEntriesArgs C) (reply : AppendEntriesReply)
      {rf' : Raft C}
      → handle_heartbeat_reply codec rf from args reply ≡ ok rf'
      → Evolves rf rf'
  unfolding handle_heartbeat_reply raise_match persist
  handle_heartbeat_reply-Evolves rf from args reply h = ground arith

  pub commit_round-SameVote :
      (rf : Raft C) (this_term i : ℕ) {rf' : Raft C} {next : ℕ}
      → commit_round rf this_term i ≡ ok (rf', next)
      → SameVote rf rf'
  unfolding commit_round
  commit_round-SameVote rf this_term i h = ground arith
