-- ===== src/Raft/Leader.antt =====
-- The leader's side of replication in src/raft/raft.go: Start, the set-up in leaderMain, the requests
-- that sendAppendEntriesToAll and sendHeartbeatToAll build, and what their goroutines do with a reply
-- that arrived. A request that got no answer is sent again as it is (or dropped, for a heartbeat) and
-- changes no state.
use mit_distributed_system.Prelude.{
  ℕ, ◌+◌, ◌-◌, Bool, true, false, not, ◌||◌, Option, none, some, List, [], ◌∷◌, ◌++◌, ltb, leb,
  ◌==◌, if◌then◌else◌, Outcome, ok, fatal, ◌>>=◌, length, get_elem?, set, replicate,
}
use mit_distributed_system.Raft.State.{Raft, LogEntry, is_state, leader_state}
use mit_distributed_system.Raft.Log.{or_fatal, get_log_length, get_term_of_log, get_logs_from}
use mit_distributed_system.Raft.Persist.{Codec, persist}
use mit_distributed_system.Raft.Vote.{step_down}
use mit_distributed_system.Raft.Append.{AppendEntriesArgs, AppendEntriesReply}
use mit_distributed_system.Raft.Snapshot.{InstallSnapshotArgs}

-- xs[i] = v, which panics out of range
abbrev pub store : List ℕ → ℕ → ℕ → Outcome (List ℕ)
store xs i v = if ltb i (length xs) then ok (set xs i v) else fatal

-- What a goroutine sends to one peer.
pub data Request (C : Type 0) : Type 0 where
  append_request : AppendEntriesArgs C → Request C
  snapshot_request : InstallSnapshotArgs → Request C

module _ {C : Type 0} where
  abbrev pub is_leader : Raft C → Bool
  is_leader rf = is_state rf.raft_state leader_state

  unfoldable pub get_state : Raft C → ℕ × Bool
  get_state rf = (rf.current_term, is_leader rf)

  abbrev pub kill : Raft C → Raft C
  kill rf = record rf { dead = true }

  -- leaderMain up to leaderInitDone = true
  unfoldable pub leader_init : Raft C → Raft C
  leader_init rf = record rf {
    next_index = replicate rf.peers (get_log_length rf);
    match_index = replicate rf.peers 0;
    leader_init_done = true;
  }

  abbrev pub snapshot_args : Raft C → ℕ → InstallSnapshotArgs
  snapshot_args rf term = record {
    term = term;
    leader_id = rf.me;
    last_included_index = rf.last_included_index;
    last_included_term = rf.last_included_term;
    snapshot_data = rf.persister.snapshot;
  }

  -- AppendEntries with all entries from `next` on
  unfoldable pub append_args_from : Raft C → ℕ → ℕ → Outcome (AppendEntriesArgs C)
  append_args_from rf term next = do
    prev_log_term ← get_term_of_log rf (next - 1)
    entries ← get_logs_from rf next
    ok (record {
      term = term;
      leader_id = rf.me;
      entries = some entries;
      prev_log_index = next - 1;
      prev_log_term = prev_log_term;
      leader_commit = rf.commit_index;
    })

  -- lastIncludedIndex > nextIndex - 1 asks for the snapshot
  unfoldable pub request_from : Raft C → ℕ → ℕ → Outcome (Request C)
  unfolding append_args_from
  request_from rf term next =
      if leb next rf.last_included_index
      then ok (snapshot_request (snapshot_args rf term))
      else do args ← append_args_from rf term next; ok (append_request args)

  -- one round of sendAppendEntriesToAll: nothing for `me` and for a peer that is up to date
  unfoldable pub replication_request : Raft C → ℕ → ℕ → Outcome (Option (Request C))
  unfolding request_from
  replication_request rf this_term i = if i == rf.me then ok none else do
    next ← or_fatal (get_elem? rf.next_index i)
    if ltb next (get_log_length rf)
        then (do request ← request_from rf this_term next; ok (some request))
        else ok none

  -- one round of sendHeartbeatToAll
  unfoldable pub heartbeat_request : Raft C → ℕ → Outcome (AppendEntriesArgs C)
  heartbeat_request rf this_term = do
    prev_log_term ← get_term_of_log rf (get_log_length rf - 1)
    ok (record {
      term = this_term;
      leader_id = rf.me;
      entries = none;
      prev_log_index = get_log_length rf - 1;
      prev_log_term = prev_log_term;
      leader_commit = rf.commit_index;
    })

  -- matchIndex and nextIndex only grow
  unfoldable pub raise_match : Raft C → ℕ → ℕ → Outcome (Raft C)
  raise_match rf to matched = do
    old ← or_fatal (get_elem? rf.match_index to)
    if ltb old matched
        then (do
          match_index ← store rf.match_index to matched
          next_index ← store rf.next_index to (matched + 1)
          ok (record rf { match_index = match_index; next_index = next_index }))
        else ok rf

  abbrev pub entry_count : Option (List (LogEntry C)) → ℕ
  entry_count none = 0
  entry_count (some es) = length es

  -- the round's test before and after the call: the term of the request is over, or so is the lead
  abbrev pub is_stale : Raft C → ℕ → Bool
  is_stale rf term = not (rf.current_term == term) || not (is_leader rf)

module _ {C : Type 0} (codec : Codec C) where
  -- One pass of Start: `none` sleeps until leaderInitDone and tries again. Index, term, isLeader.
  unfoldable pub start : Raft C → C → Outcome (Option (Raft C × (ℕ × ℕ × Bool)))
  start rf command =
      if is_leader rf
      then if rf.leader_init_done
        then (do
          let rf1 = persist codec (record rf {
            log = rf.log ++ record { term = rf.current_term; command = some command } ∷ [];
          })
          match_index ← store rf.match_index rf.me (get_log_length rf1 - 1)
          next_index ← store rf.next_index rf.me (get_log_length rf1)
          ok (
              some (
                record rf1 { match_index = match_index; next_index = next_index },
                (get_log_length rf1 - 1, rf.current_term, true),
              )))
        else ok none
      else ok (some (rf, (get_log_length rf - 1, rf.current_term, false)))

  -- reply.Term > currentTerm
  abbrev pub step_down_if_newer : Raft C → ℕ → Raft C
  step_down_if_newer rf term = if ltb rf.current_term term then step_down codec rf term else rf

  -- What the goroutine does next: nothing, or another request.
  -- The branch of a refusal in the same term: back to the follower's hint, or to the snapshot.
  unfoldable pub retry_from :
      Raft C → ℕ → AppendEntriesArgs C → ℕ → Outcome (Raft C × Option (Request C))
  retry_from rf to args next =
      if next == 0
      then fatal
      else if leb next rf.last_included_index
      then ok (rf, some (snapshot_request (snapshot_args rf rf.current_term)))
      else do
        next_index ← store rf.next_index to next
        let rf' = record rf { next_index = next_index }
        prev_log_term ← get_term_of_log rf' (next - 1)
        entries ← get_logs_from rf' next
        ok (
          rf',
          some (
              append_request (record args {
                prev_log_index = next - 1;
                prev_log_term = prev_log_term;
                entries = some entries;
              })),
        )

  unfoldable pub handle_append_reply :
      Raft C → ℕ → AppendEntriesArgs C → AppendEntriesReply → Outcome (Raft C × Option (Request C))
  unfolding raise_match retry_from
  handle_append_reply rf to args reply =
      if is_stale rf args.term
      then ok (rf, none)
      else let rf1 = step_down_if_newer rf reply.term in
        if reply.success
        then (do
          rf2 ← raise_match rf1 to (args.prev_log_index + entry_count args.entries)
          ok (rf2, none))
        else if ltb rf.current_term reply.term
        then ok (rf1, none)
        else retry_from rf1 to args reply.next_retry_start_index

  -- A snapshot that was installed: the entries after it are sent next.
  unfoldable pub handle_snapshot_reply :
      Raft C → ℕ → InstallSnapshotArgs → ℕ → Outcome (Raft C × Option (Request C))
  unfolding request_from
  handle_snapshot_reply rf to args reply_term =
      if is_stale rf args.term
      then ok (rf, none)
      else if ltb rf.current_term reply_term
      then ok (step_down codec rf reply_term, none)
      else do
        match_index ← store rf.match_index to args.last_included_index
        next_index ← store rf.next_index to (args.last_included_index + 1)
        let rf' = record rf { match_index = match_index; next_index = next_index }
        request ← request_from rf' args.term (args.last_included_index + 1)
        ok (rf', some request)

  -- sendHeartbeatToAll's loop over the answers that arrived: the loop tests whether it goes on
  -- before it waits for an answer, and does not test again when the answer is there.
  unfoldable pub heartbeat_goes_on : Raft C → ℕ → Bool
  heartbeat_goes_on rf this_term = not (ltb this_term rf.current_term || not (is_leader rf))

  unfoldable pub handle_heartbeat_reply :
      Raft C → ℕ → AppendEntriesArgs C → AppendEntriesReply → Outcome (Raft C)
  unfolding raise_match
  handle_heartbeat_reply rf from args reply =
      let rf1 = step_down_if_newer rf reply.term in
      if reply.success then raise_match rf1 from args.prev_log_index else ok rf1
