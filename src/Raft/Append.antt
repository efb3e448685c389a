-- ===== src/Raft/Append.antt =====
-- Log replication at a follower: the AppendEntries handler of src/raft/raft.go.
pub mod Merge
pub mod Check
pub mod Handler
pub mod Conflict
use mit_distributed_system.Prelude.{
  ℕ, zero, suc, ◌+◌, ◌-◌, Bool, true, false, ◌&&◌, Option, none, some, List, [], ◌∷◌, ◌++◌, ltb,
  leb, ◌==◌, if◌then◌else◌, Outcome, ok, fatal, ◌>>=◌, take,
}
use mit_distributed_system.Raft.State.{Raft, LogEntry, is_state, candidate_state, follower_state}
use mit_distributed_system.Raft.Log.{get_log_length, get_term_of_log}
use mit_distributed_system.Raft.Persist.{Codec, persist}
use mit_distributed_system.Raft.Vote.{step_down}

-- A heartbeat has no entries (nil).
pub record AppendEntriesArgs (C : Type 0) : Type 0 where
  pub term : ℕ
  pub leader_id : ℕ
  pub entries : Option (List (LogEntry C))
  pub prev_log_index : ℕ
  pub prev_log_term : ℕ
  pub leader_commit : ℕ

pub record AppendEntriesReply : Type 0 where
  pub term : ℕ
  pub success : Bool
  pub next_retry_start_index : ℕ

module _ {C : Type 0} where
  -- for tempIndex > 1 && tempIndex >= lastIncludedIndex && getTermOfLog(tempIndex) == conflictTerm
  unfoldable pub back_up : Raft C → ℕ → ℕ → Outcome ℕ
  back_up rf conflict_term zero = ok zero
  back_up rf conflict_term (suc temp) =
      let earlier = back_up rf conflict_term temp in
      if ltb 1 (suc temp) && leb rf.last_included_index (suc temp)
      then (do
        t ← get_term_of_log rf (suc temp)
        if t == conflict_term then earlier else ok (suc temp))
      else ok (suc temp)

  abbrev pub with_log : Raft C → List (LogEntry C) → Raft C
  with_log rf log = record rf { log = log }

  -- the body of the copying loop, for the entry that belongs at `index`
  unfoldable pub place_entry : Raft C → ℕ → LogEntry C → Outcome (Raft C)
  place_entry rf index e =
      if leb (get_log_length rf) index then ok (with_log rf (rf.log ++ e ∷ [])) else do
        t ← get_term_of_log rf index
        ok (
            if t == e.term
            then rf
            else with_log rf (take (index - rf.last_included_index) rf.log ++ e ∷ []))

  unfoldable pub copy_entries : Raft C → ℕ → List (LogEntry C) → Outcome (Raft C)
  copy_entries rf index [] = ok rf
  copy_entries rf index (e ∷ es) = do rf' ← place_entry rf index e; copy_entries rf' (suc index) es

  -- `prev` and the term there do not match: where the leader is to try next
  unfoldable pub conflict_reply : Raft C → ℕ → ℕ → Outcome ℕ
  conflict_reply rf prev conflict_term = if prev == 0 then fatal else back_up rf conflict_term prev

  unfoldable pub advance_commit : Raft C → ℕ → Raft C
  advance_commit rf leader_commit =
      if ltb rf.commit_index leader_commit
      then record rf {
        commit_index =
            if ltb leader_commit (get_log_length rf - 1)
            then leader_commit
            else get_log_length rf - 1;
        apply_notify_ch = suc rf.apply_notify_ch;
      }
      else rf

  abbrev pub append_reply : Raft C → Bool → ℕ → Raft C × AppendEntriesReply
  append_reply rf success next =
      (rf, record { term = rf.current_term; success = success; next_retry_start_index = next })

  abbrev pub become_follower : Raft C → Raft C
  become_follower rf = record rf { raft_state = record rf.raft_state { state = follower_state } }

  abbrev pub reset_timer : Raft C → Raft C
  reset_timer rf = record rf { raft_state = record rf.raft_state { reset_election_timer = true } }

module _ {C : Type 0} (codec : Codec C) where
  -- the term, the role and the timer, before the log is looked at
  unfoldable pub meet_leader : Raft C → ℕ → Raft C
  meet_leader rf term =
      let newer = if ltb rf.current_term term then step_down codec rf term else rf in
      reset_timer (
        if is_state newer.raft_state candidate_state && leb newer.current_term term
        then become_follower newer
        else newer)

  -- if args.Entries != nil
  unfoldable pub store_entries : Raft C → ℕ → Option (List (LogEntry C)) → Outcome (Raft C)
  store_entries rf prev none = ok rf
  store_entries rf prev (some es) = do rf' ← copy_entries rf (prev + 1) es; ok (persist codec rf')

  unfoldable pub accept_entries :
      Raft C → AppendEntriesArgs C → Outcome (Raft C × AppendEntriesReply)
  accept_entries rf args = do
    rf' ← store_entries rf args.prev_log_index args.entries
    ok (append_reply (advance_commit rf' args.leader_commit) true 0)

  -- the check of the previous entry, and what follows
  unfoldable pub check_previous :
      Raft C → AppendEntriesArgs C → Outcome (Raft C × AppendEntriesReply)
  check_previous rf args =
      if leb (get_log_length rf) args.prev_log_index
      then ok (append_reply rf false (get_log_length rf))
      else do
        t ← get_term_of_log rf args.prev_log_index
        if t == args.prev_log_term then accept_entries rf args else (do
          next ← conflict_reply rf args.prev_log_index t
          ok (append_reply rf false next))

  -- the handler behind the update of the term
  unfoldable pub answer_leader :
      Raft C → AppendEntriesArgs C → Outcome (Raft C × AppendEntriesReply)
  answer_leader rf args =
      if ltb args.term rf.current_term
      then ok (append_reply rf false 0)
      else if ltb args.prev_log_index rf.last_included_index
      then ok (append_reply rf false (rf.last_included_index + 1))
      else check_previous rf args

  unfoldable pub append_entries :
      Raft C → AppendEntriesArgs C → Outcome (Raft C × AppendEntriesReply)
  append_entries rf args = answer_leader (meet_leader rf args.term) args
