-- ===== src/Raft/Commit.antt =====
-- The leader's commit rule and the delivery to the service: tryIncrementCommitIndex and applyLoop
-- of src/raft/raft.go, one round each.
pub mod Rule
pub mod Delivery
pub mod Race
use mit_distributed_system.Prelude.{
  ℕ, zero, suc, ◌+◌, ◌-◌, ◌/◌, true, false, ◌&&◌, List, [], ◌∷◌, ◌++◌, ltb, leb, ◌==◌,
  if◌then◌else◌, Outcome, ok, ◌>>=◌, length,
}
use mit_distributed_system.Raft.State.{
  Raft, LogEntry, ApplyMsg, command_msg, is_state, leader_state,
}
use mit_distributed_system.Raft.Log.{get_log_length, get_term_of_log, get_logs}

-- for j := 0; j < len(rf.peers); j++ { if rf.matchIndex[j] >= i { count += 1 } }
unfoldable pub count_matches : List ℕ → ℕ → ℕ
count_matches [] i = 0
count_matches (m ∷ ms) i = if leb i m then suc (count_matches ms i) else count_matches ms i

module _ {C : Type 0} where
  abbrev pub commit_to : Raft C → ℕ → Raft C
  commit_to rf i = record rf { commit_index = i; apply_notify_ch = suc rf.apply_notify_ch }

  -- The loop's body at index `i`: the state, and the `i` that the loop goes on from.
  unfoldable pub commit_round : Raft C → ℕ → ℕ → Outcome (Raft C × ℕ)
  unfolding count_matches
  commit_round rf this_term i =
      if leb i rf.last_included_index then ok (rf, suc rf.last_included_index) else do
        now_log_term ← get_term_of_log rf i
        ok (
            if now_log_term == this_term
              && (ltb (rf.peers / 2) (count_matches rf.match_index i) && ltb rf.commit_index i)
            then (commit_to rf i, suc i)
            else (rf, suc i))

  -- The sweep from `i`, with `fuel` rounds at most, when nothing else runs in between.
  unfoldable pub commit_sweep : Raft C → ℕ → ℕ → ℕ → ℕ → Outcome (Raft C)
  commit_sweep rf this_term log_length zero i = ok rf
  commit_sweep rf this_term log_length (suc fuel) i = elim (ltb i log_length) [
    | true ↦
        commit_round rf this_term i >>= λ next. commit_sweep next.0 this_term log_length fuel next.1
    | false ↦ ok rf
  ]

  unfoldable pub try_increment_commit_index : Raft C → Outcome (Raft C)
  try_increment_commit_index rf =
      if is_state rf.raft_state leader_state
      then commit_sweep rf rf.current_term (get_log_length rf) (get_log_length rf)
          (rf.commit_index + 1)
      else ok rf

  -- for i, entry := range toBeApplied { rf.applyCh <- ApplyMsg{...} }
  unfoldable pub apply_messages : ℕ → List (LogEntry C) → List (ApplyMsg C)
  apply_messages index [] = []
  apply_messages index (e ∷ es) = command_msg e.command index ∷ apply_messages (suc index) es

  -- One round of applyLoop at a notification, in two parts between which other operations run,
  -- since the loop sends to the channel with no lock held. The first part: the batch to apply.
  unfoldable pub fetch_batch : Raft C → Outcome (List (LogEntry C))
  fetch_batch rf =
      if ltb rf.commit_index (suc rf.last_applied)
      then ok []
      else if ltb (rf.last_applied + 1) rf.last_included_index
      then ok []
      else get_logs rf (rf.last_applied + 1) (rf.commit_index + 1)

  -- The second part: the messages, numbered from `next_applied`, and lastApplied += len(toBeApplied).
  unfoldable pub finish_batch : Raft C → ℕ → List (LogEntry C) → Raft C
  unfolding apply_messages
  finish_batch rf next_applied entries = record rf {
    apply_ch = rf.apply_ch ++ apply_messages next_applied entries;
    last_applied = rf.last_applied + length entries;
  }

  abbrev pub take_notification : Raft C → Raft C
  take_notification rf = record rf { apply_notify_ch = rf.apply_notify_ch - 1 }

  -- The whole round, when nothing else runs in between.
  unfoldable pub apply_round : Raft C → Outcome (Raft C)
  unfolding fetch_batch finish_batch
  apply_round rf = do
    entries ← fetch_batch (take_notification rf)
    ok (finish_batch (take_notification rf) (rf.last_applied + 1) entries)
