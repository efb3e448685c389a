-- ===== src/Raft/Commit/Rule.antt =====
-- What a leader commits: the sweep of tryIncrementCommitIndex (src/raft/raft.go).
use mit_distributed_system.Prelude.{ℕ, ◌/◌, ◌≤◌, ◌<◌, ◌≡◌, ◌⊎◌, Bool, ◌&&◌, ltb, ◌==◌, Outcome, ok}
use mit_distributed_system.Raft.State.{Raft}
use mit_distributed_system.Raft.Log.{get_log_length, get_term_of_log}
use mit_distributed_system.Raft.Commit.{count_matches, commit_sweep}

module _ {C : Type 0} (rf : Raft C) where
  -- The rule of the Raft paper for a leader: an entry of its own term that a majority holds.
  abbrev pub Committable : ℕ → Type 0
  Committable i =
      (get_term_of_log rf i ≡ ok rf.current_term) × (rf.peers / 2 < count_matches rf.match_index i)

  -- `rf` with another commit index and count of notifications.
  abbrev pub at_commit : ℕ → ℕ → Raft C
  at_commit c n = record rf { commit_index = c; apply_notify_ch = n }

  -- Whether the body of the loop commits at an index with this term.
  abbrev commits : ℕ → ℕ → ℕ → Bool
  commits c i t =
      t == rf.current_term && (ltb (rf.peers / 2) (count_matches rf.match_index i) && ltb c i)

  -- What a sweep from `i` leaves, when it begins at the commit index `c`.
  pub record Swept (c n i : ℕ) (swept : Outcome (Raft C)) : Type 0 where
    pub commit : ℕ
    pub notices : ℕ
    pub result : swept ≡ ok (at_commit commit notices)
    pub grows : c ≤ commit
    pub moved : (commit ≡ c) ⊎ ((i ≤ commit) × Committable commit)
    pub newest :
        (j : ℕ)
        → i ≤ j
        → commit < j
        → rf.last_included_index < j
        → j < get_log_length rf
        → Committable j
        → ⊥

  -- The sweep after a round.
  go_on : ℕ → Raft C × ℕ → Outcome (Raft C)
  go_on fuel next = commit_sweep next.0 rf.current_term (get_log_length rf) fuel next.1
