-- ===== src/Raft/Snapshot.antt =====
-- Log compaction: Snapshot, InstallSnapshot and CondInstallSnapshot of src/raft/raft.go.
use mit_distributed_system.Prelude.{
  ℕ, zero, suc, ◌+◌, ◌-◌, Bool, true, List, [], ◌∷◌, ◌++◌, ◌&&◌, ltb, leb, if◌then◌else◌, Outcome,
  ok, ◌>>=◌,
}
use mit_distributed_system.Gob.{Bytes}
use mit_distributed_system.Raft.State.{
  Raft, LogEntry, snapshot_msg, dummy_entry, save_state_and_snapshot,
}
use mit_distributed_system.Raft.Log.{get_log_length, get_term_of_log, get_log}
use mit_distributed_system.Raft.Persist.{Codec, persist, read_persist}
use mit_distributed_system.Raft.Vote.{step_down}

pub record InstallSnapshotArgs : Type 0 where
  pub term : ℕ
  pub leader_id : ℕ
  pub last_included_index : ℕ
  pub last_included_term : ℕ
  pub snapshot_data : Bytes

-- InstallSnapshotReply has the one field Term: the handler's result is a number.

module _ {C : Type 0} where
  unfoldable pub cond_install_snapshot : Raft C → ℕ → ℕ → Bytes → Bool
  cond_install_snapshot rf term index snapshot = true

  -- leftLog: `n` entries from `start` on
  unfoldable pub left_log : Raft C → ℕ → ℕ → Outcome (List (LogEntry C))
  left_log rf start zero = ok []
  left_log rf start (suc n) = do e ← get_log rf start; es ← left_log rf (suc start) n; ok (e ∷ es)

module _ {C : Type 0} (codec : Codec C) where
  -- persist(), readPersist of a nil slice, SaveStateAndSnapshot with that same nil slice
  unfoldable pub save_snapshot : Raft C → Bytes → Outcome (Raft C)
  save_snapshot rf snapshot = do
    rf' ← read_persist codec (persist codec rf) []
    ok (record rf' { persister = save_state_and_snapshot rf'.persister [] snapshot })

  abbrev pub trim_log : Raft C → ℕ → Bytes → Outcome (Raft C)
  trim_log rf index snapshot = do
    left ← left_log rf index (get_log_length rf - index)
    term ← get_term_of_log rf index
    save_snapshot (record rf { log = left; last_included_index = index; last_included_term = term })
        snapshot

  unfoldable pub take_snapshot : Raft C → ℕ → Bytes → Outcome (Raft C)
  unfolding left_log save_snapshot
  take_snapshot rf index snapshot =
      if rf.dead
      then ok rf
      else if leb index rf.last_included_index
      then ok rf
      else if ltb rf.commit_index index
      then ok rf
      else if ltb rf.last_applied index
      then ok rf
      else trim_log rf index snapshot

  abbrev pub raise_to : ℕ → ℕ → ℕ
  raise_to old index = if ltb old index then index else old

  -- the part of InstallSnapshot that replaces the log's front
  abbrev pub adopt_snapshot : Raft C → InstallSnapshotArgs → Outcome (Raft C)
  adopt_snapshot rf args = do
    left ←
        left_log rf (args.last_included_index + 1)
          (get_log_length rf - (args.last_included_index + 1))
    rf' ←
        save_snapshot
          (record rf {
            log = dummy_entry ∷ left;
            last_included_index = args.last_included_index;
            last_included_term = args.last_included_term;
            commit_index = raise_to rf.commit_index args.last_included_index;
            last_applied = raise_to rf.last_applied args.last_included_index;
          })
          args.snapshot_data
    ok (record rf' {
      apply_ch =
          rf'.apply_ch
          ++ snapshot_msg args.snapshot_data rf'.last_included_term rf'.last_included_index ∷ [];
    })

  unfoldable pub install_snapshot : Raft C → InstallSnapshotArgs → Outcome (Raft C × ℕ)
  unfolding left_log save_snapshot
  install_snapshot rf args =
      if leb rf.current_term args.term
      then (let rf1 = if ltb rf.current_term args.term then step_down codec rf args.term else rf in
          if ltb rf1.last_included_index args.last_included_index
            && ltb rf1.last_applied args.last_included_index
          then (do rf2 ← adopt_snapshot rf1 args; ok (rf2, rf2.current_term))
          else ok (rf1, rf1.current_term))
      else ok (rf, rf.current_term)
