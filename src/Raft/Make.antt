-- ===== src/Raft/Make.antt =====
-- Make of src/raft/raft.go: a fresh peer, then what the persister holds.
use mit_distributed_system.Prelude.{ℕ, false, [], ◌∷◌, ltb, if◌then◌else◌, Outcome, ok, ◌>>=◌}
use mit_distributed_system.Raft.State.{Raft, Persister, make_raft_state, dummy_entry}
use mit_distributed_system.Raft.Persist.{Codec, read_persist}

module _ {C : Type 0} where
  abbrev pub fresh : ℕ → ℕ → Persister → Raft C
  fresh peers me persister = record {
    peers = peers;
    persister = persister;
    me = me;
    dead = false;
    raft_state = make_raft_state;
    log = dummy_entry ∷ [];
    last_included_index = 0;
    last_included_term = 0;
    commit_index = 0;
    last_applied = 0;
    next_index = [];
    match_index = [];
    leader_init_done = false;
    apply_notify_ch = 0;
    apply_ch = [];
  }

  unfoldable pub skip_snapshotted : Raft C → Raft C
  skip_snapshotted rf =
      if ltb 0 rf.last_included_index
      then record rf {
        commit_index = rf.last_included_index;
        last_applied = rf.last_included_index;
      }
      else rf

module _ {C : Type 0} (codec : Codec C) where
  unfoldable pub make : ℕ → ℕ → Persister → Outcome (Raft C)
  unfolding skip_snapshotted
  make peers me persister = do
    rf ← read_persist codec (fresh peers me persister) persister.raftstate
    ok (skip_snapshotted rf)
