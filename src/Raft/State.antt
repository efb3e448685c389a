-- ===== src/Raft/State.antt =====
-- The data of a Raft peer: src/raft/RaftState.go, src/raft/persister.go, and the structs of
-- src/raft/raft.go. Terms and log indices are natural numbers; `voted_for` keeps the code's -1.
-- A nil command is `none`. Mutexes are left out: see the root module.
use mit_distributed_system.Prelude.{ℕ, ℤ, minus_one, Bool, true, false, Option, none, List, []}
use mit_distributed_system.Gob.{Bytes}

pub data Role : Type 0 where
  candidate_state leader_state follower_state : Role

pub record RaftState : Type 0 where
  pub state : Role
  pub current_term : ℕ
  pub voted_for : ℤ
  pub reset_election_timer : Bool

abbrev pub make_raft_state : RaftState
make_raft_state = record {
  state = follower_state;
  current_term = 0;
  voted_for = minus_one;
  reset_election_timer = false;
}

abbrev pub is_state : RaftState → Role → Bool
is_state rs candidate_state = elim rs.state [ candidate_state ↦ true | _ ↦ false ]
is_state rs leader_state = elim rs.state [ leader_state ↦ true | _ ↦ false ]
is_state rs follower_state = elim rs.state [ follower_state ↦ true | _ ↦ false ]

pub record Persister : Type 0 where
  pub raftstate : Bytes
  pub snapshot : Bytes

abbrev pub make_persister : Persister
make_persister = record { raftstate = []; snapshot = [] }

abbrev pub save_raft_state : Persister → Bytes → Persister
save_raft_state ps state = record ps { raftstate = state }

abbrev pub save_state_and_snapshot : Persister → Bytes → Bytes → Persister
save_state_and_snapshot ps state snapshot = record { raftstate = state; snapshot = snapshot }

pub record LogEntry (C : Type 0) : Type 0 where
  pub term : ℕ
  pub command : Option C

pub data ApplyMsg (C : Type 0) : Type 0 where
  -- CommandValid, with Command and CommandIndex
  command_msg : Option C → ℕ → ApplyMsg C
  -- SnapshotValid, with Snapshot, SnapshotTerm and SnapshotIndex
  snapshot_msg : Bytes → ℕ → ℕ → ApplyMsg C

pub record Raft (C : Type 0) : Type 0 where
  pub peers : ℕ
  pub persister : Persister
  pub me : ℕ
  pub dead : Bool
  pub raft_state : RaftState
  pub open raft_state use *
  pub log : List (LogEntry C)
  pub last_included_index : ℕ
  pub last_included_term : ℕ
  pub commit_index : ℕ
  pub last_applied : ℕ
  pub next_index : List ℕ
  pub match_index : List ℕ
  pub leader_init_done : Bool
  -- the notifications that wait in the channel
  pub apply_notify_ch : ℕ
  -- the messages sent so far, the first one first
  pub apply_ch : List (ApplyMsg C)

-- log[0], which no command uses.
abbrev pub dummy_entry : {C : Type 0} → LogEntry C
dummy_entry = record { term = 0; command = none }

-- The adoption of a newer term, which the handlers share: follower, and no vote yet.
abbrev pub update_term : {C : Type 0} → Raft C → ℕ → Raft C
update_term rf term = record rf {
  raft_state = record rf.raft_state {
    state = follower_state;
    current_term = term;
    voted_for = minus_one;
  };
}
