-- ===== src/Raft/Tests.antt =====
-- The theorems about a Raft peer at concrete states.
use mit_distributed_system.Prelude.{
  ℕ, zero, suc, pos, ◌≡◌, refl, true, false, Option, none, some, List, [], ◌∷◌, ◌++◌, ok, arith,
  ◌+◌, ◌-◌, ◌<◌, ◌≤◌,
}
use mit_distributed_system.Gob.{Bytes}
use mit_distributed_system.Gob.Samples.{int_coder}
use mit_distributed_system.Raft.State.{
  ApplyMsg, Raft, LogEntry, Persister, follower_state, leader_state, snapshot_msg,
}
use mit_distributed_system.Raft.Log.{get_term_of_log, get_log, get_log_length}
use mit_distributed_system.Raft.Persist.{Codec, persist, read_persist}
use mit_distributed_system.Raft.Persist.RoundTrip.{restored, read_persist-persist}
use mit_distributed_system.Raft.Vote.{RequestVoteArgs, do_election, election_timeout, request_vote}
use mit_distributed_system.Raft.Vote.Rules.{Decides, MayVote, LogAllows, request_vote_decision}
use mit_distributed_system.Raft.Append.{AppendEntriesArgs, append_entries, copy_entries}
use mit_distributed_system.Raft.Append.Merge.{merge, copy_entries-eq-merge}
use mit_distributed_system.Raft.Append.Conflict.{Walk, back_up-BacksUp}
use mit_distributed_system.Raft.Append.Handler.{Answers, append_entries-Answered}
use mit_distributed_system.Raft.Leader.{leader_init}
use mit_distributed_system.Raft.Snapshot.{
  InstallSnapshotArgs, install_snapshot, take_snapshot, save_snapshot, left_log,
}
use mit_distributed_system.Raft.Commit.{apply_round, fetch_batch, finish_batch}
use mit_distributed_system.Raft.Commit.Delivery.{Delivers, apply_round-Delivers}
use mit_distributed_system.Raft.Commit.Race.{finish_batch-install_snapshot}
use mit_distributed_system.Raft.Make.{make, fresh}
use mit_distributed_system.Raft.Evolve.{Evolves}
use mit_distributed_system.Raft.Durable
use mit_distributed_system.Raft.Step.{PlainStep, Step, PlainRun, Run}
use mit_distributed_system.Raft.Safety.{Run-Evolves}
use mit_distributed_system.Raft.Crash.{Restarts, restart_restores, take_snapshot-double_vote}

abbrev entry : ℕ → ℕ → LogEntry ℕ
entry term command = record { term = term; command = some command }

encode_entry : LogEntry ℕ → Bytes
encode_entry e = elim e.command [ none ↦ 0 ∷ e.term ∷ [] | some c ↦ 1 ∷ e.term ∷ c ∷ [] ]

decode_entry : Bytes → Option (LogEntry ℕ × Bytes)
decode_entry (zero ∷ t ∷ rest) = some (record { term = t; command = none }, rest)
decode_entry (suc k ∷ t ∷ c ∷ rest) = some (record { term = t; command = some c }, rest)
decode_entry _ = none

decode_encode_entry :
    (e : LogEntry ℕ) (rest : Bytes) → decode_entry (encode_entry e ++ rest) ≡ some (e, rest)
unfolding decode_entry encode_entry
decode_encode_entry e rest = ground arith

entry_nonempty : (e : LogEntry ℕ) → encode_entry e ≡ [] → ⊥
unfolding encode_entry
entry_nonempty e h = ground arith

abbrev codec : Codec ℕ
codec = record {
  ints = int_coder;
  entries = record {
    encode = encode_entry;
    decode = decode_entry;
    decode_encode = decode_encode_entry;
    encode_nonempty = entry_nonempty;
  };
}

abbrev empty_persister : Persister
empty_persister = record { raftstate = []; snapshot = [] }

-- A follower in term 2 with entries of the terms 1, 1 and 2, of which the first two are applied.
abbrev follower : Raft ℕ
follower = record (fresh 3 0 empty_persister) {
  raft_state = record {
    state = follower_state;
    current_term = 2;
    voted_for = pos 1;
    reset_election_timer = false;
  };
  log = record { term = 0; command = none } ∷ entry 1 10 ∷ entry 1 11 ∷ entry 2 12 ∷ [];
  commit_index = 2;
  last_applied = 2;
}

abbrev candidate : RequestVoteArgs
candidate = record { term = 3; candidate_id = 2; last_log_index = 3; last_log_term = 2 }

follower_last_term : get_term_of_log follower (get_log_length follower - 1) ≡ ok 2
unfolding get_term_of_log
follower_last_term = refl

request_vote_decision_example :
    Decides codec
      (request_vote codec follower candidate)
      (MayVote follower candidate × LogAllows follower candidate 2)
request_vote_decision_example = request_vote_decision codec follower candidate 2 follower_last_term

read_persist-persist_example :
    read_persist codec (fresh 3 1 empty_persister) (persist codec follower).persister.raftstate
    ≡ ok (restored (fresh 3 1 empty_persister) follower)
read_persist-persist_example = read_persist-persist codec follower (fresh 3 1 empty_persister)

copy_entries-eq-merge_example :
    copy_entries follower (1 + 1) (entry 3 20 ∷ [])
    ≡ ok (record follower {
      log = record { term = 0; command = none } ∷ entry 1 10 ∷ entry 3 20 ∷ [];
    })
unfolding merge
copy_entries-eq-merge_example =
    copy_entries-eq-merge follower 1 (entry 3 20 ∷ []) (omega arith) (omega arith)

back_up-BacksUp_example : Walk follower 1 2
back_up-BacksUp_example = back_up-BacksUp follower 1 2 (omega arith)

abbrev request : AppendEntriesArgs ℕ
request = record {
  term = 3;
  leader_id = 2;
  entries = some (entry 3 20 ∷ []);
  prev_log_index = 2;
  prev_log_term = 1;
  leader_commit = 2;
}

append_entries-Answered_example :
    Answers codec follower request (append_entries codec follower request)
append_entries-Answered_example =
    append_entries-Answered codec follower request (omega arith) (λ e. absurd (omega arith))

abbrev elected : Raft ℕ
elected = do_election codec follower

Run-Evolves_example : Evolves follower (leader_init elected)
Run-Evolves_example = Run-Evolves codec (
    Run.next (Run.next Run.here (Step.plain (PlainStep.election_began refl)))
      (Step.plain (PlainStep.lead_began refl)))

restart_restores_example :
    (new : Raft ℕ) × (make codec 3 0 (leader_init (election_timeout codec elected)).persister
      ≡ ok new)
    × Restarts codec (leader_init (election_timeout codec elected)) new
restart_restores_example =
    restart_restores codec 3 0
      (PlainRun.next (PlainRun.next PlainRun.here (PlainStep.election_timed_out refl))
        (PlainStep.lead_began refl))
      (Durable.do_election-Saves codec follower)

-- `follower` after a snapshot up to index 2.
abbrev trimmed : Raft ℕ
trimmed = record follower {
  persister = record { raftstate = []; snapshot = 7 ∷ [] };
  log = entry 1 11 ∷ entry 2 12 ∷ [];
  last_included_index = 2;
  last_included_term = 1;
}

follower_trims : take_snapshot codec follower 2 (7 ∷ []) ≡ ok trimmed
unfolding take_snapshot save_snapshot left_log get_log get_term_of_log persist read_persist
follower_trims = refl

take_snapshot-double_vote_example :
    (new : Raft ℕ) × (make codec 3 0 trimmed.persister ≡ ok new)
    × (new' : Raft ℕ) × (request_vote codec new (record candidate { term = 2 })
        ≡ ok (new', record { term = 2; vote_granted = true }))
    × (new'.voted_for ≡ pos 2)
take_snapshot-double_vote_example =
    take_snapshot-double_vote codec follower trimmed 2 3 0 (7 ∷ []) (record candidate { term = 2 })
      refl (omega arith) (omega arith) (omega arith) follower_trims (omega arith)

-- `follower` as the leader of its term, with two of three peers at the index 3.
abbrev leader : Raft ℕ
leader = record follower {
  raft_state = record follower.raft_state { state = leader_state };
  match_index = 3 ∷ 3 ∷ 1 ∷ [];
}

-- `follower` with its last entry committed too.
abbrev lagging : Raft ℕ
lagging = record follower { commit_index = 3 }

apply_round-Delivers_example :
    (new : Raft ℕ) × (messages : List (ApplyMsg ℕ)) × (apply_round lagging ≡ ok new)
    × Delivers lagging messages
    × (new.apply_ch ≡ messages)
    × (new.last_applied ≡ 3)
apply_round-Delivers_example =
    apply_round-Delivers lagging (omega arith) (omega arith) (omega arith)

abbrev newer_snapshot : InstallSnapshotArgs
newer_snapshot = record {
  term = 2;
  leader_id = 1;
  last_included_index = 5;
  last_included_term = 2;
  snapshot_data = 9 ∷ [];
}

-- `lagging` behind that snapshot.
abbrev replaced : Raft ℕ
replaced = record lagging {
  persister = record { raftstate = []; snapshot = 9 ∷ [] };
  log = record { term = 0; command = none } ∷ [];
  last_included_index = 5;
  last_included_term = 2;
  commit_index = 5;
  last_applied = 5;
  apply_ch = snapshot_msg (9 ∷ []) 2 5 ∷ [];
}

lagging_installs : install_snapshot codec lagging newer_snapshot ≡ ok (replaced, 2)
unfolding install_snapshot save_snapshot left_log get_log persist read_persist
lagging_installs = refl

finish_batch-install_snapshot_example :
    (es : List (LogEntry ℕ)) × (fetch_batch lagging ≡ ok es)
    × (5 < (finish_batch replaced 3 es).last_applied)
    × ((c : ℕ)
        → c ≤ (finish_batch replaced 3 es).last_applied
        → fetch_batch (record (finish_batch replaced 3 es) { commit_index = c }) ≡ ok [])
finish_batch-install_snapshot_example =
    finish_batch-install_snapshot codec lagging newer_snapshot (omega arith) (omega arith)
      (omega arith) (omega arith) (omega arith) lagging_installs
