-- ===== src/Raft/Persist/RoundTrip.antt =====
-- What persist writes, readPersist reads back.
use mit_distributed_system.Prelude.{pos, ◌≡◌, ◌≢◌, refl, List, [], ◌∷◌, ok, length}
use mathlib.Core.List.{append-eq-nil_iff}
use mit_distributed_system.Gob.{Bytes}
use mit_distributed_system.Raft.State.{Raft, LogEntry}
use mit_distributed_system.Raft.Persist.{
  Codec, encode_log, persistent_state, persist, decode_natural, decode_int, decode_log,
  decode_state, read_persist,
}

-- The peer `old` with the durable fields of `rf`.
abbrev pub restored : {C : Type 0} → Raft C → Raft C → Raft C
restored old rf = record old {
  raft_state = record old.raft_state { current_term = rf.current_term; voted_for = rf.voted_for };
  last_included_index = rf.last_included_index;
  last_included_term = rf.last_included_term;
  log = rf.log;
}

module _ {C : Type 0} (codec : Codec C) where
  open codec use {ints, entries}

  decode_log_lem :
      (es : List (LogEntry C)) → decode_log codec (length es) (encode_log codec es) ≡ ok es
  unfolding decode_log encode_log
  decode_log_lem [] = refl
  decode_log_lem (e ∷ es) = simp (entries.decode_encode e (encode_log codec es), decode_log_lem es)

  decode_state_lem :
      (rf old : Raft C) → decode_state codec old (persistent_state codec rf) ≡ ok (restored old rf)
  unfolding decode_state persistent_state decode_natural decode_int
  decode_state_lem rf old = simp (ints.decode_encode, decode_log_lem)

  read_persist_nonempty :
      (rf : Raft C) (bytes : Bytes)
      → bytes ≢ []
      → read_persist codec rf bytes ≡ decode_state codec rf bytes
  unfolding read_persist
  read_persist_nonempty rf [] h = absurd (h refl)
  read_persist_nonempty rf (b ∷ bytes) h = refl

  pub persistent_state-nonempty : (rf : Raft C) → persistent_state codec rf ≢ []
  unfolding persistent_state
  persistent_state-nonempty rf e =
      ints.encode_nonempty (pos rf.current_term) (append-eq-nil_iff.0 e).0

  -- Any peer that reads the bytes that `rf` has written gets the term, the vote, the snapshot
  -- position and the log of `rf`, and keeps its other fields.
  pub read_persist-persist :
      (rf old : Raft C)
      → read_persist codec old (persist codec rf).persister.raftstate ≡ ok (restored old rf)
  unfolding persist
  read_persist-persist rf old =
      rw (read_persist_nonempty old _ (persistent_state-nonempty rf)) (decode_state_lem rf old)
