-- ===== src/Raft/Log.antt =====
-- The log behind a snapshot: getLogLength, getTermOfLog, getLog, getLogs and getLogsFrom of
-- src/raft/raft.go. Indices are those of the whole history; log.Fatalf is `fatal`, and so is the
-- run-time panic of an index out of range.
pub mod Laws
use mit_distributed_system.Prelude.{
  ℕ, ◌+◌, ◌-◌, Option, none, some, List, [], ◌∷◌, ltb, leb, ◌==◌, if◌then◌else◌, Outcome, ok, fatal,
  length, get_elem?, take, drop,
}
use mit_distributed_system.Raft.State.{Raft, LogEntry}

abbrev pub or_fatal {ℓ} : {A : Type ℓ} → Option A → Outcome A
or_fatal none = fatal
or_fatal (some a) = ok a

module _ {C : Type 0} where
  -- the last valid log index, plus one
  abbrev pub get_log_length : Raft C → ℕ
  get_log_length rf = rf.last_included_index + length rf.log

  abbrev pub entry_term : Option (LogEntry C) → Outcome ℕ
  entry_term none = fatal
  entry_term (some e) = ok e.term

  unfoldable pub get_term_of_log : Raft C → ℕ → Outcome ℕ
  get_term_of_log rf index =
      if leb (get_log_length rf) index
      then fatal
      else if ltb index rf.last_included_index
      then fatal
      else if index == rf.last_included_index
      then ok rf.last_included_term
      else entry_term (get_elem? rf.log (index - rf.last_included_index))

  unfoldable pub get_log : Raft C → ℕ → Outcome (LogEntry C)
  get_log rf index =
      if leb (get_log_length rf) index
      then fatal
      else if leb index rf.last_included_index
      then fatal
      else or_fatal (get_elem? rf.log (index - rf.last_included_index))

  -- rf.log[start-lastIncludedIndex : end-lastIncludedIndex]; a slice panics if start > end
  unfoldable pub get_logs : Raft C → ℕ → ℕ → Outcome (List (LogEntry C))
  get_logs rf start end =
      if ltb (get_log_length rf) end
      then fatal
      else if leb start rf.last_included_index
      then fatal
      else if ltb end start
      then fatal
      else ok (take (end - start) (drop (start - rf.last_included_index) rf.log))

  unfoldable pub get_logs_from : Raft C → ℕ → Outcome (List (LogEntry C))
  unfolding get_logs
  get_logs_from rf start = get_logs rf start (get_log_length rf)
