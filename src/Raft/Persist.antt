-- ===== src/Raft/Persist.antt =====
-- persist and readPersist of src/raft/raft.go over the stream encoding. A stored count or term that
-- is negative, which persist never writes, is read as a decoding error.
pub mod RoundTrip
use mit_distributed_system.Prelude.{
  ℕ, zero, suc, ℤ, pos, negsuc, List, [], ◌∷◌, ◌++◌, Outcome, ok, fatal, ◌>>=◌, length,
}
use mit_distributed_system.Gob.{Bytes, Coder}
use mit_distributed_system.Raft.State.{Raft, LogEntry, save_raft_state}
use mit_distributed_system.Raft.Log.{or_fatal}

-- How the encoder writes an int and a log entry.
pub record Codec (C : Type 0) : Type 0 where
  pub ints : Coder ℤ
  pub entries : Coder (LogEntry C)

abbrev pub natural : ℤ × Bytes → Outcome (ℕ × Bytes)
natural (pos n, rest) = ok (n, rest)
natural (negsuc n, rest) = fatal

module _ {C : Type 0} (codec : Codec C) where
  open codec use {ints, entries}

  pub encode_log : List (LogEntry C) → Bytes
  encode_log [] = []
  encode_log (e ∷ es) = entries.encode e ++ encode_log es

  unfoldable pub persistent_state : Raft C → Bytes
  persistent_state rf =
      ints.encode (pos rf.current_term)
      ++ (ints.encode rf.voted_for
          ++ (ints.encode (pos rf.last_included_index)
              ++ (ints.encode (pos rf.last_included_term)
                  ++ (ints.encode (pos (length rf.log)) ++ encode_log rf.log))))

  unfoldable pub persist : Raft C → Raft C
  persist rf = record rf { persister = save_raft_state rf.persister (persistent_state rf) }

  decode_int : Bytes → Outcome (ℤ × Bytes)
  decode_int bytes = or_fatal (ints.decode bytes)

  decode_natural : Bytes → Outcome (ℕ × Bytes)
  unfolding decode_int
  decode_natural bytes = decode_int bytes >>= natural

  -- for i := 0; i < logLength; i++ { d.Decode(&logEntries[i]) }
  decode_log : ℕ → Bytes → Outcome (List (LogEntry C))
  decode_log zero bytes = ok []
  decode_log (suc n) bytes = do
    (e, rest) ← or_fatal (entries.decode bytes)
    es ← decode_log n rest
    ok (e ∷ es)

  pub decode_state : Raft C → Bytes → Outcome (Raft C)
  unfolding decode_natural decode_log
  decode_state rf bytes = do
    (current_term, bytes1) ← decode_natural bytes
    (voted_for, bytes2) ← decode_int bytes1
    (last_included_index, bytes3) ← decode_natural bytes2
    (last_included_term, bytes4) ← decode_natural bytes3
    (log_length, bytes5) ← decode_natural bytes4
    log ← decode_log log_length bytes5
    ok (record rf {
      raft_state = record rf.raft_state { current_term = current_term; voted_for = voted_for };
      last_included_index = last_included_index;
      last_included_term = last_included_term;
      log = log;
    })

  unfoldable pub read_persist : Raft C → Bytes → Outcome (Raft C)
  read_persist rf [] = ok rf
  read_persist rf (b ∷ bytes) = decode_state rf (b ∷ bytes)
