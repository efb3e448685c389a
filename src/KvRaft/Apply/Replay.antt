-- ===== src/KvRaft/Apply/Replay.antt =====
-- A server that installs the snapshot of another one goes on as that one does.
use mit_distributed_system.Prelude.{
  ℕ, pos, ◌<◌, ◌≡◌, ◌≢◌, refl, ◌∙◌, Option, none, some, List, [], ◌∷◌, ◌++◌, arith, if◌then◌else◌,
  ok, ◌>>=◌, ltb, leb, lt→ltb, Bool-cases, inl, inr, Outcome-cases,
}
use mathlib.Core.List.{append-nil, append-eq-nil_iff}
use mit_distributed_system.Gob.{Bytes}
use mit_distributed_system.Assoc.{Assoc, lookup, nat_key}
use mit_distributed_system.Service.Requests.{Requests}
use mit_distributed_system.Service.WaitChs.{send}
use mit_distributed_system.Raft.State.{ApplyMsg, command_msg, snapshot_msg}
use mit_distributed_system.KvRaft.Defs.{Op, KvServer}
use mit_distributed_system.KvRaft.Apply.{
  Codec, is_due, apply_op, serialize, decode_snapshot, deserialize, apply_command, apply_message,
  apply_all,
}

-- The same replicated state: storage, requests and position.
abbrev pub SameService : KvServer → KvServer → Type 0
SameService a b =
    (a.storage ≡ b.storage)
    × (a.latest_applied_request ≡ b.latest_applied_request)
    × (a.latest_applied_raft_index ≡ b.latest_applied_raft_index)

module _ (codec : Codec) where
  open codec use {ints, storages, requests}

  decode_snapshot-serialize :
      (kv : KvServer)
      → decode_snapshot codec (serialize codec kv)
        ≡ some (kv.latest_applied_raft_index, kv.storage, kv.latest_applied_request)
  unfolding decode_snapshot serialize
  decode_snapshot-serialize kv = ground (
    arith,
    ints.decode_encode (pos kv.latest_applied_raft_index)
        (storages.encode kv.storage ++ requests.encode kv.latest_applied_request),
    storages.decode_encode kv.storage (requests.encode kv.latest_applied_request),
    requests.decode_encode kv.latest_applied_request [],
    append-nil (requests.encode kv.latest_applied_request),
  )

  serialize-nonempty : (kv : KvServer) → serialize codec kv ≢ []
  unfolding serialize
  serialize-nonempty kv e =
      ints.encode_nonempty (pos kv.latest_applied_raft_index) (append-eq-nil_iff.0 e).0

  deserialize_nonempty :
      (kv : KvServer) (bytes : Bytes) {index : ℕ} {storage : Assoc Bytes Bytes} {reqs : Requests}
      → bytes ≢ []
      → decode_snapshot codec bytes ≡ some (index, storage, reqs)
      → deserialize codec kv bytes ≡ record kv {
        latest_applied_raft_index = index;
        storage = storage;
        latest_applied_request = reqs;
      }
  unfolding deserialize
  deserialize_nonempty kv [] some_byte e = absurd (some_byte refl)
  deserialize_nonempty kv (b ∷ bytes) some_byte e = ground arith

  -- A server that reads another's snapshot has its replicated state, and keeps its other fields.
  pub deserialize-serialize :
      (kv old : KvServer)
      → deserialize codec old (serialize codec kv) ≡ record old {
        latest_applied_raft_index = kv.latest_applied_raft_index;
        storage = kv.storage;
        latest_applied_request = kv.latest_applied_request;
      }
  deserialize-serialize kv old =
      deserialize_nonempty old (serialize codec kv) (serialize-nonempty kv)
        (decode_snapshot-serialize kv)

  deserialize-SameService :
      (a b : KvServer) (bytes : Bytes)
      → SameService a b
      → SameService (deserialize codec a bytes) (deserialize codec b bytes)
  unfolding deserialize
  deserialize-SameService a b [] same = same
  deserialize-SameService a b (c ∷ bytes) same = ground arith

  wait_chs-deserialize :
      (b : KvServer) (bytes : Bytes) → (deserialize codec b bytes).wait_chs ≡ b.wait_chs
  unfolding deserialize
  wait_chs-deserialize b [] = refl
  wait_chs-deserialize b (c ∷ bytes) = ground arith

  -- How a server on which no handler waits meets a message.
  record Follows (a' b : KvServer) (m : ApplyMsg Op) (size : ℕ) : Type 0 where
    pub after : KvServer
    pub snapshot : Option Bytes
    pub returns : apply_message codec b m size ≡ ok (after, snapshot)
    pub same : SameService a' after
    pub quiet : after.wait_chs ≡ []

  after_command : KvServer → Op → ℕ → KvServer
  after_command kv op index = record (apply_op kv op).0 { latest_applied_raft_index = index }

  command_applied :
      (a a' : KvServer) (op : Op) (index size : ℕ) (out : Option Bytes)
      → apply_command codec a op index size ≡ ok (a', out)
      → SameService a' (after_command a op index)
  unfolding apply_command after_command
  command_applied a a' op index size out h = ground arith

  after_command-SameService :
      (a b : KvServer) (op : Op) (index : ℕ)
      → SameService a b
      → SameService (after_command a op index) (after_command b op index)
  unfolding after_command apply_op
  after_command-SameService a b op index same = ground arith

  command_quiet :
      (b : KvServer) (op : Op) (index size : ℕ)
      → b.wait_chs ≡ []
      → (out : Option Bytes) × (apply_command codec b op index size
          ≡ ok (after_command b op index, out))
        × ((after_command b op index).wait_chs ≡ [])
  unfolding apply_command after_command apply_op send lookup
  command_quiet b op index size quiet = (
    (if is_due codec (after_command b op index) size
        then some (serialize codec (after_command b op index))
        else none),
    ground arith,
    quiet,
  )

  message-Follows :
      (a b a' : KvServer) (m : ApplyMsg Op) (size size' : ℕ) (out : Option Bytes)
      → SameService a b
      → b.wait_chs ≡ []
      → apply_message codec a m size ≡ ok (a', out)
      → Follows a' b m size'
  unfolding apply_message
  message-Follows a b a' (command_msg none index) size size' out same quiet h = record {
    after = b;
    snapshot = none;
    returns = ground arith;
    same = ground arith;
    quiet = quiet;
  }
  message-Follows a b a' (command_msg (some op) index) size size' out same quiet h =
      elim (Bool-cases (leb index b.latest_applied_raft_index)) [
        | inl old ↦ record {
          after = b;
          snapshot = none;
          returns = rw old refl;
          same = ground arith;
          quiet = quiet;
        }
        | inr fresh ↦
            let (out', returns, quiet') = command_quiet b op index size' quiet in
            record {
              after = after_command b op index;
              snapshot = out';
              returns = rw fresh returns;
              same = ground (
                arith,
                command_applied a a' op index size out,
                after_command-SameService a b op index same,
              );
              quiet = quiet';
            }
      ]
  message-Follows a b a' (snapshot_msg bytes term index) size size' out same quiet h =
      elim (Bool-cases (ltb b.latest_applied_raft_index index)) [
        | inl newer ↦ record {
          after = deserialize codec b bytes;
          snapshot = none;
          returns = rw newer refl;
          same = ground (arith, deserialize-SameService a b bytes same);
          quiet = wait_chs-deserialize b bytes ∙ quiet;
        }
        | inr old ↦ record {
          after = b;
          snapshot = none;
          returns = rw old refl;
          same = ground arith;
          quiet = quiet;
        }
      ]

  all_follow :
      (a b a' : KvServer) (ms : List (ApplyMsg Op)) (size size' : ℕ)
      → SameService a b
      → b.wait_chs ≡ []
      → apply_all codec a ms size ≡ ok a'
      → (b' : KvServer) × (apply_all codec b ms size' ≡ ok b') × SameService a' b'
  unfolding apply_all
  all_follow a b a' [] size size' same quiet h = (b, refl, ground arith)
  all_follow a b a' (m ∷ ms) size size' same quiet h =
      elim (Outcome-cases (apply_message codec a m size)) [
        | inl stops ↦ ground arith
        | inr ((a1, out), e) ↦
            let f = message-Follows a b a1 m size size' out same quiet e in
            let (b', q, s) =
              all_follow a1 f.after a' ms size size' f.same f.quiet (rw (e, ◌>>=◌) at h) in
            (b', rw f.returns q, s)
      ]

  -- A server that is behind and on which no handler waits installs another server's snapshot. Then,
  -- if that other server takes the further messages, so does this one, and the two end with the same
  -- storage, the same record of requests and the same position.
  pub snapshot_catches_up :
      (a b a' : KvServer) (ms : List (ApplyMsg Op)) (term index size size' : ℕ)
      → b.wait_chs ≡ []
      → b.latest_applied_raft_index < index
      → apply_all codec a ms size ≡ ok a'
      → (b' : KvServer) × (apply_all codec b
            (snapshot_msg (serialize codec a) term index ∷ ms)
            size'
          ≡ ok b')
        × SameService a' b'
  unfolding apply_all apply_message
  snapshot_catches_up a b a' ms term index size size' quiet behind h =
      rw (lt→ltb b.latest_applied_raft_index index behind, deserialize-serialize a b)
        (all_follow a _ a' ms size size' (refl, refl, refl) quiet h)
