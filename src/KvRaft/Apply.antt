-- ===== src/KvRaft/Apply.antt =====
-- The operations of KVServer in src/kvraft/server.go. Raft is seen through the messages of its apply
-- channel and the results of GetState, Start and RaftStateSize, which are arguments.
pub mod Refinement
pub mod Replay
pub mod Reply
pub mod Once
use mit_distributed_system.Prelude.{
  ℕ, ℤ, pos, negsuc, minus_one, ◌==ℤ◌, ◌<ℤ◌, Bool, true, false, not, ◌&&◌, Option, none, some, List,
  [], ◌∷◌, ◌++◌, leb, ltb, if◌then◌else◌, Outcome, ok, fatal, ◌>>=◌,
}
use mit_distributed_system.Gob.{Bytes, Coder}
use mit_distributed_system.Assoc.{Assoc, lookup, put, bytes_key}
use mit_distributed_system.Service.Requests.{Requests, note_request}
use mit_distributed_system.Service.WaitChs.{open_ch, send, receive, close_ch}
use mit_distributed_system.Raft.State.{ApplyMsg, command_msg, snapshot_msg}
use mit_distributed_system.KvRaft.Defs.{
  OpType, get, append, Op, Err, err_no_key, err_wrong_leader, WaitChResponse, KvServer,
}

-- The encoders that serialize uses.
pub record Codec : Type 0 where
  pub ints : Coder ℤ
  pub storages : Coder (Assoc Bytes Bytes)
  pub requests : Coder Requests

-- What the storage holds for a key after an append.
abbrev pub appended : Option Bytes → Bytes → Bytes
appended none value = value
appended (some old) value = old ++ value

-- The change of the storage by a request that is new.
unfoldable pub write : Op → OpType → Assoc Bytes Bytes → Assoc Bytes Bytes
write op get storage = storage
write op OpType.put storage = put op.key op.value storage
write op append storage = put op.key (appended (lookup op.key storage) op.value) storage

abbrev pub get_response : Op → Option Bytes → WaitChResponse
get_response op none = record { op = op; err = err_no_key; value = [] }
get_response op (some value) = record { op = op; err = Err.ok; value = value }

abbrev pub response : Op → OpType → Assoc Bytes Bytes → WaitChResponse
response op get storage = get_response op (lookup op.key storage)
response op OpType.put storage = record { op = op; err = Err.ok; value = [] }
response op append storage = record { op = op; err = Err.ok; value = [] }

-- The switch on op.Type.
unfoldable pub apply_op : KvServer → Op → KvServer × WaitChResponse
unfolding write
apply_op kv op =
    let (requests, fresh) = note_request op.client_id op.request_id kv.latest_applied_request in
    let storage = if fresh then write op op.type kv.storage else kv.storage in
    (
      record kv { latest_applied_request = requests; storage = storage },
      response op op.type storage,
    )

module _ (codec : Codec) where
  open codec use {ints, storages, requests}

  unfoldable pub serialize : KvServer → Bytes
  serialize kv =
      ints.encode (pos kv.latest_applied_raft_index)
      ++ (storages.encode kv.storage ++ requests.encode kv.latest_applied_request)

  -- All three values, or nothing. A negative index, which serialize never writes, counts as an error.
  unfoldable pub decode_snapshot : Bytes → Option (ℕ × Assoc Bytes Bytes × Requests)
  decode_snapshot bytes = elim (ints.decode bytes) [
    | none ↦ none
    | some (negsuc n, rest) ↦ none
    | some (pos index, rest) ↦ elim (storages.decode rest) [
      | none ↦ none
      | some (storage, rest') ↦ elim (requests.decode rest') [
        | none ↦ none
        | some (reqs, rest'') ↦ some (index, storage, reqs)
      ]
    ]
  ]

  unfoldable pub deserialize : KvServer → Bytes → KvServer
  unfolding decode_snapshot
  deserialize kv [] = kv
  deserialize kv (b ∷ bytes) = elim (decode_snapshot (b ∷ bytes)) [
    | none ↦ kv
    | some (index, storage, reqs) ↦ record kv {
      latest_applied_raft_index = index;
      storage = storage;
      latest_applied_request = reqs;
    }
  ]

  -- maxraftstate != -1 && RaftStateSize() >= maxraftstate
  abbrev pub is_due : KvServer → ℕ → Bool
  is_due kv raft_state_size =
      not (kv.max_raft_state ==ℤ minus_one) && not (pos raft_state_size <ℤ kv.max_raft_state)

  -- The new state, and the snapshot that is handed to Raft, if one is due.
  unfoldable pub apply_command : KvServer → Op → ℕ → ℕ → Outcome (KvServer × Option Bytes)
  unfolding apply_op
  apply_command kv op index raft_state_size =
      let (applied, reply) = apply_op kv op in
      let kv' = record applied { latest_applied_raft_index = index } in
      do
        chs ← send index reply kv'.wait_chs
        ok (
          record kv' { wait_chs = chs },
          if is_due kv' raft_state_size then some (serialize kv') else none,
        )

  -- One round of applyLoop. A nil command fails the type assertion.
  unfoldable pub apply_message : KvServer → ApplyMsg Op → ℕ → Outcome (KvServer × Option Bytes)
  unfolding apply_command
  apply_message kv (command_msg command index) raft_state_size =
      if leb index kv.latest_applied_raft_index
      then ok (kv, none)
      else elim command [ none ↦ fatal | some op ↦ apply_command kv op index raft_state_size ]
  apply_message kv (snapshot_msg snapshot term index) raft_state_size =
      if ltb kv.latest_applied_raft_index index
      then ok (deserialize kv snapshot, none)
      else ok (kv, none)

  -- applyLoop over the messages of the channel, while Raft's state has `size` bytes.
  unfoldable pub apply_all : KvServer → List (ApplyMsg Op) → ℕ → Outcome KvServer
  apply_all kv [] size = ok kv
  apply_all kv (m ∷ ms) size = do next ← apply_message kv m size; apply_all next.0 ms size

  -- StartKVServer, at the snapshot that the persister holds
  unfoldable pub start_kv_server : ℕ → ℤ → Bytes → KvServer
  start_kv_server me max_raft_state snapshot =
      deserialize
        (record {
          me = me;
          dead = false;
          max_raft_state = max_raft_state;
          storage = [];
          wait_chs = [];
          latest_applied_request = [];
          latest_applied_raft_index = 0;
        })
        snapshot

-- The RPC handlers Get and PutAppend up to the select: not the leader, by GetState or by Start, is
-- `none`, which replies ErrWrongLeader; else the index to wait on.
unfoldable pub begin_request : KvServer → Bool → ℕ × Bool → Outcome (KvServer × Option ℕ)
begin_request kv is_leader (raft_index, still_leader) =
    if is_leader && still_leader
    then (do
      chs ← open_ch raft_index kv.wait_chs
      ok (record kv { wait_chs = chs }, some raft_index))
    else ok (kv, none)

-- From the select on: the reply's error and value.
unfoldable pub finish_request : KvServer → Bool → ℕ → KvServer × Err × Bytes
finish_request kv timed_out raft_index = elim (receive timed_out raft_index kv.wait_chs) [
  | none ↦ (record kv { wait_chs = close_ch raft_index kv.wait_chs }, err_wrong_leader, [])
  | some answer ↦
      (record kv { wait_chs = close_ch raft_index kv.wait_chs }, answer.err, answer.value)
]

-- The Op that PutAppend makes of its arguments: anything but "Put" is an append.
unfoldable pub put_append_op : Bool → Bytes → Bytes → ℕ → ℤ → Op
put_append_op is_put key value client_id request_id = record {
  type = if is_put then OpType.put else append;
  key = key;
  value = value;
  client_id = client_id;
  request_id = request_id;
}
