-- ===== src/ShardKv/Server.antt =====
-- The rest of ShardKV in src/shardkv/server.go: its snapshots, a round of applyLoop, the client
-- handlers and StartServer.
use mit_distributed_system.Prelude.{
  ℕ, ℤ, pos, negsuc, minus_one, ◌==ℤ◌, ◌<ℤ◌, Bool, not, ◌&&◌, Option, none, some, [], ◌∷◌, ◌++◌,
  leb, ltb, if◌then◌else◌, Outcome, ok, fatal, ◌>>=◌,
}
use mit_distributed_system.Gob.{Bytes, Coder}
use mit_distributed_system.Service.Requests.{Requests}
use mit_distributed_system.Service.WaitChs.{open_ch, send, receive, close_ch}
use mit_distributed_system.Raft.State.{ApplyMsg, command_msg, snapshot_msg}
use mit_distributed_system.ShardCtrler.Defs.{Config, empty_config}
use mit_distributed_system.ShardKv.Defs.{
  Shards, Command, get, append, Op, Err, err_wrong_leader, WaitChResponse, ShardKv,
}
use mit_distributed_system.ShardKv.Apply.{apply_op}

-- The encoders that serialize uses.
pub record Codec : Type 0 where
  pub ints : Coder ℤ
  pub requests : Coder Requests
  pub configs : Coder Config
  pub shards : Coder Shards

-- The values of a snapshot.
pub record Saved : Type 0 where
  pub index : ℕ
  pub requests : Requests
  pub prev_config : Config
  pub curr_config : Config
  pub shards : Shards

abbrev pub or_fatal : {A : Type 0} → Option A → Outcome A
or_fatal none = fatal
or_fatal (some a) = ok a

-- A negative index, which serialize never writes, counts as an error.
abbrev pub natural : ℤ × Bytes → Outcome (ℕ × Bytes)
natural (pos n, rest) = ok (n, rest)
natural (negsuc n, rest) = fatal

module _ (codec : Codec) where
  open codec use {ints, requests, configs, shards}

  unfoldable pub serialize : ShardKv → Bytes
  serialize kv =
      ints.encode (pos kv.latest_applied_raft_index)
      ++ (requests.encode kv.latest_applied_request
          ++ (configs.encode kv.prev_config
              ++ (configs.encode kv.curr_config ++ shards.encode kv.shards)))

  unfoldable pub decode_snapshot : Bytes → Outcome Saved
  decode_snapshot bytes = do
    found ← or_fatal (ints.decode bytes)
    index ← natural found
    reqs ← or_fatal (requests.decode index.1)
    prev ← or_fatal (configs.decode reqs.1)
    curr ← or_fatal (configs.decode prev.1)
    all ← or_fatal (shards.decode curr.1)
    ok (record {
      index = index.0;
      requests = reqs.0;
      prev_config = prev.0;
      curr_config = curr.0;
      shards = all.0;
    })

  abbrev pub restore : ShardKv → Saved → ShardKv
  restore kv saved = record kv {
    latest_applied_raft_index = saved.index;
    latest_applied_request = saved.requests;
    prev_config = saved.prev_config;
    curr_config = saved.curr_config;
    shards = saved.shards;
  }

  unfoldable pub deserialize : ShardKv → Bytes → Outcome ShardKv
  deserialize kv [] = ok kv
  deserialize kv (b ∷ bytes) = do saved ← decode_snapshot (b ∷ bytes); ok (restore kv saved)

  -- maxraftstate != -1 && RaftStateSize() >= maxraftstate
  abbrev pub is_due : ShardKv → ℕ → Bool
  is_due kv raft_state_size =
      not (kv.max_raft_state ==ℤ minus_one) && not (pos raft_state_size <ℤ kv.max_raft_state)

  unfoldable pub after_op : ShardKv × WaitChResponse → ℕ → ℕ → Outcome (ShardKv × Option Bytes)
  after_op (applied, reply) index raft_state_size =
      let kv' = record applied { latest_applied_raft_index = index } in
      do
        chs ← send index reply kv'.wait_chs
        ok (
          record kv' { wait_chs = chs },
          if is_due kv' raft_state_size then some (serialize kv') else none,
        )

  -- One round of applyLoop: the new state, and the snapshot handed to Raft if one is due. A nil
  -- command fails the type assertion.
  unfoldable pub apply_message : ShardKv → ApplyMsg Op → ℕ → Outcome (ShardKv × Option Bytes)
  apply_message kv (command_msg command index) raft_state_size =
      if leb index kv.latest_applied_raft_index then ok (kv, none) else elim command [
        | none ↦ fatal
        | some op ↦ apply_op kv op >>= λ next. after_op next index raft_state_size
      ]
  apply_message kv (snapshot_msg snapshot term index) raft_state_size =
      if ltb kv.latest_applied_raft_index index
      then (do kv' ← deserialize kv snapshot; ok (kv', none))
      else ok (kv, none)

  -- StartServer, at the snapshot that the persister holds
  unfoldable pub start_server : ℕ → ℕ → ℤ → Bytes → Outcome ShardKv
  start_server me gid max_raft_state snapshot =
      deserialize
        (record {
          me = me;
          gid = gid;
          max_raft_state = max_raft_state;
          shards = [];
          prev_config = empty_config;
          curr_config = empty_config;
          wait_chs = [];
          latest_applied_request = [];
          latest_applied_raft_index = 0;
          tasks = [];
        })
        snapshot

-- The RPC handlers Get, PutAppend and Leave up to the select, on the result of Start: not the leader
-- is `none`, which replies ErrWrongLeader; else the index to wait on.
unfoldable pub begin_request : ShardKv → ℕ × Bool → Outcome (ShardKv × Option ℕ)
begin_request kv (raft_index, is_leader) =
    let opened = (do
      chs ← open_ch raft_index kv.wait_chs
      ok (record kv { wait_chs = chs }, some raft_index)) in
    if is_leader then opened else ok (kv, none)

-- From the select on: the reply's error and value.
unfoldable pub finish_request : ShardKv → Bool → ℕ → ShardKv × Err × Bytes
finish_request kv timed_out raft_index = elim (receive timed_out raft_index kv.wait_chs) [
  | none ↦ (record kv { wait_chs = close_ch raft_index kv.wait_chs }, err_wrong_leader, [])
  | some answer ↦
      (record kv { wait_chs = close_ch raft_index kv.wait_chs }, answer.err, answer.value)
]

-- The Op that Get and PutAppend make of their arguments: anything but "Put" is an append.
unfoldable pub get_op : Bytes → ℕ → ℤ → Op
get_op key client_id request_id = record {
  command = get key;
  client_id = client_id;
  request_id = request_id;
}

unfoldable pub put_append_op : Bool → Bytes → Bytes → ℕ → ℤ → Op
put_append_op is_put key value client_id request_id = record {
  command = if is_put then Command.put key value else append key value;
  client_id = client_id;
  request_id = request_id;
}
