-- ===== src/ShardKv/Restart.antt =====
-- The snapshots of a server of src/shardkv/server.go, and a restart from one.
use mit_distributed_system.Prelude.{
  ℕ, ℤ, pos, ◌≡◌, ◌≢◌, refl, Bool, none, some, [], ◌∷◌, ◌++◌, arith, ok, ◌>>=◌, append-nil,
}
use mathlib.Core.List.{append-eq-nil_iff}
use mit_distributed_system.Gob.{Bytes}
use mit_distributed_system.Assoc.{nat_key}
use mit_distributed_system.ShardCtrler.Defs.{Config, empty_config}
use mit_distributed_system.ShardKv.Defs.{pulling, ShardKv}
use mit_distributed_system.ShardKv.Server.{
  Codec, Saved, serialize, decode_snapshot, restore, deserialize, start_server,
}
use mit_distributed_system.ShardKv.Apply.Statuses.{status}
use mit_distributed_system.ShardKv.Transfer.{fetch_round}
use mit_distributed_system.ShardKv.Invariant.{all_working-works}

module _ (codec : Codec) where
  open codec use {ints, requests, configs, shards}

  -- What a snapshot of `kv` holds.
  abbrev pub saved : ShardKv → Saved
  saved kv = record {
    index = kv.latest_applied_raft_index;
    requests = kv.latest_applied_request;
    prev_config = kv.prev_config;
    curr_config = kv.curr_config;
    shards = kv.shards;
  }

  decode_snapshot-serialize :
      (kv : ShardKv) → decode_snapshot codec (serialize codec kv) ≡ ok (saved kv)
  unfolding decode_snapshot serialize
  decode_snapshot-serialize kv =
      let held = shards.encode kv.shards in
      let curr = configs.encode kv.curr_config ++ held in
      let prev = configs.encode kv.prev_config ++ curr in
      ground (
        arith,
        ints.decode_encode (pos kv.latest_applied_raft_index)
            (requests.encode kv.latest_applied_request ++ prev),
        requests.decode_encode kv.latest_applied_request prev,
        configs.decode_encode kv.prev_config curr,
        configs.decode_encode kv.curr_config held,
        shards.decode_encode kv.shards [],
        append-nil held,
      )

  serialize-nonempty : (kv : ShardKv) → serialize codec kv ≢ []
  unfolding serialize
  serialize-nonempty kv e =
      ints.encode_nonempty (pos kv.latest_applied_raft_index) (append-eq-nil_iff.0 e).0

  deserialize_nonempty :
      (kv : ShardKv) (bytes : Bytes) {held : Saved}
      → bytes ≢ []
      → decode_snapshot codec bytes ≡ ok held
      → deserialize codec kv bytes ≡ ok (restore codec kv held)
  unfolding deserialize
  deserialize_nonempty kv [] some_byte e = absurd (some_byte refl)
  deserialize_nonempty kv (b ∷ bytes) some_byte e = rw (e, ◌>>=◌) refl

  -- A server that reads the snapshot of another one has its position, record of requests,
  -- configurations and shards, and keeps its other fields.
  pub deserialize-serialize :
      (kv old : ShardKv)
      → deserialize codec old (serialize codec kv) ≡ ok (restore codec old (saved kv))
  deserialize-serialize kv old =
      deserialize_nonempty old (serialize codec kv) (serialize-nonempty kv)
        (decode_snapshot-serialize kv)

  -- A restart from a snapshot that was taken while a shard was PULLING succeeds, and the shard is
  -- PULLING still, at the same configuration; but no goroutine runs that would pull it, and the round of
  -- fetchNextConfig asks for no configuration, whether the server is the leader or not.
  pub start_server-serialize :
      (kv : ShardKv) (s me gid : ℕ) (max_raft_state : ℤ)
      → status kv s ≡ some pulling
      → (new : ShardKv) × (start_server codec me gid max_raft_state (serialize codec kv) ≡ ok new)
        × (status new s ≡ some pulling)
        × (new.curr_config ≡ kv.curr_config)
        × (new.tasks ≡ [])
        × ((is_leader : Bool) (query : ℕ → Config) → fetch_round new is_leader query ≡ ok none)
  unfolding start_server fetch_round
  start_server-serialize kv s me gid max_raft_state pulls = (
    restore codec
        (record {
          me = me;
          gid = gid;
          max_raft_state = max_raft_state;
          shards = [];
          prev_config = empty_config;
          curr_config = empty_config;
          wait_chs = [];
          latest_applied_request = [];
          latest_applied_raft_index = 0;
          tasks = [];
        })
        (saved kv),
    deserialize-serialize kv _,
    pulls,
    refl,
    refl,
    λ is_leader query. ground (arith, all_working-works kv.shards s),
  )
