-- ===== src/ShardKv/Apply/Moves.antt =====
-- The changes of a shard's status in the apply loop of src/shardkv/server.go, each one written out.
use mit_distributed_system.Prelude.{ℕ, suc, ◌≡◌, ◌≢◌, ◌⊎◌, Option, none, some, get_elem?}
use mit_distributed_system.Gob.{Bytes}
use mit_distributed_system.Assoc.{Assoc}
use mit_distributed_system.ShardCtrler.Defs.{Config}
use mit_distributed_system.ShardKv.Defs.{
  ShardStatus, working, pulling, leaving, waiting, Command, get, append, update_config, pull_shard,
  leave_shard, transfer_done,
}

-- The status of the shard `s` before and after a command, in a group `me` at a version of the
-- configuration; `none` is a shard that the group does not have.
pub data Moves (me version s : ℕ) : Command → Option ShardStatus → Option ShardStatus → Type 0 where
  -- A client's command.
  reads : (key : Bytes) {old : Option ShardStatus} → Moves me version s (get key) old old
  puts :
      (key value : Bytes) {old : Option ShardStatus}
      → Moves me version s (Command.put key value) old old
  appends :
      (key value : Bytes) {old : Option ShardStatus} → Moves me version s (append key value) old old
  -- A configuration that is not the next one.
  another :
      (config : Config) {old : Option ShardStatus}
      → config.num ≢ suc version
      → Moves me version s (update_config config) old old
  -- The first one: its shards are there at once.
  first_given :
      (config : Config) {old : Option ShardStatus}
      → config.num ≡ suc version
      → config.num ≡ 1
      → get_elem? config.shards s ≡ some me
      → Moves me version s (update_config config) old (some working)
  first_other :
      (config : Config) {old : Option ShardStatus}
      → config.num ≡ suc version
      → config.num ≡ 1
      → get_elem? config.shards s ≢ some me
      → Moves me version s (update_config config) old old
  -- A later one gives the group a shard that it does not have, or has already.
  gains :
      (config : Config)
      → config.num ≡ suc version
      → config.num ≢ 1
      → get_elem? config.shards s ≡ some me
      → Moves me version s (update_config config) none (some pulling)
  keeps :
      (config : Config) {st : ShardStatus}
      → config.num ≡ suc version
      → config.num ≢ 1
      → get_elem? config.shards s ≡ some me
      → Moves me version s (update_config config) (some st) (some st)
  -- A later one gives a shard to another group.
  loses :
      (config : Config) {st : ShardStatus}
      → config.num ≡ suc version
      → config.num ≢ 1
      → get_elem? config.shards s ≢ some me
      → Moves me version s (update_config config) (some st) (some leaving)
  has_not :
      (config : Config)
      → config.num ≡ suc version
      → config.num ≢ 1
      → get_elem? config.shards s ≢ some me
      → Moves me version s (update_config config) none none
  -- The data of a shard arrive.
  arrives :
      (storage : Assoc Bytes Bytes)
      → Moves me version s (pull_shard s version storage) (some pulling) (some waiting)
  not_pulling :
      (i v : ℕ) (storage : Assoc Bytes Bytes) {old : Option ShardStatus}
      → (version ≢ v) ⊎ ((i ≢ s) ⊎ (old ≢ some pulling))
      → Moves me version s (pull_shard i v storage) old old
  -- A shard that was handed over is deleted, whatever its status.
  deleted : {old : Option ShardStatus} → Moves me version s (leave_shard s version) old none
  not_deleted :
      (i v : ℕ) {old : Option ShardStatus}
      → (version ≢ v) ⊎ (i ≢ s)
      → Moves me version s (leave_shard i v) old old
  -- The old owner has deleted its copy.
  settles : Moves me version s (transfer_done s version) (some waiting) (some working)
  not_waiting :
      (i v : ℕ) {old : Option ShardStatus}
      → (version ≢ v) ⊎ ((i ≢ s) ⊎ (old ≢ some waiting))
      → Moves me version s (transfer_done i v) old old
