-- ===== src/ShardKv/Keys.antt =====
-- key2shard of src/shardkv/client.go. A key is its bytes.
use mit_distributed_system.Prelude.{ℕ, ◌<◌, [], ◌∷◌, arith}
use Prim.Native.Nat.{◌%◌}
use mit_distributed_system.ShardCtrler.Defs.{n_shards}
use mit_distributed_system.Gob.{Bytes}

unfoldable pub key2shard : Bytes → ℕ
key2shard [] = 0
key2shard (b ∷ key) = b % n_shards

-- Every key has one of the shards.
pub key2shard_bounds : (key : Bytes) → key2shard key < n_shards
unfolding key2shard
key2shard_bounds [] = omega arith
key2shard_bounds (b ∷ key) = omega arith
