-- ===== src/ShardCtrler/Apply/Progress.antt =====
-- The operations of a ShardCtrler (src/shardctrler/server.go) do not panic.
use mit_distributed_system.Prelude.{◌<◌, ◌≡◌, pos, negsuc, Outcome, ok}
use mit_distributed_system.ShardCtrler.Defs.{
  n_shards, Command, join, leave, move, query, ShardCtrler,
}

-- There is a result.
abbrev pub Returns {ℓ} : {A : Type ℓ} → Outcome A → Type ℓ
Returns {A} o = (a : A) × (o ≡ ok a)

-- The shard of a MOVE is one of the shards.
abbrev pub InRange : Command → Type 0
InRange (join servers) = Unit {0}
InRange (leave gids) = Unit {0}
InRange (move (pos shard) gid) = shard < n_shards
InRange (move (negsuc n) gid) = ⊥
InRange (query n) = Unit {0}
