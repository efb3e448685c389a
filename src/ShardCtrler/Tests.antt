-- ===== src/ShardCtrler/Tests.antt =====
-- The theorems about a ShardCtrler at concrete states.
use mit_distributed_system.Prelude.{ℕ, suc, pos, refl, true, false, [], ◌∷◌, List, arith, ◌<◌, ◌≤◌}
use mit_distributed_system.Assoc.{lookup}
use mit_distributed_system.ShardCtrler.Defs.{Groups, Op, ShardCtrler, join, move}
use mit_distributed_system.ShardCtrler.Rebalance.{Table, balance, weight, rebalance_shard, has_gid}
use mit_distributed_system.ShardCtrler.Rebalance.Counts.{total}
use mit_distributed_system.ShardCtrler.Rebalance.Balance.{Fits, Even, Kept, balance-Even}
use mit_distributed_system.ShardCtrler.Rebalance.Holding.{occurs}
use mit_distributed_system.ShardCtrler.Rebalance.Join.{rebalance_shard_join}

-- All shards on the group 1, and an empty group 2.
abbrev lopsided : Table
lopsided = (1, 0 ∷ 1 ∷ 2 ∷ 3 ∷ 4 ∷ 5 ∷ 6 ∷ 7 ∷ 8 ∷ 9 ∷ []) ∷ (2, []) ∷ []

lopsided-Fits : Fits lopsided
unfolding has_gid total
lopsided-Fits = record { unique = (refl, (refl, tt)); bounded = omega arith }

lopsided_bound : weight lopsided < 101
unfolding weight
lopsided_bound = omega arith

balance-Even_example : Even (balance 101 lopsided) × Kept lopsided (balance 101 lopsided)
balance-Even_example = balance-Even 101 lopsided lopsided-Fits lopsided_bound

abbrev two_groups : Groups
two_groups = (2, (8 ∷ []) ∷ []) ∷ (1, (9 ∷ []) ∷ []) ∷ []

abbrev all_on_one : List ℕ
all_on_one = 1 ∷ 1 ∷ 1 ∷ 1 ∷ 1 ∷ 1 ∷ 1 ∷ 1 ∷ 1 ∷ 1 ∷ []

rebalance_shard_join_example :
    occurs 1 (rebalance_shard two_groups all_on_one true false)
    ≤ suc (occurs 2 (rebalance_shard two_groups all_on_one true false))
unfolding lookup
rebalance_shard_join_example =
    rebalance_shard_join two_groups all_on_one
      (refl, (refl, (refl, (refl, (refl, (refl, (refl, (refl, (refl, (refl, tt))))))))))
      (refl, (refl, tt)) refl 1 2 refl refl

abbrev joining : Op
joining = record { command = join two_groups; client_id = 5; request_id = pos 0 }

abbrev moving : Op
moving = record { command = move (pos 3) 2; client_id = 5; request_id = pos 1 }
