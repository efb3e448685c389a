-- ===== src/ShardCtrler/Rebalance/Join.antt =====
-- What a JOIN does to the Shards array (rebalanceShard of src/shardctrler/server.go).
use mit_distributed_system.Prelude.{
  ℕ, suc, ◌≤◌, ◌≡◌, ◌∙◌, true, false, List, [], ◌∷◌, length, arith, ltb, if◌then◌else◌,
}
use mit_distributed_system.ShardCtrler.Defs.{n_shards, Groups}
use mit_distributed_system.ShardCtrler.Rebalance.{
  Table, balance, weight, empty_table, sorted_gids, initial_table, rebalance_shard, write_table,
}
use mit_distributed_system.ShardCtrler.Rebalance.Counts.{size}
use mit_distributed_system.ShardCtrler.Rebalance.Balance.{balance-Even}
use mit_distributed_system.ShardCtrler.Rebalance.Holding.{
  occurs, held, Owned, held-fill_table, held-empty_table,
}
use mit_distributed_system.ShardCtrler.Rebalance.Sums.{occurs-write_table}
use mit_distributed_system.ShardCtrler.Rebalance.Initial.{
  Distinct, is_member, has_gid-sorted_gids, has_gid-initial_table, initial_table-Fits,
}

-- Every shard has a member group.
abbrev pub Members : List ℕ → Groups → Type 0
Members [] groups = Unit {0}
Members (g ∷ shards) groups = (is_member g groups ≡ true) × Members shards groups

Members-Owned :
    (shards : List ℕ) (groups : Groups)
    → Members shards groups
    → Owned shards (empty_table (sorted_gids groups))
Members-Owned [] groups m = tt
Members-Owned (g ∷ shards) groups m =
    (has_gid-sorted_gids g groups ∙ m.0, Members-Owned shards groups m.1)

module _ (groups : Groups) (shards : List ℕ) (members : Members shards groups) where
  held-initial_table :
      (s : ℕ) → held s (initial_table groups shards) ≡ (if ltb s (length shards) then 1 else 0)
  held-initial_table s = ground (
    arith,
    held-fill_table s 0 shards (empty_table (sorted_gids groups))
        (Members-Owned shards groups members),
    held-empty_table s (sorted_gids groups),
  )

  -- A JOIN that is not the first one, of groups that exist once, when each of the `n_shards` shards has
  -- a member group, leaves no member group with more than one shard above another.
  pub rebalance_shard_join :
      Distinct groups
      → length shards ≡ n_shards
      → (g h : ℕ) → is_member g groups ≡ true
      → is_member h groups ≡ true
      → occurs g (rebalance_shard groups shards true false)
        ≤ suc (occurs h (rebalance_shard groups shards true false))
  unfolding rebalance_shard
  rebalance_shard_join d full g h in_g in_h =
      let t : Table = initial_table groups shards in
      let (even, kept) =
        balance-Even (suc (weight t)) t (initial_table-Fits groups shards d full) (omega arith) in
      let u : Table = balance (suc (weight t)) t in
      let amount : (k : ℕ) → occurs k (write_table u shards) ≡ size k u = λ k.
        occurs-write_table u shards k kept.fits.unique
          (λ s a. ground (arith, kept.holds s, held-initial_table s))
          (λ s a. ground (arith, kept.holds s, held-initial_table s)) in
      let close =
        even g h (kept.groups g ∙ (has_gid-initial_table groups shards g ∙ in_g))
          (kept.groups h ∙ (has_gid-initial_table groups shards h ∙ in_h)) in
      omega (arith, close, amount g, amount h)
