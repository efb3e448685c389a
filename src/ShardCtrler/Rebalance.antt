-- ===== src/ShardCtrler/Rebalance.antt =====
-- rebalanceShard of src/shardctrler/server.go. groupToShards is kept as the list of its entries in the
-- order of sortedGIDs, the order in which the code visits them.
pub mod Counts
pub mod Balance
pub mod Holding
pub mod Owners
pub mod Sums
pub mod Initial
pub mod Join
use mit_distributed_system.Prelude.{
  ℕ, zero, suc, ◌+◌, ◌-◌, ◌*◌, Bool, true, false, not, ◌&&◌, Option, none, some, List, [], ◌∷◌,
  ◌++◌, leb, ltb, ◌==◌, if◌then◌else◌, length, set, replicate,
}
use mit_distributed_system.ShardCtrler.Defs.{n_shards, Groups}

abbrev pub Table : Type 0
Table = List (ℕ × List ℕ)

-- sort.Ints over the keys of the groups
unfoldable pub insert_gid : ℕ → List ℕ → List ℕ
insert_gid gid [] = gid ∷ []
insert_gid gid (g ∷ gs) = if leb gid g then gid ∷ g ∷ gs else g ∷ insert_gid gid gs

unfoldable pub sorted_gids : Groups → List ℕ
sorted_gids [] = []
sorted_gids ((gid, servers) ∷ groups) = insert_gid gid (sorted_gids groups)

-- groupToShards[gid] = make([]int, 0)
unfoldable pub empty_table : List ℕ → Table
empty_table [] = []
empty_table (gid ∷ gids) = (gid, []) ∷ empty_table gids

-- _, exist := groupToShards[gid]
unfoldable pub has_gid : ℕ → Table → Bool
has_gid gid [] = false
has_gid gid ((g, xs) ∷ t) = if g == gid then true else has_gid gid t

-- groupToShards[gid] = append(groupToShards[gid], shard), of a gid that exists
unfoldable pub add_shard : ℕ → ℕ → Table → Table
add_shard gid shard [] = []
add_shard gid shard ((g, xs) ∷ t) =
    if g == gid then (g, xs ++ shard ∷ []) ∷ t else (g, xs) ∷ add_shard gid shard t

-- groupToShards[gid][0]
unfoldable pub first_shard : ℕ → Table → Option ℕ
first_shard gid [] = none
first_shard gid ((g, xs) ∷ t) =
    if g == gid then (elim xs [ [] ↦ none | x ∷ rest ↦ some x ]) else first_shard gid t

-- groupToShards[gid] = groupToShards[gid][1:]
unfoldable pub drop_shard : ℕ → Table → Table
drop_shard gid [] = []
drop_shard gid ((g, xs) ∷ t) =
    if g == gid
    then (g, (elim xs [ [] ↦ [] | x ∷ rest ↦ rest ])) ∷ t
    else (g, xs) ∷ drop_shard gid t

-- for shardIndex, gid := range shards, from the index `i` on
unfoldable pub fill_table : ℕ → List ℕ → Table → Table
fill_table i [] t = t
fill_table i (gid ∷ shards) t = fill_table (suc i) shards (add_shard gid i t)

-- The shards from the index `i` on whose group does not exist.
unfoldable pub orphan_shards : ℕ → List ℕ → Table → List ℕ
orphan_shards i [] t = []
orphan_shards i (gid ∷ shards) t =
    let rest = orphan_shards (suc i) shards t in if has_gid gid t then rest else i ∷ rest

-- The scans for the group with the most shards and for the one with the fewest: the count and the
-- gid so far, the gid being -1 (`none`) at first; a later group wins a tie.
unfoldable pub scan_max : Table → ℕ → Option ℕ → ℕ × Option ℕ
scan_max [] count gid = (count, gid)
scan_max ((g, xs) ∷ t) count gid =
    if leb count (length xs) then scan_max t (length xs) (some g) else scan_max t count gid

unfoldable pub scan_min : Table → ℕ → Option ℕ → ℕ × Option ℕ
scan_min [] count gid = (count, gid)
scan_min ((g, xs) ∷ t) count gid =
    if leb (length xs) count then scan_min t (length xs) (some g) else scan_min t count gid

-- One shard from the group `from` to the group `to`.
unfoldable pub move_shard : Option ℕ → Option ℕ → Table → Table
move_shard none to t = t
move_shard (some from) none t = t
move_shard (some from) (some to) t = elim (first_shard from t) [
  | none ↦ t
  | some shard ↦ drop_shard from (add_shard to shard t)
]

-- The sum of the squares of the group sizes, which bounds the rounds of the loop.
unfoldable pub weight : Table → ℕ
weight [] = 0
weight ((g, xs) ∷ t) = length xs * length xs + weight t

-- The loop of a later JOIN, with `fuel` rounds at most.
unfoldable pub balance : ℕ → Table → Table
balance zero t = t
balance (suc fuel) t =
    let (max_count, max_gid) = scan_max t 0 none in
    let (min_count, min_gid) = scan_min t (suc n_shards) none in
    let next = balance fuel (move_shard max_gid min_gid t) in
    if leb (max_count - min_count) 1 then t else next

-- groupToShards[minGid] = append(groupToShards[minGid], shard)
unfoldable pub add_to : Option ℕ → ℕ → Table → Table
add_to none shard t = t
add_to (some gid) shard t = add_shard gid shard t

-- Every orphan to the group that has the fewest shards by then.
unfoldable pub adopt_orphans : List ℕ → Table → Table
adopt_orphans [] t = t
adopt_orphans (shard ∷ orphans) t =
    adopt_orphans orphans (add_to (scan_min t (suc n_shards) none).1 shard t)

-- for _, shard := range shards { rebalancedShards[shard] = gid }
unfoldable pub write_group : ℕ → List ℕ → List ℕ → List ℕ
write_group gid [] shards = shards
write_group gid (shard ∷ rest) shards = write_group gid rest (set shards shard gid)

unfoldable pub write_table : Table → List ℕ → List ℕ
write_table [] shards = shards
write_table ((gid, xs) ∷ t) shards = write_table t (write_group gid xs shards)

abbrev pub initial_table : Groups → List ℕ → Table
initial_table groups shards = fill_table 0 shards (empty_table (sorted_gids groups))

unfoldable pub rebalance_shard : Groups → List ℕ → Bool → Bool → List ℕ
rebalance_shard groups shards is_join is_first =
    let t = initial_table groups shards in
    if is_join && not is_first
    then write_table (balance (suc (weight t)) t) shards
    else if ltb 0 (length groups)
    then write_table (adopt_orphans (orphan_shards 0 shards t) t) shards
    else write_table t (replicate n_shards 0)
