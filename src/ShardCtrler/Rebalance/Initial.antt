-- ===== src/ShardCtrler/Rebalance/Initial.antt =====
-- The table that rebalanceShard (src/shardctrler/server.go) builds before it moves shards.
use mit_distributed_system.Prelude.{
  ℕ, suc, ◌+◌, ◌≤◌, ◌≡◌, refl, ap, ◌∙◌, Bool, true, false, not, Option, none, some, List, [], ◌∷◌,
  ltb, ◌==◌, if◌then◌else◌, length, arith, Bool-cases, replicate, inl, inr, ◌&&◌,
}
use mit_distributed_system.Assoc.{lookup, nat_key}
use mit_distributed_system.ShardCtrler.Defs.{n_shards, Groups}
use mit_distributed_system.ShardCtrler.Rebalance.{
  Table, has_gid, add_shard, insert_gid, sorted_gids, empty_table, fill_table, initial_table,
  rebalance_shard, write_table, balance, weight,
}
use mit_distributed_system.ShardCtrler.Rebalance.Owners.{length-write_table}
use mit_distributed_system.ShardCtrler.Rebalance.Counts.{
  total, Unique, total-add_shard, has_gid-add_shard, Unique-add_shard,
}
use mit_distributed_system.ShardCtrler.Rebalance.Balance.{Fits, Even, balance-Even}

-- No gid has two entries.
abbrev pub Distinct : Groups → Type 0
Distinct [] = Unit {0}
Distinct ((gid, servers) ∷ groups) = (lookup gid groups ≡ none) × Distinct groups

abbrev is_some : {A : Type 0} → Option A → Bool
is_some none = false
is_some (some a) = true

-- Whether a gid is a member.
abbrev pub is_member : ℕ → Groups → Bool
is_member gid groups = is_some (lookup gid groups)

has_gid-insert_gid :
    (g h : ℕ) (gs : List ℕ)
    → has_gid h (empty_table (insert_gid g gs))
      ≡ (if g == h then true else has_gid h (empty_table gs))
unfolding has_gid empty_table insert_gid
has_gid-insert_gid g h [] = refl
has_gid-insert_gid g h (k ∷ gs) = ground (arith, has_gid-insert_gid g h gs)

Unique-insert_gid :
    (g : ℕ) (gs : List ℕ)
    → has_gid g (empty_table gs) ≡ false
    → Unique (empty_table gs)
    → Unique (empty_table (insert_gid g gs))
unfolding has_gid empty_table insert_gid
Unique-insert_gid g [] new u = (refl, tt)
Unique-insert_gid g (k ∷ gs) new u =
    ground (arith, Unique-insert_gid g gs, has_gid-insert_gid g k gs)

pub has_gid-sorted_gids :
    (g : ℕ) (groups : Groups) → has_gid g (empty_table (sorted_gids groups)) ≡ is_member g groups
unfolding sorted_gids lookup empty_table has_gid
has_gid-sorted_gids g [] = refl
has_gid-sorted_gids g ((k, servers) ∷ groups) =
    ground (arith, has_gid-insert_gid k g (sorted_gids groups), has_gid-sorted_gids g groups)

Unique-sorted_gids : (groups : Groups) → Distinct groups → Unique (empty_table (sorted_gids groups))
unfolding sorted_gids empty_table
Unique-sorted_gids [] d = tt
Unique-sorted_gids ((k, servers) ∷ groups) d =
    Unique-insert_gid k (sorted_gids groups) (has_gid-sorted_gids k groups ∙ ap is_some d.0)
      (Unique-sorted_gids groups d.1)

add_shard-absent : (g shard : ℕ) (t : Table) → has_gid g t ≡ false → add_shard g shard t ≡ t
unfolding has_gid add_shard
add_shard-absent g shard [] h = refl
add_shard-absent g shard ((k, xs) ∷ t) h = ground (arith, add_shard-absent g shard t)

total-add_shard_le : (g shard : ℕ) (t : Table) → total (add_shard g shard t) ≤ suc (total t)
total-add_shard_le g shard t = elim (Bool-cases (has_gid g t)) [
  | inl h ↦ omega (arith, total-add_shard g shard t h)
  | inr h ↦ rw (add_shard-absent g shard t h) (omega arith)
]

total-fill_table :
    (i : ℕ) (shards : List ℕ) (t : Table) → total (fill_table i shards t) ≤ length shards + total t
unfolding fill_table
total-fill_table i [] t = omega arith
total-fill_table i (g ∷ shards) t =
    omega (arith, total-fill_table (suc i) shards (add_shard g i t), total-add_shard_le g i t)

Unique-fill_table :
    (i : ℕ) (shards : List ℕ) (t : Table) → Unique t → Unique (fill_table i shards t)
unfolding fill_table
Unique-fill_table i [] t u = u
Unique-fill_table i (g ∷ shards) t u =
    Unique-fill_table (suc i) shards (add_shard g i t) (Unique-add_shard g i t u)

has_gid-fill_table :
    (i : ℕ) (shards : List ℕ) (h : ℕ) (t : Table) → has_gid h (fill_table i shards t) ≡ has_gid h t
unfolding fill_table
has_gid-fill_table i [] h t = refl
has_gid-fill_table i (g ∷ shards) h t =
    has_gid-fill_table (suc i) shards h (add_shard g i t) ∙ has_gid-add_shard g i h t

total-empty_table : (gids : List ℕ) → total (empty_table gids) ≡ 0
unfolding empty_table total
total-empty_table [] = refl
total-empty_table (g ∷ gids) = omega (arith, total-empty_table gids)

pub initial_table-Fits :
    (groups : Groups) (shards : List ℕ)
    → Distinct groups
    → length shards ≡ n_shards
    → Fits (initial_table groups shards)
initial_table-Fits groups shards d full = record {
  unique = Unique-fill_table 0 shards _ (Unique-sorted_gids groups d);
  bounded = omega (
    arith,
    total-fill_table 0 shards (empty_table (sorted_gids groups)),
    total-empty_table (sorted_gids groups),
  );
}

pub has_gid-initial_table :
    (groups : Groups) (shards : List ℕ) (g : ℕ)
    → has_gid g (initial_table groups shards) ≡ is_member g groups
has_gid-initial_table groups shards g =
    has_gid-fill_table 0 shards g (empty_table (sorted_gids groups)) ∙ has_gid-sorted_gids g groups

-- What a JOIN that is not the first one places: a table that is written over the old shards, that has
-- exactly the member groups, and where no group has more than one shard above another.
pub record JoinPlaced (groups : Groups) (shards : List ℕ) (new : List ℕ) : Type 0 where
  pub table : Table
  pub written : new ≡ write_table table shards
  pub members : (g : ℕ) → has_gid g table ≡ is_member g groups
  pub even : Even table
  pub kept : total table ≡ total (initial_table groups shards)

-- A JOIN that is not the first one, of groups that exist once over `n_shards` shards, spreads the
-- shards that have a member group evenly over all groups: after finitely many rounds no group has more
-- than one shard above another, and there are as many such shards as before.
pub rebalance_shard-JoinPlaced :
    (groups : Groups) (shards : List ℕ)
    → Distinct groups
    → length shards ≡ n_shards
    → JoinPlaced groups shards (rebalance_shard groups shards true false)
unfolding rebalance_shard
rebalance_shard-JoinPlaced groups shards d full =
    let t : Table = initial_table groups shards in
    let (even, kept) =
      balance-Even (suc (weight t)) t (initial_table-Fits groups shards d full) (omega arith) in
    record {
      table = balance (suc (weight t)) t;
      written = refl;
      members = λ g. kept.groups g ∙ has_gid-initial_table groups shards g;
      even = even;
      kept = kept.shards;
    }

-- The result has an entry for each shard.
pub length-rebalance_shard :
    (groups : Groups) (shards : List ℕ) (is_join is_first : Bool)
    → length shards ≡ n_shards
    → length (rebalance_shard groups shards is_join is_first) ≡ n_shards
unfolding rebalance_shard
length-rebalance_shard groups shards is_join is_first full =
    elim (Bool-cases (is_join && not is_first)) [
      | inl join ↦ rw join (length-write_table _ shards ∙ full)
      | inr other ↦ elim (Bool-cases (ltb 0 (length groups))) [
        | inl some_group ↦ rw (other, some_group) (length-write_table _ shards ∙ full)
        | inr no_group ↦ rw (other, no_group) (length-write_table _ (replicate n_shards 0))
      ]
    ]
