-- ===== src/ShardCtrler/Rebalance/Holding.antt =====
-- Which shards the table of rebalanceShard (src/shardctrler/server.go) holds, and how often.
use mit_distributed_system.Prelude.{
  ℕ, suc, ◌+◌, ◌≡◌, refl, ◌∙◌, true, some, List, [], ◌∷◌, ◌++◌, leb, ltb, ◌==◌, if◌then◌else◌, ◌&&◌,
  length, arith,
}
use mit_distributed_system.ShardCtrler.Rebalance.{
  Table, has_gid, add_shard, first_shard, drop_shard, fill_table, empty_table,
}
use mit_distributed_system.ShardCtrler.Rebalance.Counts.{has_gid-add_shard}

-- How often a shard is in a list, in the whole table, and in the entry of a group.
unfoldable pub occurs : ℕ → List ℕ → ℕ
occurs s [] = 0
occurs s (x ∷ xs) = if x == s then suc (occurs s xs) else occurs s xs

unfoldable pub held : ℕ → Table → ℕ
held s [] = 0
held s ((g, xs) ∷ t) = occurs s xs + held s t

unfoldable pub held_by : ℕ → ℕ → Table → ℕ
held_by h s [] = 0
held_by h s ((g, xs) ∷ t) = if g == h then occurs s xs else held_by h s t

occurs-snoc :
    (s x : ℕ) (xs : List ℕ)
    → occurs s (xs ++ x ∷ []) ≡ (if x == s then suc (occurs s xs) else occurs s xs)
unfolding occurs
occurs-snoc s x [] = refl
occurs-snoc s x (y ∷ xs) = ground (arith, occurs-snoc s x xs)

pub held-add_shard :
    (s g x : ℕ) (t : Table)
    → has_gid g t ≡ true
    → held s (add_shard g x t) ≡ (if x == s then suc (held s t) else held s t)
unfolding held add_shard has_gid
held-add_shard s g x [] h = cc
held-add_shard s g x ((k, xs) ∷ t) h = ground (arith, occurs-snoc s x xs, held-add_shard s g x t)

pub held-drop_shard :
    (s g x : ℕ) (t : Table)
    → first_shard g t ≡ some x
    → held s t ≡ (if x == s then suc (held s (drop_shard g t)) else held s (drop_shard g t))
unfolding held drop_shard first_shard occurs
held-drop_shard s g x [] h = cc
held-drop_shard s g x ((k, []) ∷ t) h = ground (arith, held-drop_shard s g x t)
held-drop_shard s g x ((k, y ∷ xs) ∷ t) h = ground (arith, held-drop_shard s g x t)

pub first_shard-add_shard :
    (g h x y : ℕ) (t : Table) → first_shard g t ≡ some x → first_shard g (add_shard h y t) ≡ some x
unfolding first_shard add_shard
first_shard-add_shard g h x y [] e = e
first_shard-add_shard g h x y ((k, []) ∷ t) e = ground (arith, first_shard-add_shard g h x y t)
first_shard-add_shard g h x y ((k, z ∷ xs) ∷ t) e = ground (arith, first_shard-add_shard g h x y t)

-- Moving the first shard of a group keeps every shard.
pub held-moved :
    (s g h x : ℕ) (t : Table)
    → has_gid h t ≡ true
    → first_shard g t ≡ some x
    → held s (drop_shard g (add_shard h x t)) ≡ held s t
held-moved s g h x t in_h e = ground (
  arith,
  held-add_shard s h x t in_h,
  held-drop_shard s g x (add_shard h x t) (first_shard-add_shard g h x x t e),
)

-- Every shard of a list has a group of the table.
abbrev pub Owned : List ℕ → Table → Type 0
Owned [] t = Unit {0}
Owned (g ∷ shards) t = (has_gid g t ≡ true) × Owned shards t

Owned-add_shard :
    (g x : ℕ) (shards : List ℕ) (t : Table) → Owned shards t → Owned shards (add_shard g x t)
Owned-add_shard g x [] t o = tt
Owned-add_shard g x (h ∷ shards) t o =
    (has_gid-add_shard g x h t ∙ o.0, Owned-add_shard g x shards t o.1)

pub held-fill_table :
    (s i : ℕ) (shards : List ℕ) (t : Table)
    → Owned shards t
    → held s (fill_table i shards t)
      ≡ (if leb i s && ltb s (i + length shards) then suc (held s t) else held s t)
unfolding fill_table
held-fill_table s i [] t o = ground arith
held-fill_table s i (g ∷ shards) t o = ground (
  arith,
  held-fill_table s (suc i) shards (add_shard g i t) (Owned-add_shard g i shards t o.1),
  held-add_shard s g i t o.0,
)

pub held-empty_table : (s : ℕ) (gids : List ℕ) → held s (empty_table gids) ≡ 0
unfolding held empty_table occurs
held-empty_table s [] = refl
held-empty_table s (g ∷ gids) = ground (arith, held-empty_table s gids)
