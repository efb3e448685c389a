-- ===== src/ShardCtrler/Rebalance/Balance.antt =====
-- The loop of a JOIN in rebalanceShard (src/shardctrler/server.go): every round moves one shard from a
-- largest group to a smallest one.
use mit_distributed_system.Prelude.{
  ℕ, zero, suc, ◌-◌, ◌≤◌, ◌<◌, ◌≡◌, refl, inl, inr, true, false, Option, none, some, [], ◌∷◌, leb,
  ◌==◌, arith, Bool-cases, ne→==_false, sym, ◌∙◌,
}
use mit_distributed_system.ShardCtrler.Defs.{n_shards}
use mit_distributed_system.ShardCtrler.Rebalance.{
  Table, has_gid, add_shard, first_shard, drop_shard, scan_max, scan_min, move_shard, weight,
  balance,
}
use mit_distributed_system.ShardCtrler.Rebalance.Holding.{held, held-moved}
use mit_distributed_system.ShardCtrler.Rebalance.Counts.{
  size, total, AtMost, AtLeast, Unique, Scanned, unchanged, found, weight-add_shard,
  total-add_shard, size-add_shard, has_gid-add_shard, Unique-add_shard, has_first,
  weight-drop_shard, total-drop_shard, has_gid-drop_shard, Unique-drop_shard, scan_max-Scanned,
  scan_min-Scanned, scan_max-AtMost, scan_min-AtLeast, size-le-total,
}

-- The groups that exist, each once, with no more shards than there are.
pub record Fits (t : Table) : Type 0 where
  pub unique : Unique t
  pub bounded : total t ≤ n_shards

-- No group has more than one shard above any other.
abbrev pub Even : Table → Type 0
Even t = (g h : ℕ) → has_gid g t ≡ true → has_gid h t ≡ true → size g t ≤ suc (size h t)

-- What a round of the loop, or all of them, keep of a table.
pub record Kept (t u : Table) : Type 0 where
  pub fits : Fits u
  pub groups : (g : ℕ) → has_gid g u ≡ has_gid g t
  pub shards : total u ≡ total t
  pub holds : (s : ℕ) → held s u ≡ held s t

AtMost-size : (n g : ℕ) (t : Table) → AtMost n t → has_gid g t ≡ true → size g t ≤ n
unfolding size has_gid
AtMost-size n g [] p h = ground arith
AtMost-size n g ((k, xs) ∷ t) p h = ground (arith, AtMost-size n g t p.1)

AtLeast-size : (n g : ℕ) (t : Table) → AtLeast n t → has_gid g t ≡ true → n ≤ size g t
unfolding size has_gid
AtLeast-size n g [] p h = ground arith
AtLeast-size n g ((k, xs) ∷ t) p h = ground (arith, AtLeast-size n g t p.1)

Even-scans : (t : Table) → (scan_max t 0 none).0 - (scan_min t (suc n_shards) none).0 ≤ 1 → Even t
Even-scans t close g h in_g in_h =
    let most = AtMost-size (scan_max t 0 none).0 g t (scan_max-AtMost t 0 none) in_g in
    let least =
      AtLeast-size (scan_min t (suc n_shards) none).0 h t (scan_min-AtLeast t (suc n_shards) none)
        in_h in
    omega arith

size-eq : (t : Table) {g h : ℕ} → h ≡ g → size h t ≡ size g t
size-eq t e = cc

move_shard-first :
    (g h x : ℕ) (t : Table)
    → first_shard g t ≡ some x
    → move_shard (some g) (some h) t ≡ drop_shard g (add_shard h x t)
unfolding move_shard
move_shard-first g h x t first = ground arith

module _ (t : Table) (fits : Fits t) where
  -- One round that moves a shard from `g` to `h`.
  moved :
      (g h n : ℕ)
      → has_gid g t ≡ true
      → has_gid h t ≡ true
      → size g t ≡ suc n
      → size h t < n
      → Kept t (move_shard (some g) (some h) t)
        × (weight (move_shard (some g) (some h) t) < weight t)
  moved g h n in_g in_h more less =
      let (x, first) = has_first g t n more in
      let other : (h == g) ≡ false = ne→==_false h g (λ e. omega (arith, size-eq t e)) in
      let same : size g (add_shard h x t) ≡ suc n = ground (arith, size-add_shard h x g t) in
      rw (move_shard-first g h x t first) (
        record {
          fits = record {
            unique = Unique-drop_shard g (add_shard h x t) (Unique-add_shard h x t fits.unique);
            bounded = omega (
              arith,
              fits.bounded,
              total-add_shard h x t in_h,
              total-drop_shard g (add_shard h x t) n same,
            );
          };
          holds = λ s. held-moved s g h x t in_h first;
          groups = λ k. has_gid-drop_shard g k (add_shard h x t) ∙ has_gid-add_shard h x k t;
          shards =
              omega
                (arith, total-add_shard h x t in_h, total-drop_shard g (add_shard h x t) n same);
        },
        omega (arith, weight-add_shard h x t in_h, weight-drop_shard g (add_shard h x t) n same),
      )

  -- A round that is not the last one.
  round :
      (max min : ℕ × Option ℕ)
      → Scanned t 0 none max
      → Scanned t (suc n_shards) none min
      → 1 < max.0 - min.0
      → Kept t (move_shard max.1 min.1 t) × (weight (move_shard max.1 min.1 t) < weight t)
  round max min unchanged q apart = ground arith
  round max min (found m g in_g s) unchanged apart = ground (arith, size-le-total g t, fits.bounded)
  round max min (found zero g in_g s) (found n h in_h r) apart = ground arith
  round max min (found (suc m) g in_g s) (found n h in_h r) apart =
      moved g h m in_g in_h (sym s) (ground arith)

Kept-trans : (t u v : Table) → Kept t u → Kept u v → Kept t v
Kept-trans t u v p q = record {
  fits = q.fits;
  groups = λ g. q.groups g ∙ p.groups g;
  shards = q.shards ∙ p.shards;
  holds = λ s. q.holds s ∙ p.holds s;
}

-- The loop of a JOIN, on groups that exist once and hold at most the `n_shards` shards: with more
-- rounds than the `weight` of the groups it ends by itself, with no group more than one shard above
-- another, the same groups and as many shards as before.
pub balance-Even :
    (fuel : ℕ) (t : Table)
    → Fits t
    → weight t < fuel
    → Even (balance fuel t) × Kept t (balance fuel t)
unfolding balance
balance-Even zero t fits enough = ground arith
balance-Even (suc fuel) t fits enough =
    elim (Bool-cases (leb ((scan_max t 0 none).0 - (scan_min t (suc n_shards) none).0) 1)) [
      | inl close ↦ rw close (
        Even-scans t (ground arith),
        record { fits = fits; groups = λ g. refl; shards = refl; holds = λ s. refl },
      )
      | inr apart ↦
          let (kept, less) =
            round t fits (scan_max t 0 none) (scan_min t (suc n_shards) none)
              (scan_max-Scanned t 0 none fits.unique)
              (scan_min-Scanned t (suc n_shards) none fits.unique) (ground arith) in
          let (even, rest) =
            balance-Even fuel
              (move_shard (scan_max t 0 none).1 (scan_min t (suc n_shards) none).1 t) kept.fits
              (omega arith) in
          rw apart (even, Kept-trans t _ _ kept rest)
    ]
