-- ===== src/ShardCtrler/Rebalance/Owners.antt =====
-- The new Shards array of rebalanceShard (src/shardctrler/server.go), as it is written from the table.
use native.Mathlib.Decide.{dec_lt}
use mit_distributed_system.Prelude.{
  ℕ, zero, suc, ◌≤◌, ◌<◌, ◌≡◌, refl, ◌∙◌, false, Option, none, some, List, [], ◌∷◌, ◌==◌,
  if◌then◌else◌, length, arith, Bool-cases, inl, inr, get_elem?, set, length-set,
}
use mit_distributed_system.ShardCtrler.Rebalance.{Table, has_gid, write_group, write_table}
use mit_distributed_system.ShardCtrler.Rebalance.Counts.{Unique}
use mit_distributed_system.ShardCtrler.Rebalance.Holding.{occurs, held, held_by}

get_elem?-set :
    (xs : List ℕ) (i k v : ℕ)
    → i < length xs
    → get_elem? (set xs i v) k ≡ (if i == k then some v else get_elem? xs k)
get_elem?-set [] i k v h = absurd (omega arith)
get_elem?-set (x ∷ xs) zero zero v h = refl
get_elem?-set (x ∷ xs) zero (suc k) v h = ground arith
get_elem?-set (x ∷ xs) (suc i) zero v h = ground arith
get_elem?-set (x ∷ xs) (suc i) (suc k) v h = ground (arith, get_elem?-set xs i k v)

length-write_group :
    (gid : ℕ) (xs shards : List ℕ) → length (write_group gid xs shards) ≡ length shards
unfolding write_group
length-write_group gid [] shards = refl
length-write_group gid (x ∷ xs) shards =
    length-write_group gid xs (set shards x gid) ∙ length-set shards x gid

pub length-write_table :
    (t : Table) (shards : List ℕ) → length (write_table t shards) ≡ length shards
unfolding write_table
length-write_table [] shards = refl
length-write_table ((gid, xs) ∷ t) shards =
    length-write_table t (write_group gid xs shards) ∙ length-write_group gid xs shards

-- A list of shards that are all in range gives them to its group.
write_group-owner :
    (gid : ℕ) (xs shards : List ℕ) (s : ℕ)
    → ((k : ℕ) → length shards ≤ k → occurs k xs ≡ 0)
    → get_elem? (write_group gid xs shards) s
      ≡ (if occurs s xs == 0 then get_elem? shards s else some gid)
unfolding write_group occurs
write_group-owner gid [] shards s below = refl
write_group-owner gid (x ∷ xs) shards s below =
    let inside : x < length shards = elim (dec_lt x (length shards)) [
      | yes h ↦ h
      | no h ↦ absurd (ground (arith, below x))
    ] in
    let rest : (k : ℕ) → length (set shards x gid) ≤ k → occurs k xs ≡ 0 =
      λ k h. ground (arith, below k, length-set shards x gid) in
    ground (
      arith,
      write_group-owner gid xs (set shards x gid) s rest,
      get_elem?-set shards x s gid inside,
    )

held_by-le : (h s : ℕ) (t : Table) → held_by h s t ≤ held s t
unfolding held_by held
held_by-le h s [] = omega arith
held_by-le h s ((g, xs) ∷ t) = ground (arith, held_by-le h s t)

held_by-absent : (h s : ℕ) (t : Table) → has_gid h t ≡ false → held_by h s t ≡ 0
unfolding held_by has_gid
held_by-absent h s [] a = refl
held_by-absent h s ((g, xs) ∷ t) a = ground (arith, held_by-absent h s t)

write_table-absent :
    (t : Table) (shards : List ℕ) (s : ℕ)
    → ((k : ℕ) → length shards ≤ k → held k t ≡ 0)
    → held s t ≡ 0
    → get_elem? (write_table t shards) s ≡ get_elem? shards s
unfolding write_table held
write_table-absent [] shards s below none_held = refl
write_table-absent ((g, xs) ∷ t) shards s below none_held =
    let first : get_elem? (write_group g xs shards) s ≡ get_elem? shards s =
      ground (arith, write_group-owner g xs shards s (λ k h. ground (arith, below k h))) in
    write_table-absent t (write_group g xs shards) s
      (λ k h. ground (arith, below k, length-write_group g xs shards)) (omega (arith, none_held))
    ∙ first

-- 1 at an entry of the group, else 0.
abbrev pub hit : ℕ → Option ℕ → ℕ
hit h none = 0
hit h (some g) = if g == h then 1 else 0

-- A shard that the table holds once goes to the group that holds it.
pub write_table-owner :
    (t : Table) (shards : List ℕ) (h s : ℕ)
    → Unique t
    → ((k : ℕ) → length shards ≤ k → held k t ≡ 0)
    → held s t ≡ 1
    → hit h (get_elem? (write_table t shards) s) ≡ held_by h s t
unfolding write_table held held_by
write_table-owner [] shards h s u below once = ground arith
write_table-owner ((g, xs) ∷ t) shards h s u below once =
    let rest : (k : ℕ) → length (write_group g xs shards) ≤ k → held k t ≡ 0 =
      λ k h. ground (arith, below k, length-write_group g xs shards) in
    let first = write_group-owner g xs shards s (λ k h. ground (arith, below k h)) in
    elim (Bool-cases (occurs s xs == 0)) [
      | inl later ↦
          let ih = write_table-owner t (write_group g xs shards) h s u.1 rest (ground arith) in
          let gone : (h ≡ g) → held_by h s t ≡ 0 =
            λ e. held_by-absent h s t (ground (arith, u.0)) in
          ground (arith, ih, gone)
      | inr here ↦
          let empty : held s t ≡ 0 = ground arith in
          let owner : get_elem? (write_table t (write_group g xs shards)) s ≡ some g =
            write_table-absent t (write_group g xs shards) s rest empty ∙ ground (arith, first) in
          ground (arith, owner, held_by-le h s t, empty)
    ]
