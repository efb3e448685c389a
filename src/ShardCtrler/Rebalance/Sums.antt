-- ===== src/ShardCtrler/Rebalance/Sums.antt =====
-- How many shards each group has in the new Shards array of rebalanceShard
-- (src/shardctrler/server.go).
use native.Mathlib.Decide.{dec_lt}
use mit_distributed_system.Prelude.{
  ℕ, zero, suc, ◌+◌, ◌≤◌, ◌<◌, ◌≡◌, refl, sym, ap, ◌∙◌, subst, List, [], ◌∷◌, leb, ltb, ◌==◌,
  if◌then◌else◌, ◌&&◌, length, arith, Bool-cases, inl, inr, get_elem?,
}
use mit_distributed_system.ShardCtrler.Rebalance.{Table, write_table}
use mit_distributed_system.ShardCtrler.Rebalance.Counts.{Unique, size}
use mit_distributed_system.ShardCtrler.Rebalance.Holding.{occurs, held, held_by}
use mit_distributed_system.ShardCtrler.Rebalance.Owners.{hit, write_table-owner, length-write_table}

-- f i + ... + f (i + n - 1)
sum_from : ℕ → ℕ → (ℕ → ℕ) → ℕ
sum_from i zero f = 0
sum_from i (suc n) f = f i + sum_from (suc i) n f

sum_from-cong :
    (i n : ℕ) (f g : ℕ → ℕ)
    → ((k : ℕ) → i ≤ k → k < i + n → f k ≡ g k)
    → sum_from i n f ≡ sum_from i n g
unfolding sum_from
sum_from-cong i zero f g h = refl
sum_from-cong i (suc n) f g h = omega (
  arith,
  h i (omega arith) (omega arith),
  sum_from-cong (suc i) n f g (λ k a b. h k (omega arith) (omega arith)),
)

sum_from-zero : (i n : ℕ) (f : ℕ → ℕ) → ((k : ℕ) → f k ≡ 0) → sum_from i n f ≡ 0
unfolding sum_from
sum_from-zero i zero f h = refl
sum_from-zero i (suc n) f h = omega (arith, h i, sum_from-zero (suc i) n f h)

-- The entries of a list that are `h`, counted by position.
occurs-sum_from :
    (h i : ℕ) (xs : List ℕ) (f : ℕ → ℕ)
    → ((k : ℕ) → k < length xs → f (i + k) ≡ hit h (get_elem? xs k))
    → occurs h xs ≡ sum_from i (length xs) f
unfolding occurs sum_from
occurs-sum_from h i [] f e = refl
occurs-sum_from h i (x ∷ xs) f e =
    let ih =
      occurs-sum_from h (suc i) xs f (λ k b.
        subst (λ j. f j ≡ hit h (get_elem? xs k)) (omega arith) (e (suc k) (omega arith))) in
    let now : f i ≡ (if x == h then 1 else 0) =
      subst (λ j. f j ≡ (if x == h then 1 else 0)) (omega arith) (e zero (omega arith)) in
    ground (arith, ih, now)

sum_from-cons :
    (i n x : ℕ) (xs : List ℕ)
    → sum_from i n (λ s. occurs s (x ∷ xs)) ≡ (
        if leb i x && ltb x (i + n)
        then suc (sum_from i n (λ s. occurs s xs))
        else sum_from i n (λ s. occurs s xs))
unfolding sum_from occurs
sum_from-cons i zero x xs = ground arith
sum_from-cons i (suc n) x xs = ground (arith, sum_from-cons (suc i) n x xs)

length-sum_from :
    (n : ℕ) (xs : List ℕ)
    → ((k : ℕ) → n ≤ k → occurs k xs ≡ 0)
    → sum_from 0 n (λ s. occurs s xs) ≡ length xs
unfolding occurs
length-sum_from n [] below = sum_from-zero 0 n _ (λ k. refl)
length-sum_from n (x ∷ xs) below =
    let inside : x < n = elim (dec_lt x n) [
      | yes h ↦ h
      | no h ↦ absurd (ground (arith, below x))
    ] in
    let ih = length-sum_from n xs (λ k a. ground (arith, below k)) in
    ground (arith, ih, sum_from-cons 0 n x xs)

size-sum_from :
    (h n : ℕ) (t : Table)
    → ((k : ℕ) → n ≤ k → held k t ≡ 0)
    → sum_from 0 n (λ s. held_by h s t) ≡ size h t
unfolding size held_by held
size-sum_from h n [] below = sum_from-zero 0 n _ (λ k. refl)
size-sum_from h n ((g, xs) ∷ t) below = elim (Bool-cases (g == h)) [
  | inl here ↦ rw here (length-sum_from n xs (λ k a. omega (arith, below k a)))
  | inr there ↦ rw there (size-sum_from h n t (λ k a. omega (arith, below k a)))
]

-- When the table holds each shard once and nothing else, the new array gives every group as many
-- shards as the table does.
pub occurs-write_table :
    (t : Table) (shards : List ℕ) (h : ℕ)
    → Unique t
    → ((k : ℕ) → length shards ≤ k → held k t ≡ 0)
    → ((k : ℕ) → k < length shards → held k t ≡ 1)
    → occurs h (write_table t shards) ≡ size h t
occurs-write_table t shards h u below once =
    occurs-sum_from h 0 (write_table t shards) (λ s. held_by h s t)
      (λ k a.
        subst (λ j. held_by h j t ≡ hit h (get_elem? (write_table t shards) k)) (omega arith)
          (sym (
            write_table-owner t shards h k u below
              (once k (omega (arith, a, length-write_table t shards))))))
    ∙ (ap (λ n. sum_from 0 n (λ s. held_by h s t)) (length-write_table t shards)
        ∙ size-sum_from h (length shards) t below)
