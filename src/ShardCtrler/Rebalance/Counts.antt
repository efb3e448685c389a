-- ===== src/ShardCtrler/Rebalance/Counts.antt =====
-- The sizes of the groups in the table, and how the loops change them.
use mit_distributed_system.Prelude.{
  ℕ, suc, ◌+◌, ◌≤◌, ◌≡◌, refl, inl, inr, true, false, Option, some, List, [], ◌∷◌, ◌++◌, leb, ◌==◌,
  if◌then◌else◌, length, length-append, arith, Bool-cases, ◌&&◌,
}
use mit_distributed_system.ShardCtrler.Rebalance.{
  Table, has_gid, add_shard, first_shard, drop_shard, scan_max, scan_min, weight,
}

-- The number of shards of a group; 0 for one that is not there.
unfoldable pub size : ℕ → Table → ℕ
size gid [] = 0
size gid ((g, xs) ∷ t) = if g == gid then length xs else size gid t

-- Every group has at most, or at least, so many shards.
abbrev pub AtMost : ℕ → Table → Type 0
AtMost n [] = Unit {0}
AtMost n ((g, xs) ∷ t) = (length xs ≤ n) × AtMost n t

abbrev pub AtLeast : ℕ → Table → Type 0
AtLeast n [] = Unit {0}
AtLeast n ((g, xs) ∷ t) = (n ≤ length xs) × AtLeast n t

AtMost-mono : (m n : ℕ) (t : Table) → m ≤ n → AtMost m t → AtMost n t
AtMost-mono m n [] h p = tt
AtMost-mono m n ((g, xs) ∷ t) h p = (omega arith, AtMost-mono m n t h p.1)

AtLeast-mono : (m n : ℕ) (t : Table) → n ≤ m → AtLeast m t → AtLeast n t
AtLeast-mono m n [] h p = tt
AtLeast-mono m n ((g, xs) ∷ t) h p = (omega arith, AtLeast-mono m n t h p.1)

scan_max-le : (t : Table) (count : ℕ) (gid : Option ℕ) → count ≤ (scan_max t count gid).0
unfolding scan_max
scan_max-le [] count gid = omega arith
scan_max-le ((g, xs) ∷ t) count gid =
    ground (arith, scan_max-le t (length xs) (some g), scan_max-le t count gid)

pub scan_max-AtMost : (t : Table) (count : ℕ) (gid : Option ℕ) → AtMost (scan_max t count gid).0 t
unfolding scan_max
scan_max-AtMost [] count gid = tt
scan_max-AtMost ((g, xs) ∷ t) count gid = ground (
  arith,
  scan_max-AtMost t (length xs) (some g),
  scan_max-AtMost t count gid,
  scan_max-le t (length xs) (some g),
  scan_max-le t count gid,
)

scan_min-le : (t : Table) (count : ℕ) (gid : Option ℕ) → (scan_min t count gid).0 ≤ count
unfolding scan_min
scan_min-le [] count gid = omega arith
scan_min-le ((g, xs) ∷ t) count gid =
    ground (arith, scan_min-le t (length xs) (some g), scan_min-le t count gid)

pub scan_min-AtLeast : (t : Table) (count : ℕ) (gid : Option ℕ) → AtLeast (scan_min t count gid).0 t
unfolding scan_min
scan_min-AtLeast [] count gid = tt
scan_min-AtLeast ((g, xs) ∷ t) count gid = ground (
  arith,
  scan_min-AtLeast t (length xs) (some g),
  scan_min-AtLeast t count gid,
  scan_min-le t (length xs) (some g),
  scan_min-le t count gid,
)

length-snoc : (xs : List ℕ) (x : ℕ) → length (xs ++ x ∷ []) ≡ suc (length xs)
length-snoc xs x = omega (arith, length-append xs (x ∷ []))

-- The sizes of all groups together.
unfoldable pub total : Table → ℕ
total [] = 0
total ((g, xs) ∷ t) = length xs + total t

-- No gid has two entries.
abbrev pub Unique : Table → Type 0
Unique [] = Unit {0}
Unique ((g, xs) ∷ t) = (has_gid g t ≡ false) × Unique t

pub size-le-total : (gid : ℕ) (t : Table) → size gid t ≤ total t
unfolding size total
size-le-total gid [] = omega arith
size-le-total gid ((g, xs) ∷ t) = ground (arith, size-le-total gid t)

module _ (gid shard : ℕ) where
  pub weight-add_shard :
      (t : Table)
      → has_gid gid t ≡ true
      → weight (add_shard gid shard t) ≡ weight t + (size gid t + size gid t + 1)
  unfolding weight add_shard size has_gid
  weight-add_shard [] h = cc
  weight-add_shard ((g, xs) ∷ t) h = elim (Bool-cases (g == gid)) [
    | inl here ↦ rw (here, length-snoc xs shard) (omega arith)
    | inr there ↦ rw there (omega (arith, weight-add_shard t (ground arith)))
  ]

  pub total-add_shard :
      (t : Table) → has_gid gid t ≡ true → total (add_shard gid shard t) ≡ suc (total t)
  unfolding total add_shard has_gid
  total-add_shard [] h = cc
  total-add_shard ((g, xs) ∷ t) h = ground (arith, length-snoc xs shard, total-add_shard t)

  pub size-add_shard :
      (h : ℕ) (t : Table)
      → size h (add_shard gid shard t)
        ≡ (if has_gid gid t && (gid == h) then suc (size h t) else size h t)
  unfolding size add_shard has_gid
  size-add_shard h [] = refl
  size-add_shard h ((g, xs) ∷ t) = ground (arith, length-snoc xs shard, size-add_shard h t)

  pub has_gid-add_shard : (h : ℕ) (t : Table) → has_gid h (add_shard gid shard t) ≡ has_gid h t
  unfolding add_shard has_gid
  has_gid-add_shard h [] = refl
  has_gid-add_shard h ((g, xs) ∷ t) = ground (arith, has_gid-add_shard h t)

  pub Unique-add_shard : (t : Table) → Unique t → Unique (add_shard gid shard t)
  unfolding add_shard
  Unique-add_shard [] u = tt
  Unique-add_shard ((g, xs) ∷ t) u = ground (arith, has_gid-add_shard g t, Unique-add_shard t u.1)

module _ (gid : ℕ) where
  pub has_first : (t : Table) (n : ℕ) → size gid t ≡ suc n → (x : ℕ) × (first_shard gid t ≡ some x)
  unfolding size first_shard
  has_first [] n h = ground arith
  has_first ((g, []) ∷ t) n h = elim (Bool-cases (g == gid)) [
    | inl here ↦ ground arith
    | inr there ↦ rw there (has_first t n (ground arith))
  ]
  has_first ((g, x ∷ xs) ∷ t) n h = elim (Bool-cases (g == gid)) [
    | inl here ↦ (x, rw here refl)
    | inr there ↦ rw there (has_first t n (ground arith))
  ]

  pub weight-drop_shard :
      (t : Table) (n : ℕ) → size gid t ≡ suc n → weight (drop_shard gid t) + (n + n + 1) ≡ weight t
  unfolding weight drop_shard size
  weight-drop_shard [] n h = ground arith
  weight-drop_shard ((g, []) ∷ t) n h = elim (Bool-cases (g == gid)) [
    | inl here ↦ ground arith
    | inr there ↦ rw there (omega (arith, weight-drop_shard t n (ground arith)))
  ]
  weight-drop_shard ((g, x ∷ xs) ∷ t) n h = elim (Bool-cases (g == gid)) [
    | inl here ↦ let e : length xs ≡ n = ground arith in rw (here, e) (omega arith)
    | inr there ↦ rw there (omega (arith, weight-drop_shard t n (ground arith)))
  ]

  pub total-drop_shard :
      (t : Table) (n : ℕ) → size gid t ≡ suc n → suc (total (drop_shard gid t)) ≡ total t
  unfolding total drop_shard size
  total-drop_shard [] n h = ground arith
  total-drop_shard ((g, []) ∷ t) n h = ground (arith, total-drop_shard t n)
  total-drop_shard ((g, x ∷ xs) ∷ t) n h = ground (arith, total-drop_shard t n)

  pub has_gid-drop_shard : (h : ℕ) (t : Table) → has_gid h (drop_shard gid t) ≡ has_gid h t
  unfolding drop_shard has_gid
  has_gid-drop_shard h [] = refl
  has_gid-drop_shard h ((g, xs) ∷ t) = ground (arith, has_gid-drop_shard h t)

  pub Unique-drop_shard : (t : Table) → Unique t → Unique (drop_shard gid t)
  unfolding drop_shard
  Unique-drop_shard [] u = tt
  Unique-drop_shard ((g, xs) ∷ t) u =
      ground (arith, has_gid-drop_shard g t, Unique-drop_shard t u.1)

-- What a scan returns: what it began with, or the size of a group of the table.
pub data Scanned (t : Table) (count : ℕ) (gid : Option ℕ) : ℕ × Option ℕ → Type 0 where
  unchanged : Scanned t count gid (count, gid)
  found : (n g : ℕ) → has_gid g t ≡ true → n ≡ size g t → Scanned t count gid (n, some g)

Scanned-cons :
    (g : ℕ) (xs : List ℕ) (t : Table) (count : ℕ) (gid : Option ℕ) {r : ℕ × Option ℕ}
    → has_gid g t ≡ false
    → Scanned t (length xs) (some g) r
    → Scanned ((g, xs) ∷ t) count gid r
unfolding size has_gid
Scanned-cons g xs t count gid new unchanged = found (length xs) g (ground arith) (ground arith)
Scanned-cons g xs t count gid new (found n h e s) = found n h (ground arith) (ground arith)

Scanned-skip :
    (g : ℕ) (xs : List ℕ) (t : Table) (count : ℕ) (gid : Option ℕ) {r : ℕ × Option ℕ}
    → has_gid g t ≡ false
    → Scanned t count gid r
    → Scanned ((g, xs) ∷ t) count gid r
unfolding size has_gid
Scanned-skip g xs t count gid new unchanged = unchanged
Scanned-skip g xs t count gid new (found n h e s) = found n h (ground arith) (ground arith)

pub scan_max-Scanned :
    (t : Table) (count : ℕ) (gid : Option ℕ) → Unique t → Scanned t count gid (scan_max t count gid)
unfolding scan_max
scan_max-Scanned [] count gid u = unchanged
scan_max-Scanned ((g, xs) ∷ t) count gid u = elim (Bool-cases (leb count (length xs))) [
  | inl more ↦
      rw more (Scanned-cons g xs t count gid u.0 (scan_max-Scanned t (length xs) (some g) u.1))
  | inr less ↦ rw less (Scanned-skip g xs t count gid u.0 (scan_max-Scanned t count gid u.1))
]

pub scan_min-Scanned :
    (t : Table) (count : ℕ) (gid : Option ℕ) → Unique t → Scanned t count gid (scan_min t count gid)
unfolding scan_min
scan_min-Scanned [] count gid u = unchanged
scan_min-Scanned ((g, xs) ∷ t) count gid u = elim (Bool-cases (leb (length xs) count)) [
  | inl less ↦
      rw less (Scanned-cons g xs t count gid u.0 (scan_min-Scanned t (length xs) (some g) u.1))
  | inr more ↦ rw more (Scanned-skip g xs t count gid u.0 (scan_min-Scanned t count gid u.1))
]
