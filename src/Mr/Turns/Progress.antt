-- ===== src/Mr/Turns/Progress.antt =====
-- Each round of a worker alone finishes one task of src/mr/coordinator.go.
use mit_distributed_system.Prelude.{
  ℕ, zero, suc, ◌+◌, ◌<◌, ◌≡◌, refl, ap, inl, inr, ◌⊎◌, Bool, true, false, not, ◌&&◌, some, List,
  [], ◌∷◌, arith, ◌==◌, if◌then◌else◌, get_elem?, set, ok,
}
use mit_distributed_system.Mr.Coordinator.{
  Phase, unassigned, running, finished, is_phase_finished, Task, get_unassigned, task_at, set_phase,
  all_finished, hand_out, report,
}

abbrev pub is_running : Phase → Bool
is_running unassigned = false
is_running running = true
is_running finished = false

module _ {F : Type 0} where
  -- No task is handed out.
  abbrev pub idle : List (Task F) → Bool
  idle [] = true
  idle (t ∷ ts) = not (is_running t.phase) && idle ts

  abbrev pub unfinished : List (Task F) → ℕ
  unfinished [] = 0
  unfinished (t ∷ ts) = if is_phase_finished t.phase then unfinished ts else suc (unfinished ts)

Phase-cases : (p : Phase) → is_running p ≡ false → (p ≡ unassigned) ⊎ (p ≡ finished)
Phase-cases unassigned h = inl refl
Phase-cases running h = cc
Phase-cases finished h = inr refl

set-set : {A : Type 0} (xs : List A) (i : ℕ) (a b : A) → set (set xs i a) i b ≡ set xs i b
set-set [] i a b = refl
set-set (x ∷ xs) zero a b = refl
set-set (x ∷ xs) (suc i) a b = ap (λ ys. x ∷ ys) (set-set xs i a b)

get_elem?-set_same :
    {A : Type 0} (xs : List A) (i : ℕ) (a b : A)
    → get_elem? xs i ≡ some a
    → get_elem? (set xs i b) i ≡ some b
get_elem?-set_same [] i a b e = absurd (ground arith)
get_elem?-set_same (x ∷ xs) zero a b e = refl
get_elem?-set_same (x ∷ xs) (suc i) a b e = get_elem?-set_same xs i a b e

module _ {F : Type 0} where
  -- While no task is handed out and some are not finished, there is an unassigned one.
  get_unassigned_total :
      (i : ℕ) (ts : List (Task F))
      → idle ts ≡ true
      → 0 < unfinished ts
      → (k : ℕ) × (t : Task F) × (get_unassigned i ts ≡ some (i + k))
        × (get_elem? ts k ≡ some t)
        × (t.phase ≡ unassigned)
  unfolding get_unassigned
  get_unassigned_total i [] h some_left = absurd (omega arith)
  get_unassigned_total i (t ∷ ts) h some_left = elim (Phase-cases t.phase (ground arith)) [
    | inl free ↦ (0, t, ground arith, refl, free)
    | inr over ↦
        let (k, u, e, at, free) = get_unassigned_total (suc i) ts (ground arith) (ground arith) in
        (suc k, u, ground arith, at, free)
  ]

  unfinished-set :
      (ts : List (Task F)) (i : ℕ) (t u : Task F)
      → get_elem? ts i ≡ some t
      → t.phase ≡ unassigned
      → u.phase ≡ finished
      → idle ts ≡ true
      → (suc (unfinished (set ts i u)) ≡ unfinished ts) × (idle (set ts i u) ≡ true)
  unfinished-set [] i t u at free over h = absurd (ground arith)
  unfinished-set (x ∷ ts) zero t u at free over h = (ground arith, ground arith)
  unfinished-set (x ∷ ts) (suc i) t u at free over h =
      let (fewer, still) = unfinished-set ts i t u at free over (ground arith) in
      (ground arith, ground arith)

  pub unfinished-all_finished : (ts : List (Task F)) → (all_finished ts ≡ (unfinished ts == 0))
  unfolding all_finished
  unfinished-all_finished [] = refl
  unfinished-all_finished (t ∷ ts) = ground (arith, unfinished-all_finished ts)

  -- A task is handed out and reported.
  pub hand_out-report :
      (ts : List (Task F))
      → idle ts ≡ true
      → 0 < unfinished ts
      → (i : ℕ) × (t : Task F) × (handed : List (Task F)) × (after : List (Task F)) × (hand_out ts
          ≡ ok (handed, some (i, t)))
        × (report handed i t.task_number true ≡ ok (some after))
        × (suc (unfinished after) ≡ unfinished ts)
        × (idle after ≡ true)
  unfolding hand_out report task_at set_phase
  hand_out-report ts h some_left =
      let (i, t, e, at, free) = get_unassigned_total 0 ts h some_left in
      let now : Task F = record t { phase = running } in
      let over : Task F = record t { phase = finished } in
      let (fewer, still) = unfinished-set ts i t over at free refl h in
      (
        i,
        t,
        set ts i now,
        set ts i over,
        ground (arith, e, at),
        ground (arith, get_elem?-set_same ts i t now at, set-set ts i now over),
        fewer,
        still,
      )
