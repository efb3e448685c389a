-- ===== src/Mr/Coordinator/Scans.antt =====
-- What a report has read of the tasks of src/mr/coordinator.go stays true: a finished task stays finished.
use mit_distributed_system.Prelude.{
  ℕ, zero, suc, ◌<◌, ◌+◌, ◌≡◌, refl, ap, subst, ◌⊎◌, Bool, true, false, Option, none, some, List,
  [], ◌∷◌, ◌++◌, if◌then◌else◌, get_elem?, set, ok, arith, Option-cases, inl, inr,
}
use mit_distributed_system.Mr.Coordinator.{
  Phase, unassigned, running, finished, Task, is_phase_finished, get_unassigned, task_at, set_phase,
  check_task, all_finished, hand_out, report,
}
use mit_distributed_system.Mr.Coordinator.Steps.{Scan, scanning, found, returned, scan, scan_at}

lt_cases : (j k : ℕ) → j < suc k → (j < k) ⊎ (j ≡ k)
lt_cases zero zero h = inr refl
lt_cases zero (suc k) h = inl (omega arith)
lt_cases (suc j) zero h = absurd (omega arith)
lt_cases (suc j) (suc k) h = elim (lt_cases j k (omega arith)) [
  | inl less ↦ inl (omega arith)
  | inr same ↦ inr (ap suc same)
]

module _ {F : Type 0} where
  -- The task of an index is finished.
  unfoldable pub finished_at : List (Task F) → ℕ → Bool
  finished_at [] j = false
  finished_at (t ∷ ts) zero = is_phase_finished t.phase
  finished_at (t ∷ ts) (suc j) = finished_at ts j

  -- No finished task is lost.
  abbrev pub Keeps : List (Task F) → List (Task F) → Type 0
  Keeps ts ts' = (j : ℕ) → finished_at ts j ≡ true → finished_at ts' j ≡ true

  finished_at-get_elem? :
      (ts : List (Task F)) (j : ℕ) (t : Task F)
      → get_elem? ts j ≡ some t
      → finished_at ts j ≡ is_phase_finished t.phase
  unfolding finished_at
  finished_at-get_elem? [] j t e = ground arith
  finished_at-get_elem? (u ∷ ts) zero t e = ground arith
  finished_at-get_elem? (u ∷ ts) (suc j) t e = finished_at-get_elem? ts j t e

  set-Keeps :
      (ts : List (Task F)) (i : ℕ) (t : Task F)
      → (finished_at ts i ≡ true → is_phase_finished t.phase ≡ true)
      → Keeps ts (set ts i t)
  unfolding finished_at
  set-Keeps [] i t f j h = h
  set-Keeps (u ∷ ts) zero t f zero h = f h
  set-Keeps (u ∷ ts) zero t f (suc j) h = h
  set-Keeps (u ∷ ts) (suc i) t f zero h = h
  set-Keeps (u ∷ ts) (suc i) t f (suc j) h = set-Keeps ts i t f j h

  set_unfinished :
      (ts : List (Task F)) (i : ℕ) (t : Task F) (j : ℕ)
      → finished_at ts i ≡ false
      → finished_at ts j ≡ true
      → finished_at (set ts i t) j ≡ true
  set_unfinished ts i t j f h = set-Keeps ts i t (λ closed. ground arith) j h

  -- The task that is found is not finished.
  get_unassigned-finished_at :
      (n : ℕ) (ts : List (Task F)) {i : ℕ}
      → get_unassigned n ts ≡ some i
      → (d : ℕ) × (i ≡ n + d) × (finished_at ts d ≡ false)
  unfolding get_unassigned finished_at
  get_unassigned-finished_at n [] e = ground arith
  get_unassigned-finished_at n (t ∷ ts) {i} e =
      by_phase t.phase refl (λ g. get_unassigned-finished_at (suc n) ts g) e
    where
      later :
          (d : ℕ) × (i ≡ suc n + d) × (finished_at ts d ≡ false)
          → (d : ℕ) × (i ≡ n + d) × (finished_at (t ∷ ts) d ≡ false)
      later (d, at_d, f) = (suc d, omega arith, f)

      by_phase :
          (p : Phase)
          → t.phase ≡ p
          → (get_unassigned (suc n) ts ≡ some i
              → (d : ℕ) × (i ≡ suc n + d) × (finished_at ts d ≡ false))
          → elim p [
            | unassigned ↦ some n
            | running ↦ get_unassigned (suc n) ts
            | finished ↦ get_unassigned (suc n) ts
          ]
            ≡ some i
          → (d : ℕ) × (i ≡ n + d) × (finished_at (t ∷ ts) d ≡ false)
      by_phase unassigned e rest g = (0, ground arith, rw e refl)
      by_phase running e rest g = later (rest g)
      by_phase finished e rest g = later (rest g)

  pub hand_out-Keeps :
      (ts : List (Task F)) {next : List (Task F) × Option (ℕ × Task F)}
      → hand_out ts ≡ ok next
      → Keeps ts next.0
  unfolding hand_out task_at set_phase
  hand_out-Keeps ts e = elim (Option-cases (get_unassigned 0 ts)) [
    | inl gone ↦ λ j h. ground arith
    | inr (i, at_i) ↦ elim (Option-cases (get_elem? ts i)) [
      | inl out ↦ λ j h. ground arith
      | inr (t, here) ↦
          (let (d, same, unfinished) = get_unassigned-finished_at 0 ts at_i in
            λ j h. ground (
              arith,
              set_unfinished ts i (record t { phase = running; task_number = t.task_number }) j,
            ))
    ]
  ]

  pub check_task-Keeps :
      (ts : List (Task F)) (i : ℕ) {next : List (Task F)}
      → check_task ts i ≡ ok next
      → Keeps ts next
  unfolding check_task task_at set_phase
  check_task-Keeps ts i e = elim (Option-cases (get_elem? ts i)) [
    | inl gone ↦ λ j h. ground arith
    | inr (t, at_i) ↦ λ j h. ground (
      arith,
      finished_at-get_elem? ts i t at_i,
      set_unfinished ts i (record t { phase = unassigned; task_number = suc t.task_number }) j,
    )
  ]

  pub report-Keeps :
      (ts : List (Task F)) (i number : ℕ) (renamed : Bool) {next : List (Task F)}
      → report ts i number renamed ≡ ok (some next)
      → Keeps ts next
  unfolding report task_at set_phase
  report-Keeps ts i number renamed e = elim (Option-cases (get_elem? ts i)) [
    | inl gone ↦ λ j h. ground arith
    | inr (t, at_i) ↦ λ j h. ground (
      arith,
      set-Keeps ts i (record t { phase = finished; task_number = t.task_number }) (λ any. refl) j h,
    )
  ]

  -- A report has found that many tasks finished, and `true` only when all are.
  abbrev pub SoundScan : List (Task F) → Scan → Type 0
  SoundScan ts (scanning k) = (j : ℕ) → j < k → finished_at ts j ≡ true
  SoundScan ts (found b) = b ≡ true → all_finished ts ≡ true
  SoundScan ts returned = Unit

  abbrev pub SoundScans : List (Task F) → List Scan → Type 0
  SoundScans ts [] = Unit
  SoundScans ts (p ∷ reports) = SoundScan ts p × SoundScans ts reports

  -- A task that is finished at every index.
  all_finished-upto :
      (ts : List (Task F)) (k : ℕ)
      → get_elem? ts k ≡ none
      → ((j : ℕ) → j < k → finished_at ts j ≡ true)
      → all_finished ts ≡ true
  unfolding all_finished finished_at
  all_finished-upto [] k e h = refl
  all_finished-upto (t ∷ ts) zero e h = ground arith
  all_finished-upto (t ∷ ts) (suc k) e h =
      ground (arith, h 0 (omega arith), all_finished-upto ts k e (λ j l. h (suc j) (omega arith)))

  scan-SoundScan : (ts : List (Task F)) (p : Scan) → SoundScan ts p → SoundScan ts (scan ts p)
  unfolding scan
  scan-SoundScan ts (found b) s = s
  scan-SoundScan ts returned s = s
  scan-SoundScan ts (scanning k) s = by_task (get_elem? ts k) refl
    where
      one_more :
          (t : Task F) (b : Bool)
          → get_elem? ts k ≡ some t
          → is_phase_finished t.phase ≡ b
          → SoundScan ts (if b then scanning (suc k) else found false)
      one_more t true e f = λ j l. elim (lt_cases j k l) [
        | inl less ↦ s j less
        | inr same ↦ ground (arith, finished_at-get_elem? ts j t)
      ]
      one_more t false e f = λ h. ground arith

      by_task :
          (r : Option (Task F))
          → get_elem? ts k ≡ r
          → SoundScan ts (elim r [
            | none ↦ found true
            | some t ↦ if is_phase_finished t.phase then scanning (suc k) else found false
          ])
      by_task none e = λ h. all_finished-upto ts k e s
      by_task (some t) e = one_more t (is_phase_finished t.phase) e refl

  -- What was read stays true while finished tasks do.
  SoundScan-Keeps :
      (ts ts' : List (Task F)) (p : Scan)
      → Keeps ts ts'
      → (all_finished ts ≡ true → all_finished ts' ≡ true)
      → SoundScan ts p
      → SoundScan ts' p
  SoundScan-Keeps ts ts' (scanning k) keeps all s = λ j l. keeps j (s j l)
  SoundScan-Keeps ts ts' (found b) keeps all s = λ h. all (s h)
  SoundScan-Keeps ts ts' returned keeps all s = tt

  pub SoundScans-Keeps :
      (ts ts' : List (Task F)) (reports : List Scan)
      → Keeps ts ts'
      → (all_finished ts ≡ true → all_finished ts' ≡ true)
      → SoundScans ts reports
      → SoundScans ts' reports
  SoundScans-Keeps ts ts' [] keeps all s = tt
  SoundScans-Keeps ts ts' (p ∷ reports) keeps all s =
      (SoundScan-Keeps ts ts' p keeps all s.0, SoundScans-Keeps ts ts' reports keeps all s.1)

  pub SoundScans-append :
      (ts : List (Task F)) (reports : List Scan)
      → SoundScans ts reports
      → SoundScans ts (reports ++ scanning 0 ∷ [])
  SoundScans-append ts [] s = (λ j l. absurd (omega arith), tt)
  SoundScans-append ts (p ∷ reports) s = (s.0, SoundScans-append ts reports s.1)

  pub SoundScans-set :
      (ts : List (Task F)) (reports : List Scan) (j : ℕ) (p : Scan)
      → SoundScan ts p
      → SoundScans ts reports
      → SoundScans ts (set reports j p)
  SoundScans-set ts [] j p s all = tt
  SoundScans-set ts (q ∷ reports) zero p s all = (s, all.1)
  SoundScans-set ts (q ∷ reports) (suc j) p s all = (all.0, SoundScans-set ts reports j p s all.1)

  pub SoundScans-get_elem? :
      (ts : List (Task F)) (reports : List Scan) (j : ℕ) (p : Scan)
      → SoundScans ts reports
      → get_elem? reports j ≡ some p
      → SoundScan ts p
  SoundScans-get_elem? ts [] j p s e = ground arith
  SoundScans-get_elem? ts (q ∷ reports) zero p s e = subst (λ x. SoundScan ts x) (ground arith) s.0
  SoundScans-get_elem? ts (q ∷ reports) (suc j) p s e = SoundScans-get_elem? ts reports j p s.1 e

  pub scan_at-SoundScans :
      (ts : List (Task F)) (reports : List Scan) (j : ℕ)
      → SoundScans ts reports
      → SoundScans ts (scan_at ts reports j)
  unfolding scan_at
  scan_at-SoundScans ts reports j s = by_report (get_elem? reports j) refl
    where
      by_report :
          (r : Option Scan)
          → get_elem? reports j ≡ r
          → SoundScans ts (elim r [ none ↦ reports | some p ↦ set reports j (scan ts p) ])
      by_report none e = s
      by_report (some p) e =
          SoundScans-set ts reports j (scan ts p)
            (scan-SoundScan ts p (SoundScans-get_elem? ts reports j p s e)) s
