-- ===== src/Mr/Coordinator/Finished.antt =====
-- Tasks that are all finished stay so (src/mr/coordinator.go).
use mit_distributed_system.Prelude.{
  ℕ, zero, suc, ◌≡◌, refl, Bool, true, Option, none, some, List, [], ◌∷◌, get_elem?, set, ok, arith,
  Option-cases, inl, inr,
}
use mit_distributed_system.Mr.Coordinator.{
  finished, Task, is_phase_finished, get_unassigned, task_at, set_phase, check_task, all_finished,
  hand_out, report,
}

module _ {F : Type 0} where
  -- When every task is finished, none is unassigned, and each one is finished.
  pub get_unassigned-all_finished :
      (i : ℕ) (ts : List (Task F)) → all_finished ts ≡ true → get_unassigned i ts ≡ none
  unfolding get_unassigned all_finished
  get_unassigned-all_finished i [] h = refl
  get_unassigned-all_finished i (t ∷ ts) h = ground (arith, get_unassigned-all_finished (suc i) ts)

  get_elem?-all_finished :
      (ts : List (Task F)) (i : ℕ) (t : Task F)
      → all_finished ts ≡ true
      → get_elem? ts i ≡ some t
      → is_phase_finished t.phase ≡ true
  unfolding all_finished
  get_elem?-all_finished [] i t h e = ground arith
  get_elem?-all_finished (u ∷ ts) zero t h e = ground arith
  get_elem?-all_finished (u ∷ ts) (suc i) t h e = ground (arith, get_elem?-all_finished ts i t)

  set-all_finished :
      (ts : List (Task F)) (i : ℕ) (t : Task F)
      → all_finished ts ≡ true
      → is_phase_finished t.phase ≡ true
      → all_finished (set ts i t) ≡ true
  unfolding all_finished
  set-all_finished [] i t h e = refl
  set-all_finished (u ∷ ts) zero t h e = ground arith
  set-all_finished (u ∷ ts) (suc i) t h e = ground (arith, set-all_finished ts i t)

  -- Tasks that are all finished stay so.
  pub hand_out-all_finished :
      (ts : List (Task F)) {next : List (Task F) × Option (ℕ × Task F)}
      → hand_out ts ≡ ok next
      → all_finished ts ≡ true
      → all_finished next.0 ≡ true
  unfolding hand_out
  hand_out-all_finished ts e h = ground (arith, get_unassigned-all_finished 0 ts h)

  pub check_task-all_finished :
      (ts : List (Task F)) (i : ℕ) {next : List (Task F)}
      → check_task ts i ≡ ok next
      → all_finished ts ≡ true
      → all_finished next ≡ true
  unfolding check_task task_at
  check_task-all_finished ts i e h = elim (Option-cases (get_elem? ts i)) [
    | inl gone ↦ ground arith
    | inr (t, at_i) ↦ ground (arith, get_elem?-all_finished ts i t h at_i)
  ]

  pub report-all_finished :
      (ts : List (Task F)) (i number : ℕ) (renamed : Bool) {next : List (Task F)}
      → report ts i number renamed ≡ ok (some next)
      → all_finished ts ≡ true
      → all_finished next ≡ true
  unfolding report task_at set_phase
  report-all_finished ts i number renamed e h = elim (Option-cases (get_elem? ts i)) [
    | inl gone ↦ ground arith
    | inr (t, at_i) ↦ ground (
      arith,
      set-all_finished ts i (record t { phase = finished; task_number = t.task_number }) h refl,
    )
  ]
