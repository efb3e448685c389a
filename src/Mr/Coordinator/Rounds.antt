-- ===== src/Mr/Coordinator/Rounds.antt =====
-- The loop over the tasks in a report of RPCHandler of src/mr/coordinator.go, while nothing else runs.
use mit_distributed_system.Prelude.{
  ℕ, zero, suc, ◌≡◌, refl, sym, ap, ◌∙◌, subst, Bool, true, false, none, some, List, [], ◌∷◌, ◌++◌,
  length, get_elem?, set, replicate, get_elem?-append_length, if◌then◌else◌, arith,
}
use mit_distributed_system.Mr.Coordinator.{Task, is_phase_finished, all_finished}
use mit_distributed_system.Mr.Coordinator.Steps.{
  Scan, scanning, found, Server, Event, map_scans, scan, scan_at, step, run,
}

module _ {F : Type 0} where
  -- Rounds of the loop over the tasks.
  unfoldable pub scans : List (Task F) → ℕ → Scan → Scan
  scans ts zero p = p
  scans ts (suc n) p = scans ts n (scan ts p)

  scans-found : (ts : List (Task F)) (n : ℕ) (b : Bool) → scans ts n (found b) ≡ found b
  unfolding scans scan
  scans-found ts zero b = refl
  scans-found ts (suc n) b = scans-found ts n b

  get_elem?-shift :
      (done : List (Task F)) (t : Task F) (ts : List (Task F))
      → get_elem? (done ++ t ∷ ts) (length done) ≡ some t
  get_elem?-shift done t ts = get_elem?-append_length done ts t

  get_elem?-end : (done : List (Task F)) → get_elem? (done ++ []) (length done) ≡ none
  get_elem?-end [] = refl
  get_elem?-end (t ∷ done) = get_elem?-end done

  snoc_shift :
      (done : List (Task F)) (t : Task F) (ts : List (Task F))
      → (done ++ t ∷ []) ++ ts ≡ done ++ t ∷ ts
  snoc_shift [] t ts = refl
  snoc_shift (u ∷ done) t ts = ap (λ x. u ∷ x) (snoc_shift done t ts)

  length-snoc : (done : List (Task F)) (t : Task F) → length (done ++ t ∷ []) ≡ suc (length done)
  length-snoc [] t = refl
  length-snoc (u ∷ done) t = ap suc (length-snoc done t)

  scan-end :
      (ts : List (Task F)) (k : ℕ) → get_elem? ts k ≡ none → scan ts (scanning k) ≡ found true
  unfolding scan
  scan-end ts k e = ground arith

  scan-task :
      (ts : List (Task F)) (k : ℕ) (t : Task F)
      → get_elem? ts k ≡ some t
      → scan ts (scanning k) ≡ (if is_phase_finished t.phase then scanning (suc k) else found false)
  unfolding scan
  scan-task ts k t e = ground arith

  pub scan_at-report :
      (ts : List (Task F)) (reports : List Scan) (j : ℕ) (p : Scan)
      → get_elem? reports j ≡ some p
      → scan_at ts reports j ≡ set reports j (scan ts p)
  unfolding scan_at
  scan_at-report ts reports j p e = ground arith

  pub scan_at-outside :
      (ts : List (Task F)) (reports : List Scan) (j : ℕ)
      → get_elem? reports j ≡ none
      → scan_at ts reports j ≡ reports
  unfolding scan_at
  scan_at-outside ts reports j e = ground arith

  -- The loop behind the tasks `done` finds out whether the rest is finished.
  pub scans-all_finished :
      (done ts : List (Task F))
      → scans (done ++ ts) (suc (length ts)) (scanning (length done)) ≡ found (all_finished ts)
  unfolding scans all_finished
  scans-all_finished done [] = scan-end (done ++ []) (length done) (get_elem?-end done)
  scans-all_finished done (t ∷ ts) =
      ap (λ p. scans (done ++ t ∷ ts) (suc (length ts)) p)
        (scan-task (done ++ t ∷ ts) (length done) t (get_elem?-shift done t ts))
      ∙ (by_phase (is_phase_finished t.phase) (
          subst
            (λ k. scans (done ++ t ∷ ts) (suc (length ts)) (scanning k) ≡ found (all_finished ts))
            (length-snoc done t)
            (subst
              (λ all.
                scans all (suc (length ts)) (scanning (length (done ++ t ∷ [])))
                ≡ found (all_finished ts))
              (snoc_shift done t ts) (scans-all_finished (done ++ t ∷ []) ts))))
    where
      by_phase :
          (b : Bool)
          → scans (done ++ t ∷ ts) (suc (length ts)) (scanning (suc (length done)))
            ≡ found (all_finished ts)
          → scans
              (done ++ t ∷ ts)
              (suc (length ts))
              (if b then scanning (suc (length done)) else found false)
            ≡ found (if b then all_finished ts else false)
      by_phase true rest = rest
      by_phase false rest = scans-found (done ++ t ∷ ts) (suc (length ts)) false

pub set-set :
    (reports : List Scan) (j : ℕ) (p q : Scan) → set (set reports j p) j q ≡ set reports j q
set-set [] j p q = refl
set-set (r ∷ reports) zero p q = refl
set-set (r ∷ reports) (suc j) p q = ap (λ x. r ∷ x) (set-set reports j p q)

pub set-same :
    (reports : List Scan) (j : ℕ) (p : Scan)
    → get_elem? reports j ≡ some p
    → set reports j p ≡ reports
set-same [] j p e = refl
set-same (r ∷ reports) zero p e = ground arith
set-same (r ∷ reports) (suc j) p e = ap (λ x. r ∷ x) (set-same reports j p e)

pub get_elem?-set :
    (reports : List Scan) (j : ℕ) (p q : Scan)
    → get_elem? reports j ≡ some p
    → get_elem? (set reports j q) j ≡ some q
get_elem?-set [] j p q e = ground arith
get_elem?-set (r ∷ reports) zero p q e = refl
get_elem?-set (r ∷ reports) (suc j) p q e = get_elem?-set reports j p q e

pub get_elem?-outside : (reports : List Scan) → get_elem? reports (length reports) ≡ none
get_elem?-outside [] = refl
get_elem?-outside (r ∷ reports) = get_elem?-outside reports

-- Rounds of one report, and then further events.
pub run-scans :
    (s : Server) (j : ℕ) (p : Scan) (n : ℕ) (events : List Event)
    → get_elem? s.map_reports j ≡ some p
    → run s (replicate n (map_scans j) ++ events)
      ≡ run
          (record s { map_reports = set s.map_reports j (scans s.coordinator.map_tasks n p) })
          events
unfolding run step scans
run-scans s j p zero events e =
    ap (λ x. run (record s { map_reports = x }) events) (sym (set-same s.map_reports j p e))
run-scans s j p (suc n) events e =
    let q = scan s.coordinator.map_tasks p in
    let reports = set s.map_reports j q in
    ap (λ x. run (record s { map_reports = x }) (replicate n (map_scans j) ++ events))
      (scan_at-report s.coordinator.map_tasks s.map_reports j p e)
    ∙ (run-scans (record s { map_reports = reports }) j q n events
          (get_elem?-set s.map_reports j p q e)
        ∙ ap (λ x. run (record s { map_reports = x }) events) (set-set s.map_reports j q _))

pub run-scans_outside :
    (s : Server) (j n : ℕ) (events : List Event)
    → get_elem? s.map_reports j ≡ none
    → run s (replicate n (map_scans j) ++ events) ≡ run s events
unfolding run step
run-scans_outside s j zero events e = refl
run-scans_outside s j (suc n) events e =
    ap (λ x. run (record s { map_reports = x }) (replicate n (map_scans j) ++ events))
      (scan_at-outside s.coordinator.map_tasks s.map_reports j e)
    ∙ run-scans_outside s j n events e
