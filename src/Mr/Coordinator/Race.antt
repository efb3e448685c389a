-- ===== src/Mr/Coordinator/Race.antt =====
-- Two reports of map tasks that interleave in RPCHandler of src/mr/coordinator.go; each holds the lock of its
-- own task.
use mit_distributed_system.Prelude.{
  ℕ, zero, suc, ◌≡◌, ◌∙◌, refl, ap, Bool, true, false, none, List, [], ◌∷◌, ok, get_elem?, arith,
  subst, Outcome-cases, inl, inr,
}
use mit_distributed_system.Gob.{Bytes}
use mit_distributed_system.Mr.Coordinator.{
  Task, get_unassigned, task_at, set_phase, check_task, all_finished, hand_out, report, ask,
  map_task, ask_map, rpc_handler, map_task_checker, reduce_task_checker, map_tasks_of,
  make_coordinator,
}
use mit_distributed_system.Mr.Coordinator.Steps.{
  returned, Server, Event, asks, map_reported, reduce_reported, map_scans, reduce_scans, map_writes,
  reduce_writes, map_checked, reduce_checked, write_map, write_reduce, scan, scan_at, step, run,
  start,
}
use mit_distributed_system.Mr.Coordinator.Finished.{
  get_unassigned-all_finished, check_task-all_finished,
}

-- Both tasks are handed out. The report of the first reads that the second is running; the second is
-- reported, and sets the flag; then the first writes what it found.
abbrev pub interleaved : List Event
interleaved =
    asks
    ∷ asks
    ∷ map_reported 0 0 true
    ∷ map_scans 0
    ∷ map_scans 0
    ∷ map_reported 1 0 true
    ∷ map_scans 1
    ∷ map_scans 1
    ∷ map_scans 1
    ∷ map_writes 1
    ∷ map_writes 0
    ∷ []

-- No report comes in.
abbrev pub Quiet : List Event → Type 0
Quiet [] = Unit
Quiet (asks ∷ events) = Quiet events
Quiet (map_reported i number renamed ∷ events) = ⊥
Quiet (reduce_reported i number renamed ∷ events) = ⊥
Quiet (map_scans j ∷ events) = Quiet events
Quiet (reduce_scans j ∷ events) = Quiet events
Quiet (map_writes j ∷ events) = Quiet events
Quiet (reduce_writes j ∷ events) = Quiet events
Quiet (map_checked i ∷ events) = Quiet events
Quiet (reduce_checked i ∷ events) = Quiet events

-- All map tasks are finished, but no flag says so, and no report is under way.
record Stuck (s : Server) : Type 0 where
  all : all_finished s.coordinator.map_tasks ≡ true
  map_flag : s.coordinator.is_map_finished ≡ false
  flag : s.coordinator.is_finished ≡ false
  map_ended : s.map_reports ≡ returned ∷ returned ∷ []
  reduce_ended : s.reduce_reports ≡ []

-- A worker that asks gets no task.
ask-Stuck :
    (s : Server) (renamed : Bool)
    → Stuck s
    → rpc_handler s.coordinator ask renamed ≡ ok (s.coordinator, map_task none)
unfolding rpc_handler ask_map hand_out
ask-Stuck s renamed p =
    ground (arith, get_unassigned-all_finished 0 s.coordinator.map_tasks p.all, p.map_flag, p.flag)

scan_at-ended :
    (ts : List (Task Bytes)) (j : ℕ)
    → scan_at ts (returned ∷ returned ∷ []) j ≡ returned ∷ returned ∷ []
unfolding scan_at scan
scan_at-ended ts zero = refl
scan_at-ended ts (suc zero) = refl
scan_at-ended ts (suc (suc j)) = refl

write_map-ended : (s : Server) (j : ℕ) → write_map s j (get_elem? (returned ∷ returned ∷ []) j) ≡ s
write_map-ended s zero = refl
write_map-ended s (suc zero) = refl
write_map-ended s (suc (suc j)) = refl

map_scans-Stuck : (s : Server) (j : ℕ) → Stuck s → step s (map_scans j) ≡ ok s
unfolding step
map_scans-Stuck s j p = rw (p.map_ended, scan_at-ended s.coordinator.map_tasks j) refl

reduce_scans-Stuck : (s : Server) (j : ℕ) → Stuck s → step s (reduce_scans j) ≡ ok s
unfolding step scan_at
reduce_scans-Stuck s j p = ground (arith, p.reduce_ended)

map_writes-Stuck : (s : Server) (j : ℕ) → Stuck s → step s (map_writes j) ≡ ok s
unfolding step
map_writes-Stuck s j p =
    ap ok (ap (λ x. write_map s j (get_elem? x j)) p.map_ended ∙ write_map-ended s j)

reduce_writes-Stuck : (s : Server) (j : ℕ) → Stuck s → step s (reduce_writes j) ≡ ok s
unfolding step
reduce_writes-Stuck s j p = ap ok (ap (λ x. write_reduce s j (get_elem? x j)) p.reduce_ended)

asks-Stuck : (s t : Server) → Stuck s → step s asks ≡ ok t → Stuck t
unfolding step
asks-Stuck s t p e = subst (λ u. Stuck u) (ground (arith, ask-Stuck s true p)) p

map_checked-Stuck : (s t : Server) (i : ℕ) → Stuck s → step s (map_checked i) ≡ ok t → Stuck t
unfolding step map_task_checker
map_checked-Stuck s t i p e = elim (Outcome-cases (check_task s.coordinator.map_tasks i)) [
  | inl stops ↦ absurd (ground arith)
  | inr (ts, goes) ↦
      (let q : Stuck (record s { coordinator = record s.coordinator { map_tasks = ts } }) = record {
        all = check_task-all_finished s.coordinator.map_tasks i goes p.all;
        map_flag = p.map_flag;
        flag = p.flag;
        map_ended = p.map_ended;
        reduce_ended = p.reduce_ended;
      } in
        subst (λ u. Stuck u) (ground arith) q)
]

reduce_checked-Stuck : (s t : Server) (i : ℕ) → Stuck s → step s (reduce_checked i) ≡ ok t → Stuck t
unfolding step reduce_task_checker
reduce_checked-Stuck s t i p e = elim (Outcome-cases (check_task s.coordinator.reduce_tasks i)) [
  | inl stops ↦ absurd (ground arith)
  | inr (ts, goes) ↦
      (let q : Stuck (record s { coordinator = record s.coordinator { reduce_tasks = ts } }) =
          record {
            all = p.all;
            map_flag = p.map_flag;
            flag = p.flag;
            map_ended = p.map_ended;
            reduce_ended = p.reduce_ended;
          } in
        subst (λ u. Stuck u) (ground arith) q)
]

same_step :
    (s t : Server) (x : Event) (events : List Event)
    → step s x ≡ ok s
    → run s (x ∷ events) ≡ ok t
    → run s events ≡ ok t
unfolding run
same_step s t x events same e = ground arith

run-Stuck :
    (s t : Server) (events : List Event) → Quiet events → Stuck s → run s events ≡ ok t → Stuck t
unfolding run
run-Stuck s t [] q p e = subst (λ u. Stuck u) (ground arith) p
run-Stuck s t (asks ∷ events) q p e = elim (Outcome-cases (step s asks)) [
  | inl stops ↦ absurd (ground arith)
  | inr (u, goes) ↦ run-Stuck u t events q (asks-Stuck s u p goes) (ground arith)
]
run-Stuck s t (map_reported i number renamed ∷ events) q p e = absurd q
run-Stuck s t (reduce_reported i number renamed ∷ events) q p e = absurd q
run-Stuck s t (map_scans j ∷ events) q p e =
    run-Stuck s t events q p (same_step s t (map_scans j) events (map_scans-Stuck s j p) e)
run-Stuck s t (reduce_scans j ∷ events) q p e =
    run-Stuck s t events q p (same_step s t (reduce_scans j) events (reduce_scans-Stuck s j p) e)
run-Stuck s t (map_writes j ∷ events) q p e =
    run-Stuck s t events q p (same_step s t (map_writes j) events (map_writes-Stuck s j p) e)
run-Stuck s t (reduce_writes j ∷ events) q p e =
    run-Stuck s t events q p (same_step s t (reduce_writes j) events (reduce_writes-Stuck s j p) e)
run-Stuck s t (map_checked i ∷ events) q p e = elim (Outcome-cases (step s (map_checked i))) [
  | inl stops ↦ absurd (ground arith)
  | inr (u, goes) ↦ run-Stuck u t events q (map_checked-Stuck s u i p goes) (ground arith)
]
run-Stuck s t (reduce_checked i ∷ events) q p e = elim (Outcome-cases (step s (reduce_checked i))) [
  | inl stops ↦ absurd (ground arith)
  | inr (u, goes) ↦ run-Stuck u t events q (reduce_checked-Stuck s u i p goes) (ground arith)
]

-- Two files: both map tasks are handed out and reported, and the two reports interleave. Then every map task
-- is finished, the flag that says so is false, and after any events with no further report a worker that
-- asks is given no task, and nothing changes.
pub run-interleaved :
    (f g : Bytes) (n_reduce : ℕ)
    → (s : Server) × (run (start (f ∷ g ∷ []) n_reduce) interleaved ≡ ok s)
      × (all_finished s.coordinator.map_tasks ≡ true)
      × ((events : List Event) (t : Server) (renamed : Bool)
          → Quiet events
          → run s events ≡ ok t
          → rpc_handler t.coordinator ask renamed ≡ ok (t.coordinator, map_task none))
unfolding run step start make_coordinator map_tasks_of rpc_handler ask_map hand_out get_unassigned
    task_at set_phase report scan_at scan all_finished
run-interleaved f g n_reduce = (
  _,
  refl,
  refl,
  λ events t renamed quiet e. ask-Stuck t renamed (
      run-Stuck _ t events quiet
        (record { all = refl; map_flag = refl; flag = refl; map_ended = refl; reduce_ended = refl })
        e),
)
