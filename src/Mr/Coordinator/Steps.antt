-- ===== src/Mr/Coordinator/Steps.antt =====
-- The coordinator of src/mr/coordinator.go as it runs: a report holds the lock of its own task only, so what
-- it does is split where other handlers and reports can come between. The phase is set; the phases of all
-- tasks are read one after the other; the flag is written. The lock of a task only excludes some of these
-- orders, and is left out.
use mit_distributed_system.Prelude.{
  ℕ, suc, Bool, true, false, Option, none, some, List, [], ◌∷◌, ◌++◌, if◌then◌else◌, get_elem?, set,
  Outcome, ok, ◌>>=◌,
}
use mit_distributed_system.Gob.{Bytes}
use mit_distributed_system.Mr.Coordinator.{
  Task, Coordinator, is_phase_finished, report, ask, rpc_handler, map_task_checker,
  reduce_task_checker, make_coordinator,
}

-- How far a report is: it has found so many tasks finished, or the loop is over with the local flag, or
-- the flag is written.
pub data Scan : Type 0 where
  scanning : ℕ → Scan
  found : Bool → Scan
  returned : Scan

-- The coordinator with the reports whose phase is set, in the order in which they came.
pub record Server : Type 0 where
  pub coordinator : Coordinator
  pub map_reports : List Scan
  pub reduce_reports : List Scan

module _ {F : Type 0} where
  -- One round of the loop over the tasks.
  unfoldable pub scan : List (Task F) → Scan → Scan
  scan ts (scanning k) = elim (get_elem? ts k) [
    | none ↦ found true
    | some t ↦ if is_phase_finished t.phase then scanning (suc k) else found false
  ]
  scan ts (found b) = found b
  scan ts returned = returned

  -- The round of the report at an index.
  unfoldable pub scan_at : List (Task F) → List Scan → ℕ → List Scan
  scan_at ts reports j = elim (get_elem? reports j) [
    | none ↦ reports
    | some p ↦ set reports j (scan ts p)
  ]

abbrev pub begin_map : Server → Option (List (Task Bytes)) → Server
begin_map s none = s
begin_map s (some ts) = record s {
  coordinator = record s.coordinator { map_tasks = ts };
  map_reports = s.map_reports ++ scanning 0 ∷ [];
}

abbrev pub begin_reduce : Server → Option (List (Task Unit)) → Server
begin_reduce s none = s
begin_reduce s (some ts) = record s {
  coordinator = record s.coordinator { reduce_tasks = ts };
  reduce_reports = s.reduce_reports ++ scanning 0 ∷ [];
}

-- c.IsMapFinished = isMapFinished, and c.IsFinished = c.Done()
abbrev pub write_map : Server → ℕ → Option Scan → Server
write_map s j none = s
write_map s j (some (scanning k)) = s
write_map s j (some (found b)) = record s {
  coordinator = record s.coordinator { is_map_finished = b };
  map_reports = set s.map_reports j returned;
}
write_map s j (some returned) = s

abbrev pub write_reduce : Server → ℕ → Option Scan → Server
write_reduce s j none = s
write_reduce s j (some (scanning k)) = s
write_reduce s j (some (found b)) = record s {
  coordinator = record s.coordinator { is_finished = b };
  reduce_reports = set s.reduce_reports j returned;
}
write_reduce s j (some returned) = s

-- What happens next: a worker asks; a task with a number is reported, and its files are renamed or not; a
-- report looks at one more task, or writes the flag; a checker's sleep ends.
pub data Event : Type 0 where
  asks : Event
  map_reported reduce_reported : ℕ → ℕ → Bool → Event
  map_scans reduce_scans map_writes reduce_writes map_checked reduce_checked : ℕ → Event

unfoldable pub step : Server → Event → Outcome Server
step s asks = do next ← rpc_handler s.coordinator ask true; ok (record s { coordinator = next.0 })
step s (map_reported i number renamed) = do
  ts ← report s.coordinator.map_tasks i number renamed
  ok (begin_map s ts)
step s (reduce_reported i number renamed) = do
  ts ← report s.coordinator.reduce_tasks i number renamed
  ok (begin_reduce s ts)
step s (map_scans j) =
    ok (record s { map_reports = scan_at s.coordinator.map_tasks s.map_reports j })
step s (reduce_scans j) =
    ok (record s { reduce_reports = scan_at s.coordinator.reduce_tasks s.reduce_reports j })
step s (map_writes j) = ok (write_map s j (get_elem? s.map_reports j))
step s (reduce_writes j) = ok (write_reduce s j (get_elem? s.reduce_reports j))
step s (map_checked i) = do c ← map_task_checker s.coordinator i; ok (record s { coordinator = c })
step s (reduce_checked i) = do
  c ← reduce_task_checker s.coordinator i
  ok (record s { coordinator = c })

unfoldable pub run : Server → List Event → Outcome Server
run s [] = ok s
run s (e ∷ events) = do t ← step s e; run t events

unfoldable pub start : List Bytes → ℕ → Server
start files n_reduce = record {
  coordinator = make_coordinator files n_reduce;
  map_reports = [];
  reduce_reports = [];
}
