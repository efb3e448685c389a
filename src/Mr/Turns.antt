-- ===== src/Mr/Turns.antt =====
-- The loop of Worker in src/mr/worker.go against the coordinator of src/mr/coordinator.go: one worker alone,
-- never late, finishes the whole job.
pub mod Progress
pub mod Finish
use mit_distributed_system.Prelude.{
  ℕ, zero, suc, Bool, true, Option, none, some, Outcome, ok, ◌>>=◌,
}
use mit_distributed_system.Mr.Coordinator.{
  Coordinator, Args, ask, map_done, reduce_done, Reply, all_done, map_task, reduce_task, noted,
  rpc_handler,
}

-- What the worker reports when it has done the task of a reply; `none` if there is no task.
unfoldable pub report_of : Reply → Option Args
report_of all_done = none
report_of (map_task none) = none
report_of (map_task (some (i, t))) = some (map_done i t.task_number)
report_of (reduce_task none) = none
report_of (reduce_task (some (i, t))) = some (reduce_done i t.task_number)
report_of noted = none

abbrev pub send_report : Coordinator → Option Args → Outcome Coordinator
send_report c none = ok c
send_report c (some args) = do next ← rpc_handler c args true; ok next.0

-- One round of the loop in which the calls succeed and renaming the files does.
unfoldable pub turn : Coordinator → Outcome Coordinator
turn c = do asked ← rpc_handler c ask true; send_report asked.0 (report_of asked.1)

unfoldable pub turns : ℕ → Coordinator → Outcome Coordinator
turns zero c = ok c
turns (suc n) c = do next ← turn c; turns n next
