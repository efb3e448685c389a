-- ===== src/Mr/Tests.antt =====
-- The theorems about a Coordinator at concrete states.
use mit_distributed_system.Prelude.{none, Bool, List, ◌≡◌, refl, true, some, [], ◌∷◌, ok}
use mit_distributed_system.Mr.Coordinator.{
  report, set_phase, task_at, running, make_coordinator, all_finished, rpc_handler, unassigned,
  finished, Coordinator, get_unassigned, hand_out, ask, Reply, map_task, reduce_task, ask_map,
  ask_reduce, map_tasks_of,
}
use mit_distributed_system.Mr.Coordinator.Steps.{
  returned, Server, Event, asks, map_reported, map_scans, map_writes, scan, scan_at, step, run,
  start,
}
use mit_distributed_system.Mr.Coordinator.Phases.{Run-Announces}
use mit_distributed_system.Mr.Coordinator.Race.{interleaved, Quiet, run-interleaved}

-- One file and one reduce task; the map task is finished.
abbrev mapped : Coordinator
mapped = record (make_coordinator ((5 ∷ []) ∷ []) 1) {
  map_tasks = record { phase = finished; file = 5 ∷ []; task_number = 0 } ∷ [];
  is_map_finished = true;
}

abbrev events : List Event
events = asks ∷ map_reported 0 0 true ∷ map_scans 0 ∷ map_scans 0 ∷ map_writes 0 ∷ []

abbrev reached_server : Server
reached_server = record { coordinator = mapped; map_reports = returned ∷ []; reduce_reports = [] }

reached : run (start ((5 ∷ []) ∷ []) 1) events ≡ ok reached_server
unfolding run step start make_coordinator map_tasks_of rpc_handler ask_map hand_out get_unassigned
    task_at set_phase report scan_at scan
reached = refl

abbrev reducing : Coordinator
reducing = record mapped {
  reduce_tasks = record { phase = running; file = tt; task_number = 0 } ∷ [];
}

abbrev first_reduce : Reply
first_reduce = reduce_task (some (0, record { phase = unassigned; file = tt; task_number = 0 }))

reduces : rpc_handler mapped ask true ≡ ok (reducing, first_reduce)
unfolding rpc_handler ask_reduce hand_out get_unassigned task_at set_phase make_coordinator
reduces = refl

Run-Announces_example : all_finished mapped.map_tasks ≡ true
Run-Announces_example =
    Run-Announces ((5 ∷ []) ∷ []) 1 events {reply = first_reduce} true reached reduces

run-interleaved_example :
    (s : Server) × (run (start ((5 ∷ []) ∷ (6 ∷ []) ∷ []) 1) interleaved ≡ ok s)
    × (all_finished s.coordinator.map_tasks ≡ true)
    × ((events : List Event) (t : Server) (renamed : Bool)
        → Quiet events
        → run s events ≡ ok t
        → rpc_handler t.coordinator ask renamed ≡ ok (t.coordinator, map_task none))
run-interleaved_example = run-interleaved (5 ∷ []) (6 ∷ []) 1

-- The report of the only map task.
abbrev assigned : Server
assigned = record {
  coordinator = record (make_coordinator ((5 ∷ []) ∷ []) 1) {
    map_tasks = record { phase = running; file = 5 ∷ []; task_number = 0 } ∷ [];
  };
  map_reports = [];
  reduce_reports = [];
}
