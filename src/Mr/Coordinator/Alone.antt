-- ===== src/Mr/Coordinator/Alone.antt =====
-- A report that runs alone: the events of Steps together are RPCHandler of src/mr/coordinator.go.
use mit_distributed_system.Prelude.{ℕ, suc, Bool, List, [], ◌∷◌, ◌++◌, replicate, ◌>>=◌}
use mit_distributed_system.Mr.Coordinator.{Coordinator}
use mit_distributed_system.Mr.Coordinator.Steps.{Event, map_reported, map_scans, map_writes}

-- The steps of one map report with nothing in between, on a coordinator of so many map tasks where `j`
-- reports came before.
abbrev pub report_events : ℕ → ℕ → Bool → ℕ → ℕ → List Event
report_events i number renamed tasks j =
    map_reported i number renamed ∷ replicate (suc tasks) (map_scans j) ++ map_writes j ∷ []
