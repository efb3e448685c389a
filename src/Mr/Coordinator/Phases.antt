-- ===== src/Mr/Coordinator/Phases.antt =====
-- The order of the map and the reduce phase (src/mr/coordinator.go).
use mit_distributed_system.Prelude.{ℕ, ◌≡◌, Bool, true, false, List, ok, arith}
use mit_distributed_system.Gob.{Bytes}
use mit_distributed_system.Mr.Coordinator.{
  Coordinator, all_finished, ask, Reply, all_done, map_task, reduce_task, noted, done, ask_map,
  ask_reduce, rpc_handler,
}
use mit_distributed_system.Mr.Coordinator.Steps.{Server, Event, run, start}
use mit_distributed_system.Mr.Coordinator.Truth.{Truthful, run-Truthful, start-Truthful}

-- What an answer to a worker that asks for a task says of the coordinator.
abbrev pub Announces : Coordinator → Reply → Type 0
Announces c all_done = done c ≡ true
Announces c (map_task given) = c.is_map_finished ≡ false
Announces c (reduce_task given) = all_finished c.map_tasks ≡ true
Announces c noted = ⊥

ask-Announces :
    (s : Server) (c' : Coordinator) (reply : Reply) (renamed : Bool)
    → Truthful s
    → rpc_handler s.coordinator ask renamed ≡ ok (c', reply)
    → Announces s.coordinator reply
unfolding rpc_handler ask_map ask_reduce done
ask-Announces s c' all_done renamed p e = ground (arith, p.reduces)
ask-Announces s c' (map_task given) renamed p e = ground arith
ask-Announces s c' (reduce_task given) renamed p e = ground (arith, p.maps)
ask-Announces s c' noted renamed p e = ground arith

-- After any events from the start, also when reports and checkers interleave, a worker that asks is given a
-- reduce task only when every map task is finished, and is told that all is done only when every reduce
-- task is finished.
pub Run-Announces :
    (files : List Bytes) (n_reduce : ℕ) (events : List Event) {s : Server} {c' : Coordinator}
    {reply : Reply} (renamed : Bool)
    → run (start files n_reduce) events ≡ ok s
    → rpc_handler s.coordinator ask renamed ≡ ok (c', reply)
    → Announces s.coordinator reply
Run-Announces files n_reduce events {s} {c'} {reply} renamed reached e =
    ask-Announces s c' reply renamed
      (run-Truthful (start files n_reduce) s events (start-Truthful files n_reduce) reached) e
