-- ===== src/Mr/Coordinator.antt =====
-- The state and the handlers of src/mr/coordinator.go, each by itself; Steps has their interleavings. Renaming files is outside: whether it succeeds is an argument.
pub mod Steps
pub mod Scans
pub mod Finished
pub mod Truth
pub mod Phases
pub mod Race
pub mod Rounds
pub mod Alone
use mit_distributed_system.Prelude.{
  ℕ, zero, suc, Bool, true, false, not, Option, none, some, List, [], ◌∷◌, ◌==◌, if◌then◌else◌,
  length, get_elem?, set, replicate, Outcome, ok, fatal, ◌>>=◌,
}
use mit_distributed_system.Gob.{Bytes}

-- -1, 0 and 1
pub data Phase : Type 0 where
  unassigned running finished : Phase

-- MapTask, whose file is a name, and ReduceTask, which has none.
pub record Task (F : Type 0) : Type 0 where
  pub phase : Phase
  pub file : F
  pub task_number : ℕ

pub record Coordinator : Type 0 where
  pub n_map : ℕ
  pub n_reduce : ℕ
  pub is_map_finished : Bool
  pub is_finished : Bool
  pub map_tasks : List (Task Bytes)
  pub reduce_tasks : List (Task Unit)

abbrev pub is_phase_finished : Phase → Bool
is_phase_finished unassigned = false
is_phase_finished running = false
is_phase_finished finished = true

module _ {F : Type 0} where
  -- GetUnassignedMapTask and GetUnassignedReduceTask, -1 as `none`, from the index `i` on
  unfoldable pub get_unassigned : ℕ → List (Task F) → Option ℕ
  get_unassigned i [] = none
  get_unassigned i (t ∷ ts) = elim t.phase [
    | unassigned ↦ some i
    | running ↦ get_unassigned (suc i) ts
    | finished ↦ get_unassigned (suc i) ts
  ]

  -- the task of an index, which panics out of range
  unfoldable pub task_at : List (Task F) → ℕ → Outcome (Task F)
  task_at ts i = elim (get_elem? ts i) [ none ↦ fatal | some t ↦ ok t ]

  -- Phase = phase, with the task number that it gets
  unfoldable pub set_phase : List (Task F) → ℕ → Task F → Phase → ℕ → List (Task F)
  set_phase ts i t phase number = set ts i (record t { phase = phase; task_number = number })

  -- MapTaskChecker and ReduceTaskChecker, after the sleep
  unfoldable pub check_task : List (Task F) → ℕ → Outcome (List (Task F))
  check_task ts i = do
    t ← task_at ts i
    ok (if is_phase_finished t.phase then ts else set_phase ts i t unassigned (suc t.task_number))

  -- every Phase is 1
  unfoldable pub all_finished : List (Task F) → Bool
  all_finished [] = true
  all_finished (t ∷ ts) = if is_phase_finished t.phase then all_finished ts else false

  -- The tasks after one is handed out, with its index, itself and its number; `none` is -1.
  unfoldable pub hand_out : List (Task F) → Outcome (List (Task F) × Option (ℕ × Task F))
  hand_out ts = elim (get_unassigned 0 ts) [
    | none ↦ ok (ts, none)
    | some i ↦ (do t ← task_at ts i; ok (set_phase ts i t running t.task_number, some (i, t)))
  ]

  -- A report of a finished task: one that is late changes nothing (`none`); else the files are renamed.
  unfoldable pub report : List (Task F) → ℕ → ℕ → Bool → Outcome (Option (List (Task F)))
  report ts i number renamed = do
    t ← task_at ts i
    if not (number == t.task_number)
        then ok none
        else (if renamed then ok (some (set_phase ts i t finished t.task_number)) else fatal)

-- Args
pub data Args : Type 0 where
  ask : Args
  map_done reduce_done : ℕ → ℕ → Args

-- Reply to a worker that asks: IsFinished, or a map task, or a reduce task; nothing to a report.
pub data Reply : Type 0 where
  all_done : Reply
  map_task : Option (ℕ × Task Bytes) → Reply
  reduce_task : Option (ℕ × Task Unit) → Reply
  noted : Reply

unfoldable pub done : Coordinator → Bool
done c = all_finished c.reduce_tasks

abbrev pub after_map_report : Coordinator → Option (List (Task Bytes)) → Coordinator
after_map_report c none = c
after_map_report c (some ts) = record c { map_tasks = ts; is_map_finished = all_finished ts }

abbrev pub after_reduce_report : Coordinator → Option (List (Task Unit)) → Coordinator
after_reduce_report c none = c
after_reduce_report c (some ts) = record c { reduce_tasks = ts; is_finished = all_finished ts }

unfoldable pub ask_map : Coordinator → Outcome (Coordinator × Reply)
ask_map c = do next ← hand_out c.map_tasks; ok (record c { map_tasks = next.0 }, map_task next.1)

unfoldable pub ask_reduce : Coordinator → Outcome (Coordinator × Reply)
ask_reduce c = do
  next ← hand_out c.reduce_tasks
  ok (record c { reduce_tasks = next.0 }, reduce_task next.1)

-- RPCHandler when nothing else runs between its start and its return.
unfoldable pub rpc_handler : Coordinator → Args → Bool → Outcome (Coordinator × Reply)
rpc_handler c ask renamed =
    if c.is_finished
    then ok (c, all_done)
    else if c.is_map_finished
    then ask_reduce c
    else ask_map c
rpc_handler c (map_done i number) renamed = do
  ts ← report c.map_tasks i number renamed
  ok (after_map_report c ts, noted)
rpc_handler c (reduce_done i number) renamed = do
  ts ← report c.reduce_tasks i number renamed
  ok (after_reduce_report c ts, noted)

unfoldable pub map_task_checker : Coordinator → ℕ → Outcome Coordinator
map_task_checker c i = do ts ← check_task c.map_tasks i; ok (record c { map_tasks = ts })

unfoldable pub reduce_task_checker : Coordinator → ℕ → Outcome Coordinator
reduce_task_checker c i = do ts ← check_task c.reduce_tasks i; ok (record c { reduce_tasks = ts })

unfoldable pub map_tasks_of : List Bytes → List (Task Bytes)
map_tasks_of [] = []
map_tasks_of (name ∷ names) =
    record { phase = unassigned; file = name; task_number = 0 } ∷ map_tasks_of names

unfoldable pub make_coordinator : List Bytes → ℕ → Coordinator
make_coordinator files n_reduce = record {
  n_map = length files;
  n_reduce = n_reduce;
  is_map_finished = false;
  is_finished = false;
  map_tasks = map_tasks_of files;
  reduce_tasks = replicate n_reduce (record { phase = unassigned; file = tt; task_number = 0 });
}
