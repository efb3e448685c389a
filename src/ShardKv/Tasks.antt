-- ===== src/ShardKv/Tasks.antt =====
-- The goroutines of a server of src/shardkv/server.go: those that a command starts.
pub mod Ending
pub mod Tended
use mit_distributed_system.Prelude.{
  ℕ, zero, suc, ◌+◌, ◌-◌, ◌≤◌, ◌<◌, ◌≡◌, refl, ap, sym, ◌∙◌, inl, inr, Bool, true, false, not,
  Option, none, some, List, [], ◌∷◌, ◌++◌, append-nil, arith, if◌then◌else◌, ◌&&◌, ◌||◌, ◌==◌,
  ==_iff, Outcome, ok, fatal, ◌>>=◌, Outcome-cases, Bool-cases, Option-cases, leb, ltb, get_elem?,
  ℤ,
}
use mit_distributed_system.Gob.{Bytes}
use mit_distributed_system.Assoc.{Assoc, lookup, put, nat_key, bytes_key}
use mit_distributed_system.ShardCtrler.Defs.{Config}
use mit_distributed_system.ShardKv.Defs.{
  ShardStatus, working, pulling, leaving, waiting, Shard, Shards, Command, get, append,
  update_config, pull_shard, leave_shard, transfer_done, Op, Err, WaitChResponse, ShardKv, Task,
  pull_task, leave_task,
}
use mit_distributed_system.ShardKv.Apply.{
  is_mine, is_owner, is_none, is_pulling, pull_tasks, change_config, take_over, give_up, confirm,
  client_request, apply_command, apply_op, answer, appended, read_answer,
}
use mit_distributed_system.ShardKv.Apply.Serve.{
  serving-cases, client_request_refused, client_request_served,
}
use mit_distributed_system.ShardKv.Apply.Statuses.{
  shard_status, status, status_after, reassigned, received, confirmed, get_elem?_shift,
  apply_command-status_after,
}
use mit_distributed_system.ShardKv.Apply.Configs.{
  brings, Configured, stays, advances, apply_command-Configured,
}
use mit_distributed_system.ShardKv.Transfer.{is_task}
use mit_distributed_system.ShardKv.Invariant.{
  works, AllWorking, Allowed, Reached, Allowed-AllWorking,
}

abbrev pub has_task : Task → List Task → Bool
has_task t [] = false
has_task t (u ∷ tasks) = is_task u t || has_task t tasks

-- Whether a shard with this status has the goroutine that it needs.
abbrev pub tended : List Task → ℕ → ℕ → Option ShardStatus → Bool
tended tasks version s none = true
tended tasks version s (some working) = true
tended tasks version s (some leaving) = true
tended tasks version s (some pulling) = has_task (pull_task s version) tasks
tended tasks version s (some waiting) = has_task (leave_task s version) tasks

-- A pullShard runs for each PULLING shard, and a sendLeave for each WAITING one, at the current version.
abbrev pub Tended : ShardKv → Type 0
Tended kv = (s : ℕ) → tended kv.tasks kv.curr_config.num s (status kv s) ≡ true

-- The goroutines that a command starts.
abbrev pub new_tasks : ShardKv → Command → List Task
new_tasks kv (get key) = []
new_tasks kv (Command.put key value) = []
new_tasks kv (append key value) = []
new_tasks kv (update_config config) =
    if not (config.num == suc kv.curr_config.num)
    then []
    else if config.num == 1
    then []
    else pull_tasks kv.gid config.num 0 config.shards kv.shards
new_tasks kv (pull_shard i v storage) =
    if kv.curr_config.num == v
    then (elim (status kv i) [
      | none ↦ []
      | some st ↦ if is_pulling st then leave_task i kv.curr_config.num ∷ [] else []
    ])
    else []
new_tasks kv (leave_shard i v) = []
new_tasks kv (transfer_done i v) = []

has_task-append :
    (t : Task) (xs ys : List Task) → has_task t (xs ++ ys) ≡ (has_task t xs || has_task t ys)
has_task-append t [] ys = refl
has_task-append t (x ∷ xs) ys = ground (arith, has_task-append t xs ys)

has_task-pull_tasks :
    (me version i : ℕ) (owners : List ℕ) (shards : Shards) (s : ℕ)
    → has_task (pull_task s version) (pull_tasks me version i owners shards)
      ≡ (leb i s && (is_owner me (get_elem? owners (s - i)) && is_none (lookup s shards)))
unfolding pull_tasks
has_task-pull_tasks me version i [] shards s = ground arith
has_task-pull_tasks me version i (gid ∷ owners) shards s = ground (
  arith,
  get_elem?_shift gid owners i s,
  has_task-pull_tasks me version (suc i) owners shards s,
  ==_iff i s,
)

client_request-tasks :
    (kv : ShardKv) (op : Op) (key : Bytes) (change : Assoc Bytes Bytes → Assoc Bytes Bytes)
    (respond : Assoc Bytes Bytes → WaitChResponse)
    → (client_request kv op key change respond).0.tasks ≡ kv.tasks
unfolding client_request
client_request-tasks kv op key change respond = elim (serving-cases key kv.shards) [
  | inl gone ↦ ground (arith, gone)
  | inr (shard, up, there, ok_status) ↦ ground (arith, up)
]

apply_command-tasks :
    (kv : ShardKv) (op : Op) (command : Command) {next : ShardKv × WaitChResponse}
    → apply_command kv op command ≡ ok next
    → next.0.tasks ≡ kv.tasks ++ new_tasks kv command
unfolding apply_command change_config take_over give_up confirm
apply_command-tasks kv op (get key) e = ground (
  arith,
  append-nil kv.tasks,
  client_request-tasks kv op key (λ s. s) (λ s. read_answer (lookup key s)),
)
apply_command-tasks kv op (Command.put key value) e = ground (
  arith,
  append-nil kv.tasks,
  client_request-tasks kv op key (put key value) (λ s. answer Err.ok []),
)
apply_command-tasks kv op (append key value) e = ground (
  arith,
  append-nil kv.tasks,
  client_request-tasks kv op key (λ s. put key (appended (lookup key s) value) s)
      (λ s. answer Err.ok []),
)
apply_command-tasks kv op (update_config config) e =
    elim (Outcome-cases (change_config kv config)) [
      | inl stops ↦ ground arith
      | inr (kv', goes) ↦ ground (arith, append-nil kv.tasks)
    ]
apply_command-tasks kv op (pull_shard i v storage) e =
    elim (Outcome-cases (take_over kv i v storage)) [
      | inl stops ↦ ground arith
      | inr (kv', goes) ↦ ground (arith, append-nil kv.tasks)
    ]
apply_command-tasks kv op (leave_shard i v) e = ground (arith, append-nil kv.tasks)
apply_command-tasks kv op (transfer_done i v) e = elim (Outcome-cases (confirm kv i v)) [
  | inl stops ↦ ground arith
  | inr (kv', goes) ↦ elim (Option-cases (lookup i kv.shards)) [
    | inl gone ↦ ground (arith, append-nil kv.tasks)
    | inr (shard, there) ↦ ground (arith, append-nil kv.tasks)
  ]
]
