-- ===== src/ShardKv/Tasks/Ending.antt =====
-- The goroutines of src/shardkv/server.go that end are not those that a shard waits for.
use mit_distributed_system.Prelude.{
  ℕ, ◌≡◌, ◌∙◌, ap, ◌||◌, Outcome-cases, refl, inl, inr, Bool, true, false, Option, none, some, List,
  [], ◌∷◌, arith, if◌then◌else◌, ==_iff,
}
use mit_distributed_system.Assoc.{nat_key}
use mit_distributed_system.ShardKv.Defs.{
  ShardStatus, working, pulling, leaving, waiting, ShardKv, Task, pull_task, leave_task,
}
use mit_distributed_system.ShardKv.Apply.Statuses.{status}
use mit_distributed_system.ShardKv.Transfer.{
  Ends, pull_ends, leave_ends, pull_round, leave_round, old_servers, is_task, without_task,
  end_task,
}
use mit_distributed_system.ShardKv.Tasks.{has_task, tended, Tended}

-- Two tasks that are the same are alike to a third.
is_task_shift : (t x u : Task) → is_task t x ≡ true → is_task t u ≡ false → is_task x u ≡ false
is_task_shift (pull_task i v) (pull_task s w) (pull_task j a) e other =
    ground (arith, ==_iff i s, ==_iff v w)
is_task_shift (pull_task i v) (pull_task s w) (leave_task j a) e other = refl
is_task_shift (pull_task i v) (leave_task s w) u e other = cc
is_task_shift (leave_task i v) (pull_task s w) u e other = cc
is_task_shift (leave_task i v) (leave_task s w) (pull_task j a) e other = refl
is_task_shift (leave_task i v) (leave_task s w) (leave_task j a) e other =
    ground (arith, ==_iff i s, ==_iff v w)

has_task-without_task :
    (t u : Task) (tasks : List Task)
    → is_task t u ≡ false
    → has_task u (without_task t tasks) ≡ has_task u tasks
has_task-without_task t u [] other = refl
has_task-without_task t u (x ∷ tasks) other =
    by_test (is_task t x) refl (has_task-without_task t u tasks other)
  where
    by_test :
        (b : Bool)
        → is_task t x ≡ b
        → has_task u (without_task t tasks) ≡ has_task u tasks
        → has_task u (if b then tasks else x ∷ without_task t tasks)
          ≡ (is_task x u || has_task u tasks)
    by_test false e rest = ap (λ b. is_task x u || b) rest
    by_test true e rest = rw (is_task_shift t x u e other) refl

-- The goroutine that a shard needs does not end.
Ends-pulling :
    (kv : ShardKv) (t : Task) (s : ℕ)
    → Ends kv t
    → status kv s ≡ some pulling
    → is_task t (pull_task s kv.curr_config.num) ≡ false
unfolding pull_round
Ends-pulling kv _ s (pull_ends i v is_leader call op e) p =
    elim (Outcome-cases (old_servers kv i)) [
      | inl stops ↦ ground (arith, ==_iff i s, ==_iff v kv.curr_config.num)
      | inr (servers, goes) ↦ ground (arith, ==_iff i s, ==_iff v kv.curr_config.num)
    ]
Ends-pulling kv _ s (leave_ends i v is_leader call op e) p = refl

Ends-waiting :
    (kv : ShardKv) (t : Task) (s : ℕ)
    → Ends kv t
    → status kv s ≡ some waiting
    → is_task t (leave_task s kv.curr_config.num) ≡ false
unfolding leave_round
Ends-waiting kv _ s (pull_ends i v is_leader call op e) p = refl
Ends-waiting kv _ s (leave_ends i v is_leader call op e) p =
    elim (Outcome-cases (old_servers kv i)) [
      | inl stops ↦ ground (arith, ==_iff i s, ==_iff v kv.curr_config.num)
      | inr (servers, goes) ↦ ground (arith, ==_iff i s, ==_iff v kv.curr_config.num)
    ]

pub end_task-Tended : (kv : ShardKv) (t : Task) → Ends kv t → Tended kv → Tended (end_task kv t)
end_task-Tended kv t ends p s = by_status (status kv s) refl (p s)
  where
    by_status :
        (st : Option ShardStatus)
        → status kv s ≡ st
        → tended kv.tasks kv.curr_config.num s st ≡ true
        → tended (without_task t kv.tasks) kv.curr_config.num s st ≡ true
    by_status none e h = refl
    by_status (some working) e h = refl
    by_status (some leaving) e h = refl
    by_status (some pulling) e h =
        has_task-without_task t (pull_task s kv.curr_config.num) kv.tasks
          (Ends-pulling kv t s ends e)
        ∙ h
    by_status (some waiting) e h =
        has_task-without_task t (leave_task s kv.curr_config.num) kv.tasks
          (Ends-waiting kv t s ends e)
        ∙ h
