-- ===== src/ShardKv/Tasks/Tended.antt =====
-- Every shard of a server of src/shardkv/server.go that waits for another group keeps its goroutine.
use mit_distributed_system.Prelude.{
  ℕ, ℤ, suc, ◌-◌, ◌≡◌, subst, refl, inl, inr, Bool, true, false, Option, none, some, List, [], ◌∷◌,
  ◌++◌, arith, if◌then◌else◌, ◌&&◌, ◌==◌, ==_iff, ok, Bool-cases, Option-cases,
}
use mit_distributed_system.Assoc.{lookup, nat_key}
use mit_distributed_system.ShardCtrler.Defs.{Config}
use mit_distributed_system.ShardKv.Defs.{
  ShardStatus, working, pulling, leaving, waiting, Command, get, append, update_config, pull_shard,
  leave_shard, transfer_done, Op, WaitChResponse, ShardKv, Task, pull_task, leave_task,
}
use mit_distributed_system.ShardKv.Apply.{is_mine, is_pulling, pull_tasks, apply_op}
use mit_distributed_system.ShardKv.Apply.Statuses.{
  status, status_after, reassigned, received, apply_command-status_after,
}
use mit_distributed_system.ShardKv.Apply.Configs.{
  brings, Configured, stays, advances, apply_command-Configured,
}
use mit_distributed_system.ShardKv.Server.{Codec, deserialize, start_server}
use mit_distributed_system.ShardKv.Tasks.Ending.{end_task-Tended}
use mit_distributed_system.ShardKv.Invariant.{works, AllWorking, Reached, Allowed-AllWorking}
use mit_distributed_system.ShardKv.Tasks.{
  has_task, tended, Tended, new_tasks, has_task-append, has_task-pull_tasks, apply_command-tasks,
}

-- More goroutines do no harm.
tended-append :
    (tasks more : List Task) (version s : ℕ) (st : Option ShardStatus)
    → tended tasks version s st ≡ true
    → tended (tasks ++ more) version s st ≡ true
tended-append tasks more version s none h = refl
tended-append tasks more version s (some working) h = refl
tended-append tasks more version s (some leaving) h = refl
tended-append tasks more version s (some pulling) h =
    ground (arith, has_task-append (pull_task s version) tasks more)
tended-append tasks more version s (some waiting) h =
    ground (arith, has_task-append (leave_task s version) tasks more)

-- A shard that is received.
abbrev received_tasks : ℕ → ℕ → Option ShardStatus → List Task
received_tasks version s none = []
received_tasks version s (some st) = if is_pulling st then leave_task s version ∷ [] else []

tended-received :
    (tasks : List Task) (version s : ℕ) (st : Option ShardStatus)
    → tended tasks version s st ≡ true
    → tended (tasks ++ received_tasks version s st) version s (received st) ≡ true
tended-received tasks version s none h = refl
tended-received tasks version s (some working) h = refl
tended-received tasks version s (some leaving) h = refl
tended-received tasks version s (some pulling) h =
    ground (arith, has_task-append (leave_task s version) tasks (leave_task s version ∷ []))
tended-received tasks version s (some waiting) h = tended-append tasks [] version s (some waiting) h

-- A shard that a new configuration, whose goroutines are `more`, leaves or gives to this group.
tended-reassigned :
    (tasks more : List Task) (version s : ℕ) (mine : Bool) (st : Option ShardStatus)
    → works st ≡ true
    → (mine ≡ true → st ≡ none → has_task (pull_task s version) more ≡ true)
    → tended (tasks ++ more) version s (reassigned mine st) ≡ true
tended-reassigned tasks more version s true none w started =
    ground (arith, has_task-append (pull_task s version) tasks more, started refl refl)
tended-reassigned tasks more version s true (some working) w started = refl
tended-reassigned tasks more version s true (some pulling) w started = cc
tended-reassigned tasks more version s true (some leaving) w started = cc
tended-reassigned tasks more version s true (some waiting) w started = cc
tended-reassigned tasks more version s false none w started = refl
tended-reassigned tasks more version s false (some st) w started = refl

tended-works :
    (tasks : List Task) (version s : ℕ) (st : Option ShardStatus)
    → works st ≡ true
    → tended tasks version s st ≡ true
tended-works tasks version s none w = refl
tended-works tasks version s (some working) w = refl
tended-works tasks version s (some pulling) w = cc
tended-works tasks version s (some leaving) w = cc
tended-works tasks version s (some waiting) w = cc

minus_zero : (s : ℕ) → s - 0 ≡ s
minus_zero s = omega arith

module _ (kv : ShardKv) (s : ℕ) where
  -- A command that brings no configuration.
  tended-kept :
      (command : Command)
      → brings command kv.curr_config.num ≡ none
      → tended kv.tasks kv.curr_config.num s (status kv s) ≡ true
      → tended
          (kv.tasks ++ new_tasks kv command)
          kv.curr_config.num
          s
          (status_after kv.gid kv.curr_config.num command s (status kv s))
        ≡ true
  tended-kept (get key) b h = tended-append kv.tasks [] kv.curr_config.num s (status kv s) h
  tended-kept (Command.put key value) b h =
      tended-append kv.tasks [] kv.curr_config.num s (status kv s) h
  tended-kept (append key value) b h =
      tended-append kv.tasks [] kv.curr_config.num s (status kv s) h
  tended-kept (update_config config) b h =
      ground (arith, tended-append kv.tasks [] kv.curr_config.num s (status kv s) h)
  tended-kept (pull_shard i v storage) b h = elim (Bool-cases (kv.curr_config.num == v && i == s)) [
    | inr elsewhere ↦ ground (
      arith,
      elsewhere,
      tended-append kv.tasks (new_tasks kv (pull_shard i v storage)) kv.curr_config.num s
          (status kv s) h,
    )
    | inl here ↦
        let at : i ≡ s = ground (arith, ==_iff i s) in
        ground (arith, here, tended-received kv.tasks kv.curr_config.num s (status kv s) h)
  ]
  tended-kept (leave_shard i v) b h =
      ground (arith, tended-append kv.tasks [] kv.curr_config.num s (status kv s) h)
  tended-kept (transfer_done i v) b h =
      ground (arith, tended-append kv.tasks [] kv.curr_config.num s (status kv s) h)

  started :
      (config : Config)
      → is_mine kv.gid config s ≡ true
      → status kv s ≡ none
      → has_task (pull_task s config.num) (pull_tasks kv.gid config.num 0 config.shards kv.shards)
        ≡ true
  started config mine e = elim (Option-cases (lookup s kv.shards)) [
    | inl missing ↦
        ground
          (arith, has_task-pull_tasks kv.gid config.num 0 config.shards kv.shards s, minus_zero s)
    | inr (shard, there) ↦ absurd (ground arith)
  ]

  -- The next configuration, while every shard is WORKING.
  tended-brought :
      (new : Config) (command : Command)
      → brings command kv.curr_config.num ≡ some new
      → works (status kv s) ≡ true
      → tended
          (kv.tasks ++ new_tasks kv command)
          new.num
          s
          (status_after kv.gid kv.curr_config.num command s (status kv s))
        ≡ true
  tended-brought new (get key) b w = cc
  tended-brought new (Command.put key value) b w = cc
  tended-brought new (append key value) b w = cc
  tended-brought new (update_config config) b w =
      let follows : config.num == suc kv.curr_config.num ≡ true = ground arith in
      let same : config.num ≡ new.num = ground arith in
      elim (Bool-cases (config.num == 1)) [
        | inl first ↦
            ground (arith, follows, first, tended-works (kv.tasks ++ []) new.num s (status kv s) w)
        | inr later ↦ ground (
          arith,
          follows,
          later,
          same,
          tended-reassigned kv.tasks (pull_tasks kv.gid config.num 0 config.shards kv.shards)
              config.num s (is_mine kv.gid config s) (status kv s) w (started config),
        )
      ]
  tended-brought new (pull_shard i v storage) b w = cc
  tended-brought new (leave_shard i v) b w = cc
  tended-brought new (transfer_done i v) b w = cc

module _ (kv : ShardKv) (op : Op) (next : ShardKv × WaitChResponse)
    (e : apply_op kv op ≡ ok next) where
  apply_op-Tended :
      ((config : Config) → brings op.command kv.curr_config.num ≡ some config → AllWorking kv)
      → Tended kv
      → Tended next.0
  apply_op-Tended ready p s =
      by_configuration (brings op.command kv.curr_config.num) refl
        (apply_command-Configured kv op op.command e)
    where
      by_configuration :
          (c : Option Config)
          → brings op.command kv.curr_config.num ≡ c
          → Configured kv next.0 c
          → tended next.0.tasks next.0.curr_config.num s (status next.0 s) ≡ true
      by_configuration none b (stays gid curr prev) =
          rw
            (
              apply_command-tasks kv op op.command e,
              apply_command-status_after kv op op.command s e,
              curr,
            )
            (tended-kept kv s op.command b (p s))
      by_configuration (some config) b (advances _ gid curr prev follows) =
          rw
            (
              apply_command-tasks kv op op.command e,
              apply_command-status_after kv op op.command s e,
              curr,
            )
            (tended-brought kv s config op.command b (ready config b s))

start_server-Tended :
    (codec : Codec) (me gid : ℕ) (max_raft_state : ℤ) {start : ShardKv}
    → start_server codec me gid max_raft_state [] ≡ ok start
    → Tended start
unfolding start_server deserialize lookup
start_server-Tended codec me gid max_raft_state {start} e s = ground arith

Tended-Reached : {start v : ShardKv} → Tended start → Reached start v → Tended v
Tended-Reached p Reached.here = p
Tended-Reached {start} {v} p (Reached.next {u} op reply run allowed e) =
    apply_op-Tended u op (v, reply) e (λ config b. Allowed-AllWorking u op config allowed b)
      (Tended-Reached p run)
Tended-Reached {start} {v} p (Reached.ended {u} t run ends e) =
    subst (λ w. Tended w) e (end_task-Tended u t ends (Tended-Reached p run))

-- In a process that StartServer begins without a snapshot, which then applies operations of a log that
-- clients, transfers and fetchNextConfig started, while goroutines end as their loops say, a pullShard runs
-- for each PULLING shard and a sendLeave for each WAITING one, at the version of the configuration.
pub Reached-Tended :
    (codec : Codec) (me gid : ℕ) (max_raft_state : ℤ) {start v : ShardKv}
    → start_server codec me gid max_raft_state [] ≡ ok start
    → Reached start v
    → Tended v
Reached-Tended codec me gid max_raft_state e run =
    Tended-Reached (start_server-Tended codec me gid max_raft_state e) run
