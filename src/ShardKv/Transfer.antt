-- ===== src/ShardKv/Transfer.antt =====
-- The transfer of shards between groups: the handlers of src/shardkv/server_shard_transfer.go, and one
-- round of each of the goroutines pullShard, sendLeave and fetchNextConfig of src/shardkv/server.go.
-- The RPCs of a round are a function from a server's name to the reply, `none` for a failed call.
use mit_distributed_system.Prelude.{
  ◌≡◌, ℕ, suc, Bool, true, false, not, ◌&&◌, Option, none, some, List, [], ◌∷◌, ltb, ◌==◌, pos,
  if◌then◌else◌, get_elem?, Outcome, ok, fatal, ◌>>=◌,
}
use mit_distributed_system.Gob.{Bytes}
use mit_distributed_system.Assoc.{lookup, nat_key}
use mit_distributed_system.ShardCtrler.Defs.{Config}
use mit_distributed_system.ShardKv.Defs.{
  ShardStatus, working, pulling, leaving, waiting, Shards, Command, update_config, pull_shard,
  leave_shard, transfer_done, Op, Err, err_wrong_leader, err_config_version, ShardKv, TransferArgs,
  PullReply, Task, pull_task, leave_task,
}
use mit_distributed_system.ShardKv.Apply.{is_pulling, is_waiting}

-- An Op of the server itself, with the zero values of ClientId and RequestId.
abbrev pub internal_op : Command → Op
internal_op command = record { command = command; client_id = 0; request_id = pos 0 }

abbrev pub refuse : Err → PullReply
refuse err = record { storage = []; err = err }

-- ShardKV.Pull, at the result of GetState
unfoldable pub pull : ShardKv → Bool → TransferArgs → PullReply
pull kv is_leader args =
    if not is_leader
    then refuse err_wrong_leader
    else if ltb args.config_version kv.curr_config.num
    then refuse err_config_version
    else if ltb kv.curr_config.num args.config_version
    then refuse err_config_version
    else elim (lookup args.shard_id kv.shards) [
      | none ↦ refuse err_config_version
      | some shard ↦ record { storage = shard.storage; err = Err.ok }
    ]

-- The Op that ShardKV.Leave starts; begin_request and finish_request are the rest of the handler.
unfoldable pub leave_op : ShardKv → TransferArgs → Op
leave_op kv args = internal_op (leave_shard args.shard_id kv.curr_config.num)

abbrev pub is_ok : Err → Bool
is_ok Err.ok = true
is_ok _ = false

abbrev pub is_config_version : Err → Bool
is_config_version err_config_version = true
is_config_version _ = false

-- for si := 0; si < len(servers); si++: the first reply that is OK, unless one of ErrConfigVersion
-- comes before it.
unfoldable pub try_servers : {R : Type 0} → (R → Err) → List Bytes → (Bytes → Option R) → Option R
try_servers err [] call = none
try_servers err (server ∷ servers) call =
    let rest = try_servers err servers call in
    elim (call server) [
      | none ↦ rest
      | some reply ↦
          if is_ok (err reply)
          then some reply
          else if is_config_version (err reply)
          then none
          else rest
    ]

-- kv.prevConfig.Groups[kv.prevConfig.Shards[shardId]], which panics for an id out of range
unfoldable pub old_servers : ShardKv → ℕ → Outcome (List Bytes)
old_servers kv shard_id = elim (get_elem? kv.prev_config.shards shard_id) [
  | none ↦ fatal
  | some gid ↦ elim (lookup gid kv.prev_config.groups) [ none ↦ ok [] | some servers ↦ ok servers ]
]

abbrev pub pull_shard_op : ℕ → ℕ → Option PullReply → Option Op
pull_shard_op shard_id version none = none
pull_shard_op shard_id version (some reply) =
    some (internal_op (pull_shard shard_id version reply.storage))

abbrev pub transfer_done_op : ℕ → ℕ → Option Err → Option Op
transfer_done_op shard_id version none = none
transfer_done_op shard_id version (some err) = some (internal_op (transfer_done shard_id version))

-- One round of the goroutine: whether it goes on, and the Op that it starts.
unfoldable pub pull_round :
    ShardKv → Bool → ℕ → ℕ → (Bytes → Option PullReply) → Outcome (Bool × Option Op)
pull_round kv is_leader shard_id version call =
    let ask = (do
      servers ← old_servers kv shard_id
      ok (true, pull_shard_op shard_id version (try_servers (λ r. r.err) servers call))) in
    if ltb version kv.curr_config.num then ok (false, none) else elim (lookup shard_id kv.shards) [
      | none ↦ fatal
      | some shard ↦
          if not (is_pulling shard.status)
          then ok (false, none)
          else if is_leader
          then ask
          else ok (true, none)
    ]

unfoldable pub leave_round :
    ShardKv → Bool → ℕ → ℕ → (Bytes → Option Err) → Outcome (Bool × Option Op)
leave_round kv is_leader shard_id version call =
    let ask = (do
      servers ← old_servers kv shard_id
      ok (true, transfer_done_op shard_id version (try_servers (λ e. e) servers call))) in
    if ltb version kv.curr_config.num then ok (false, none) else elim (lookup shard_id kv.shards) [
      | none ↦ fatal
      | some shard ↦
          if not (is_waiting shard.status)
          then ok (false, none)
          else if is_leader
          then ask
          else ok (true, none)
    ]

-- The goroutine leaves its loop.
pub data Ends (kv : ShardKv) : Task → Type 0 where
  pull_ends :
      (shard_id version : ℕ) (is_leader : Bool) (call : Bytes → Option PullReply) (op : Option Op)
      → pull_round kv is_leader shard_id version call ≡ ok (false, op)
      → Ends kv (pull_task shard_id version)
  leave_ends :
      (shard_id version : ℕ) (is_leader : Bool) (call : Bytes → Option Err) (op : Option Op)
      → leave_round kv is_leader shard_id version call ≡ ok (false, op)
      → Ends kv (leave_task shard_id version)

abbrev pub is_task : Task → Task → Bool
is_task (pull_task i v) (pull_task s w) = (i == s) && (v == w)
is_task (pull_task i v) (leave_task s w) = false
is_task (leave_task i v) (pull_task s w) = false
is_task (leave_task i v) (leave_task s w) = (i == s) && (v == w)

abbrev pub without_task : Task → List Task → List Task
without_task t [] = []
without_task t (u ∷ tasks) =
    let rest = without_task t tasks in if is_task t u then tasks else u ∷ rest

abbrev pub end_task : ShardKv → Task → ShardKv
end_task kv t = record kv { tasks = without_task t kv.tasks }

abbrev pub is_working : ShardStatus → Bool
is_working working = true
is_working pulling = false
is_working leaving = false
is_working waiting = false

-- readForNext
unfoldable pub all_working : Shards → Bool
all_working [] = true
all_working ((i, shard) ∷ shards) = if is_working shard.status then all_working shards else false

-- One round of fetchNextConfig: the Op that it starts. `query` is the Query of the shard controller's
-- client, at currVersion + 1.
unfoldable pub fetch_round : ShardKv → Bool → (ℕ → Config) → Outcome (Option Op)
fetch_round kv is_leader query =
    let latest = query (suc kv.curr_config.num) in
    let propose =
      (if ltb kv.curr_config.num latest.num
        then (if latest.num == suc kv.curr_config.num
            then ok (some (internal_op (update_config latest)))
            else fatal)
        else ok none) in
    if is_leader && all_working kv.shards then propose else ok none
