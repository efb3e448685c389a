-- ===== src/ShardKv/Apply.antt =====
-- applyLoop of src/shardkv/server.go, its snapshots, and the client handlers. Raft is seen through the
-- messages of its apply channel and the results of Start and RaftStateSize, which are arguments.
pub mod Serve
pub mod Statuses
pub mod Moves
pub mod Moving
pub mod Configs
use mit_distributed_system.Prelude.{
  ℕ, zero, suc, ℤ, pos, negsuc, minus_one, ◌==ℤ◌, ◌<ℤ◌, Bool, true, false, not, ◌&&◌, ◌||◌, Option,
  none, some, List, [], ◌∷◌, ◌++◌, leb, ltb, ◌==◌, if◌then◌else◌, length, get_elem?, Outcome, ok,
  fatal, ◌>>=◌,
}
use mit_distributed_system.Gob.{Bytes, Coder}
use mit_distributed_system.Assoc.{Assoc, lookup, put, remove, bytes_key, nat_key}
use mit_distributed_system.Service.Requests.{Requests, note_request}
use mit_distributed_system.Service.WaitChs.{open_ch, send, receive, close_ch}
use mit_distributed_system.Raft.State.{ApplyMsg, command_msg, snapshot_msg}
use mit_distributed_system.ShardCtrler.Defs.{Config, empty_config}
use mit_distributed_system.ShardKv.Keys.{key2shard}
use mit_distributed_system.ShardKv.Defs.{
  ShardStatus, working, pulling, leaving, waiting, Shard, Shards, Command, get, append,
  update_config, pull_shard, leave_shard, transfer_done, Op, Err, unset, err_no_key,
  err_wrong_group, err_wrong_leader, err_config_version, WaitChResponse, Task, pull_task,
  leave_task, ShardKv,
}

abbrev pub answer : Err → Bytes → WaitChResponse
answer err value = record { err = err; value = value }

abbrev pub is_serving : ShardStatus → Bool
is_serving working = true
is_serving waiting = true
is_serving pulling = false
is_serving leaving = false

-- The shard of a key, if it exists and is WORKING or WAITING.
unfoldable pub serving : Bytes → Shards → Option Shard
serving key shards = elim (lookup (key2shard key) shards) [
  | none ↦ none
  | some shard ↦ if is_serving shard.status then some shard else none
]

-- What the storage holds for a key after an append.
abbrev pub appended : Option Bytes → Bytes → Bytes
appended none value = value
appended (some old) value = old ++ value

abbrev pub read_answer : Option Bytes → WaitChResponse
read_answer none = answer err_no_key []
read_answer (some value) = answer Err.ok value

-- A client's request, whose write is `change` of the storage if the request is new. The response is
-- made from the storage by then.
unfoldable pub client_request :
    ShardKv
    → Op
    → Bytes
    → (Assoc Bytes Bytes → Assoc Bytes Bytes)
    → (Assoc Bytes Bytes → WaitChResponse)
    → ShardKv × WaitChResponse
client_request kv op key change respond =
    let (requests, fresh) = note_request op.client_id op.request_id kv.latest_applied_request in
    elim (serving key kv.shards) [
      | none ↦ (kv, answer err_wrong_group [])
      | some shard ↦
          let storage = if fresh then change shard.storage else shard.storage in
          (
            record kv {
              latest_applied_request = requests;
              shards = put (key2shard key) (record shard { storage = storage }) kv.shards;
            },
            respond storage,
          )
    ]

-- for shardId, gid := range op.Config.Shards, from the index `i` on, in the first configuration
unfoldable pub create_shards : ℕ → ℕ → List ℕ → Shards → Shards
create_shards me i [] shards = shards
create_shards me i (gid ∷ owners) shards =
    create_shards me (suc i) owners
      (if gid == me then put i (record { storage = []; status = working }) shards else shards)

abbrev pub is_none : {A : Type 0} → Option A → Bool
is_none none = true
is_none (some a) = false

-- The same in a later one: a shard that is mine and does not exist is to be pulled.
unfoldable pub add_pulling : ℕ → ℕ → List ℕ → Shards → Shards
add_pulling me i [] shards = shards
add_pulling me i (gid ∷ owners) shards = add_pulling me (suc i) owners (
    if gid == me && is_none (lookup i shards)
    then put i (record { storage = []; status = pulling }) shards
    else shards)

-- go kv.pullShard(shardId, kv.currConfig.Num), for these shards
unfoldable pub pull_tasks : ℕ → ℕ → ℕ → List ℕ → Shards → List Task
pull_tasks me version i [] shards = []
pull_tasks me version i (gid ∷ owners) shards =
    let rest = pull_tasks me version (suc i) owners shards in
    if gid == me && is_none (lookup i shards) then pull_task i version ∷ rest else rest

abbrev pub is_owner : ℕ → Option ℕ → Bool
is_owner me none = false
is_owner me (some gid) = gid == me

-- op.Config.Shards[shardId] == kv.gid
abbrev pub is_mine : ℕ → Config → ℕ → Bool
is_mine me config shard = is_owner me (get_elem? config.shards shard)

-- for shardId, _ := range kv.shards
unfoldable pub mark_leaving : ℕ → Config → Shards → Shards
mark_leaving me config [] = []
mark_leaving me config ((i, shard) ∷ shards) =
    (i, if is_mine me config i then shard else record shard { status = leaving })
    ∷ mark_leaving me config shards

-- Shards[shardId] panics out of range.
unfoldable pub ids_in_range : ℕ → Shards → Bool
ids_in_range n [] = true
ids_in_range n ((i, shard) ∷ shards) = if ltb i n then ids_in_range n shards else false

unfoldable pub change_config : ShardKv → Config → Outcome ShardKv
change_config kv config =
    let next = record kv { prev_config = kv.curr_config; curr_config = config } in
    let pulled = add_pulling kv.gid 0 config.shards kv.shards in
    let later = record next {
      shards = mark_leaving kv.gid config pulled;
      tasks = kv.tasks ++ pull_tasks kv.gid config.num 0 config.shards kv.shards;
    } in
    if not (config.num == suc kv.curr_config.num)
    then ok kv
    else if config.num == 1
    then ok (record next { shards = create_shards kv.gid 0 config.shards kv.shards })
    else if ids_in_range (length config.shards) pulled
    then ok later
    else fatal

abbrev pub is_pulling : ShardStatus → Bool
is_pulling pulling = true
is_pulling working = false
is_pulling leaving = false
is_pulling waiting = false

abbrev pub is_waiting : ShardStatus → Bool
is_waiting waiting = true
is_waiting working = false
is_waiting pulling = false
is_waiting leaving = false

-- PULL_SHARD: a read of Status of a shard that does not exist is a nil dereference.
unfoldable pub take_over : ShardKv → ℕ → ℕ → Assoc Bytes Bytes → Outcome ShardKv
take_over kv shard_id version storage =
    if kv.curr_config.num == version
    then elim (lookup shard_id kv.shards) [
      | none ↦ fatal
      | some shard ↦
          if is_pulling shard.status
          then ok (record kv {
            shards = put shard_id (record { storage = storage; status = waiting }) kv.shards;
            tasks = kv.tasks ++ leave_task shard_id kv.curr_config.num ∷ [];
          })
          else ok kv
    ]
    else ok kv

-- LEAVE_SHARD
unfoldable pub give_up : ShardKv → ℕ → ℕ → ShardKv × Err
give_up kv shard_id version =
    if kv.curr_config.num == version
    then (record kv { shards = remove shard_id kv.shards }, Err.ok)
    else if ltb version kv.curr_config.num
    then (kv, Err.ok)
    else (kv, err_config_version)

-- TRANSFER_DONE
unfoldable pub confirm : ShardKv → ℕ → ℕ → Outcome ShardKv
confirm kv shard_id version =
    if kv.curr_config.num == version
    then elim (lookup shard_id kv.shards) [
      | none ↦ fatal
      | some shard ↦
          if is_waiting shard.status
          then ok
              (record kv { shards = put shard_id (record shard { status = working }) kv.shards })
          else ok kv
    ]
    else ok kv

-- The switch on op.Type.
unfoldable pub apply_command : ShardKv → Op → Command → Outcome (ShardKv × WaitChResponse)
apply_command kv op (get key) =
    ok (client_request kv op key (λ s. s) (λ s. read_answer (lookup key s)))
apply_command kv op (Command.put key value) =
    ok (client_request kv op key (put key value) (λ s. answer Err.ok []))
apply_command kv op (append key value) = ok (
    client_request kv op key (λ s. put key (appended (lookup key s) value) s)
      (λ s. answer Err.ok []))
apply_command kv op (update_config config) = do
  next ← change_config kv config
  ok (next, answer unset [])
apply_command kv op (pull_shard shard_id version storage) = do
  next ← take_over kv shard_id version storage
  ok (next, answer unset [])
apply_command kv op (leave_shard shard_id version) =
    let (next, err) = give_up kv shard_id version in ok (next, answer err [])
apply_command kv op (transfer_done shard_id version) = do
  next ← confirm kv shard_id version
  ok (next, answer unset [])

abbrev pub apply_op : ShardKv → Op → Outcome (ShardKv × WaitChResponse)
apply_op kv op = apply_command kv op op.command
