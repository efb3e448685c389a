-- ===== src/ShardKv/Defs.antt =====
-- The data of src/shardkv/server.go, common.go and server_shard_transfer.go.
use mit_distributed_system.Prelude.{ℕ, ℤ, List}
use mit_distributed_system.Gob.{Bytes}
use mit_distributed_system.Assoc.{Assoc}
use mit_distributed_system.Service.Requests.{Requests}
use mit_distributed_system.Service.WaitChs.{WaitChs}
use mit_distributed_system.ShardCtrler.Defs.{Config}

pub data ShardStatus : Type 0 where
  working pulling leaving waiting : ShardStatus

-- A nil map, which a pulling shard has, is the empty one: it reads like it, and is not written.
pub record Shard : Type 0 where
  pub storage : Assoc Bytes Bytes
  pub status : ShardStatus

abbrev pub Shards : Type 0
Shards = Assoc ℕ Shard

-- Op.Type with the fields that go with it: a shard's id and the config version, in this order.
pub data Command : Type 0 where
  get : Bytes → Command
  put append : Bytes → Bytes → Command
  update_config : Config → Command
  pull_shard : ℕ → ℕ → Assoc Bytes Bytes → Command
  leave_shard transfer_done : ℕ → ℕ → Command

pub record Op : Type 0 where
  pub command : Command
  pub client_id : ℕ
  pub request_id : ℤ

-- `unset` is the zero value, the empty string.
pub data Err : Type 0 where
  unset ok err_no_key err_wrong_group err_wrong_leader err_config_version : Err

pub record WaitChResponse : Type 0 where
  pub err : Err
  pub value : Bytes

-- A goroutine of pullShard or sendLeave, with its shard and config version.
pub data Task : Type 0 where
  pull_task leave_task : ℕ → ℕ → Task

-- `tasks` are the goroutines of pullShard and sendLeave that run.
pub record ShardKv : Type 0 where
  pub me : ℕ
  pub gid : ℕ
  pub max_raft_state : ℤ
  pub shards : Shards
  pub prev_config : Config
  pub curr_config : Config
  pub wait_chs : WaitChs WaitChResponse
  pub latest_applied_request : Requests
  pub latest_applied_raft_index : ℕ
  pub tasks : List Task

-- PullArgs and LeaveArgs
pub record TransferArgs : Type 0 where
  pub config_version : ℕ
  pub shard_id : ℕ

pub record PullReply : Type 0 where
  pub storage : Assoc Bytes Bytes
  pub err : Err
