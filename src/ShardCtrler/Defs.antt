-- ===== src/ShardCtrler/Defs.antt =====
-- The data of src/shardctrler/server.go and common.go. Group ids are natural numbers, 0 the invalid
-- group; a server's name is its bytes.
use mit_distributed_system.Prelude.{ℕ, ℤ, List, [], replicate}
use mit_distributed_system.Gob.{Bytes}
use mit_distributed_system.Assoc.{Assoc}
use mit_distributed_system.Service.Requests.{Requests}
use mit_distributed_system.Service.WaitChs.{WaitChs}

abbrev pub n_shards : ℕ
n_shards = 10

-- gid -> servers[]
abbrev pub Groups : Type 0
Groups = Assoc ℕ (List Bytes)

-- `shards` has `n_shards` entries: the group of each shard.
pub record Config : Type 0 where
  pub num : ℕ
  pub shards : List ℕ
  pub groups : Groups

-- Op.Type with the arguments that go with it.
pub data Command : Type 0 where
  join : Groups → Command
  leave : List ℕ → Command
  move : ℤ → ℕ → Command
  query : ℤ → Command

pub record Op : Type 0 where
  pub command : Command
  pub client_id : ℕ
  pub request_id : ℤ

pub data Err : Type 0 where
  ok err_wrong_leader : Err

-- `configs` is the whole history, the first one first.
pub record WaitChResponse : Type 0 where
  pub err : Err
  pub config : Config

pub record ShardCtrler : Type 0 where
  pub me : ℕ
  pub configs : List Config
  pub wait_chs : WaitChs WaitChResponse
  pub latest_applied_request : Requests
  pub latest_applied_raft_index : ℕ

-- The zero value of Config, and configs[0].
abbrev pub empty_config : Config
empty_config = record { num = 0; shards = replicate n_shards 0; groups = [] }
