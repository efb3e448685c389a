-- ===== src/KvRaft/Defs.antt =====
-- The data of src/kvraft/server.go and src/kvraft/common.go. A string is its bytes.
use mit_distributed_system.Prelude.{ℕ, ℤ, Bool}
use mit_distributed_system.Gob.{Bytes}
use mit_distributed_system.Assoc.{Assoc}
use mit_distributed_system.Service.Requests.{Requests}
use mit_distributed_system.Service.WaitChs.{WaitChs}

pub data OpType : Type 0 where
  get put append : OpType

pub record Op : Type 0 where
  pub type : OpType
  pub key : Bytes
  pub value : Bytes
  pub client_id : ℕ
  pub request_id : ℤ

pub data Err : Type 0 where
  ok err_no_key err_wrong_leader : Err

pub record WaitChResponse : Type 0 where
  pub op : Op
  pub err : Err
  pub value : Bytes

pub record KvServer : Type 0 where
  pub me : ℕ
  pub dead : Bool
  pub max_raft_state : ℤ
  pub storage : Assoc Bytes Bytes
  pub wait_chs : WaitChs WaitChResponse
  pub latest_applied_request : Requests
  pub latest_applied_raft_index : ℕ
