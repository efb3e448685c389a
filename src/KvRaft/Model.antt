-- ===== src/KvRaft/Model.antt =====
-- KvModel of src/models/kv.go: the specification of one key's value that the tests check histories against.
pub mod Accepted
use mit_distributed_system.Prelude.{
  ℕ, Bool, true, false, Option, none, some, List, [], ◌∷◌, ◌++◌, ◌==◌, if◌then◌else◌,
}
use mit_distributed_system.Gob.{Bytes}
use mit_distributed_system.Assoc.{bytes_beq}

-- `op` is 0 for a get, 1 for a put, 2 for an append.
pub record KvInput : Type 0 where
  pub op : ℕ
  pub key : Bytes
  pub value : Bytes

pub record KvOutput : Type 0 where
  pub value : Bytes

abbrev pub init : Bytes
init = []

-- Whether the output fits the state and the input, and the next state.
unfoldable pub step : Bytes → KvInput → KvOutput → Bool × Bytes
step state input output =
    if input.op == 0
    then (bytes_beq output.value state, state)
    else if input.op == 1
    then (true, input.value)
    else (true, state ++ input.value)
