-- ===== src/KvRaft/Model/Accepted.antt =====
-- The committed operations of a KVServer (src/kvraft/server.go) as histories of the specification.
use mit_distributed_system.Prelude.{
  ℕ, ◌≡◌, refl, Bool, true, false, ◌&&◌, ◌||◌, Option, none, some, List, [], ◌∷◌, arith,
  if◌then◌else◌, inl, inr, Bool-cases, Option-cases,
}
use mit_distributed_system.Gob.{Bytes}
use mit_distributed_system.Assoc.{lookup, bytes_beq, bytes_beq_iff, bytes_key}
use mit_distributed_system.KvRaft.Defs.{OpType, get, put, append, Op, WaitChResponse, KvServer}
use mit_distributed_system.KvRaft.Apply.{apply_op, write}
use mit_distributed_system.KvRaft.Apply.Refinement.{apply_ops, view, is_new, apply_op-view}
use mit_distributed_system.KvRaft.Clerk.{get_result}
use mit_distributed_system.KvRaft.Model.{KvInput, KvOutput, step}

abbrev pub or_empty : Option Bytes → Bytes
or_empty none = []
or_empty (some value) = value

-- The value of a key that a client sees.
abbrev pub value_of : KvServer → Bytes → Bytes
value_of kv key = or_empty (view kv key)

abbrev pub op_number : OpType → ℕ
op_number get = 0
op_number put = 1
op_number append = 2

abbrev pub is_get : OpType → Bool
is_get get = true
is_get put = false
is_get append = false

-- The operation as an input, and the server's answer as an output: what the client's Get returns.
abbrev pub input_of : Op → KvInput
input_of op = record { op = op_number op.type; key = op.key; value = op.value }

abbrev pub output_of : WaitChResponse → KvOutput
output_of answer = record {
  value = or_empty (get_result (some (record { err = answer.err; value = answer.value })));
}

-- The operations on a key, with their answers: every get, and each put and append that is new to its
-- client.
unfoldable pub history : KvServer → Bytes → List Op → List (KvInput × KvOutput)
history kv key [] = []
history kv key (op ∷ ops) =
    let rest = history (apply_op kv op).0 key ops in
    if bytes_beq op.key key && (is_get op.type || is_new kv op)
    then (input_of op, output_of (apply_op kv op).1) ∷ rest
    else rest

-- The state behind a history that the specification accepts from a state.
unfoldable pub accepts : Bytes → List (KvInput × KvOutput) → Option Bytes
accepts state [] = some state
accepts state ((input, output) ∷ events) =
    let rest = accepts (step state input output).1 events in
    if (step state input output).0 then rest else none

module _ (kv : KvServer) (op : Op) where
  value_of-get :
      op.type ≡ get → output_of (apply_op kv op).1 ≡ record { value = value_of kv op.key }
  unfolding apply_op write get_result
  value_of-get e = ground (arith, Option-cases (lookup op.key kv.storage))

  step-apply_op :
      (type : OpType)
      → op.type ≡ type
      → (is_get type || is_new kv op) ≡ true
      → step (value_of kv op.key) (input_of op) (output_of (apply_op kv op).1)
        ≡ (true, value_of (apply_op kv op).0 op.key)
  unfolding step
  step-apply_op get e counted = ground (
    arith,
    value_of-get e,
    apply_op-view kv op op.key,
    bytes_beq_iff op.key op.key,
    bytes_beq_iff (value_of kv op.key) (value_of kv op.key),
  )
  step-apply_op put e counted =
      ground (arith, apply_op-view kv op op.key, bytes_beq_iff op.key op.key)
  step-apply_op append e counted =
      ground (arith, apply_op-view kv op op.key, bytes_beq_iff op.key op.key)

  view_elsewhere :
      (key : Bytes)
      → (bytes_beq op.key key && (is_get op.type || is_new kv op)) ≡ false
      → view (apply_op kv op).0 key ≡ view kv key
  view_elsewhere key e = ground (arith, apply_op-view kv op key)

-- Whatever operations are committed, for each key the sequence of all gets, and of the puts and appends
-- that are new to their clients, each with the answer that the server gives, is a history that KvModel
-- accepts from the value of the key before, and it ends in the value of the key after them.
pub accepts-history :
    (kv : KvServer) (key : Bytes) (ops : List Op)
    → accepts (value_of kv key) (history kv key ops) ≡ some (value_of (apply_ops kv ops) key)
unfolding accepts history apply_ops
accepts-history kv key [] = refl
accepts-history kv key (op ∷ ops) =
    let rest = accepts-history (apply_op kv op).0 key ops in
    elim (Bool-cases (bytes_beq op.key key && (is_get op.type || is_new kv op))) [
      | inl counts ↦
          ground (arith, rest, step-apply_op kv op op.type refl, bytes_beq_iff op.key key)
      | inr skipped ↦ ground (arith, rest, view_elsewhere kv op key skipped)
    ]
