-- ===== src/KvRaft/Apply/Refinement.antt =====
-- What one committed operation does to the map that clients see.
use mit_distributed_system.Prelude.{
  ◌<ℤ◌, ◌≡◌, Bool, false, Option, none, some, List, [], ◌∷◌, ◌++◌, Option-cases, arith,
  if◌then◌else◌, ◌&&◌, inl, inr,
}
use mit_distributed_system.Gob.{Bytes}
use mit_distributed_system.Assoc.{lookup, lookup-put, bytes_key}
use mit_distributed_system.Service.Requests.{
  latest, note_request, note_request-fresh, note_request-repeated,
}
use mit_distributed_system.KvRaft.Defs.{OpType, get, append, Op, KvServer}
use mit_distributed_system.KvRaft.Apply.{write, apply_op}

-- The server after the operations of a log.
unfoldable pub apply_ops : KvServer → List Op → KvServer
apply_ops kv [] = kv
apply_ops kv (op ∷ ops) = apply_ops (apply_op kv op).0 ops

-- The map from keys to values that the storage stands for.
abbrev pub view : KvServer → Bytes → Option Bytes
view kv key = lookup key kv.storage

-- The value that a new request leaves under its own key.
abbrev pub written : Op → OpType → Option Bytes → Option Bytes
written op get old = old
written op OpType.put old = some op.value
written op append none = some op.value
written op append (some old) = some (old ++ op.value)

abbrev pub is_new : KvServer → Op → Bool
is_new kv op = latest op.client_id kv.latest_applied_request <ℤ op.request_id

write-view :
    (op : Op) (type : OpType) (storage : List (Bytes × Bytes)) (key : Bytes)
    → lookup key (write op type storage) ≡ (
        if bytes_key.beq op.key key
        then written op type (lookup op.key storage)
        else lookup key storage)
unfolding write
write-view op get storage key = ground (arith, bytes_key.beq_iff op.key key)
write-view op OpType.put storage key = lookup-put op.key key op.value storage
write-view op append storage key = elim (Option-cases (lookup op.key storage)) [
  | inl gone ↦ ground (arith, lookup-put op.key key op.value storage)
  | inr (old, there) ↦ ground (arith, lookup-put op.key key (old ++ op.value) storage)
]

pub not_new_again : (kv : KvServer) (op : Op) → is_new (apply_op kv op).0 op ≡ false
unfolding apply_op
not_new_again kv op = ground (
  arith,
  note_request-fresh op.client_id op.request_id
      (note_request op.client_id op.request_id kv.latest_applied_request).0,
  note_request-repeated op.client_id op.request_id kv.latest_applied_request,
)

-- A committed operation changes only its own key, only if the request is new to its client, and then
-- as a map would change: a put stores the value, an append appends to the old value or stores it,
-- and a get changes nothing.
pub apply_op-view :
    (kv : KvServer) (op : Op) (key : Bytes)
    → view (apply_op kv op).0 key ≡ (
        if is_new kv op && bytes_key.beq op.key key
        then written op op.type (view kv op.key)
        else view kv key)
unfolding apply_op
apply_op-view kv op key = ground (
  arith,
  note_request-fresh op.client_id op.request_id kv.latest_applied_request,
  write-view op op.type kv.storage key,
)

-- Exactly once: when an operation is committed a second time, the map does not change.
pub apply_op-repeated :
    (kv : KvServer) (op : Op) (key : Bytes)
    → view (apply_op (apply_op kv op).0 op).0 key ≡ view (apply_op kv op).0 key
apply_op-repeated kv op key =
    ground (arith, apply_op-view (apply_op kv op).0 op key, not_new_again kv op)
