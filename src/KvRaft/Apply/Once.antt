-- ===== src/KvRaft/Apply/Once.antt =====
-- A request that src/kvraft/client.go sends again is applied once by src/kvraft/server.go, however late it
-- is committed again.
use mit_distributed_system.Prelude.{
  ℕ, ℤ, pos, negsuc, ◌<ℤ◌, ◌≡◌, true, false, List, [], ◌∷◌, ◌++◌, arith, if◌then◌else◌, ◌==◌,
  ==_iff,
}
use mit_distributed_system.Gob.{Bytes}
use mit_distributed_system.Assoc.{bytes_key}
use mit_distributed_system.Service.Requests.{latest, latest-note_request}
use mit_distributed_system.KvRaft.Defs.{Op, KvServer}
use mit_distributed_system.KvRaft.Apply.{apply_op}
use mit_distributed_system.KvRaft.Apply.Refinement.{
  view, is_new, apply_ops, apply_op-view, not_new_again,
}

abbrev latest_of : KvServer → ℕ → ℤ
latest_of kv client = latest client kv.latest_applied_request

-- Two servers that clients cannot tell apart.
record Alike (a b : KvServer) : Type 0 where
  pub views : (key : Bytes) → view a key ≡ view b key
  pub latests : (client : ℕ) → latest_of a client ≡ latest_of b client

apply_op-latest :
    (kv : KvServer) (op : Op) (client : ℕ)
    → latest_of (apply_op kv op).0 client ≡ (
        if is_new kv op
        then (if op.client_id == client then op.request_id else latest_of kv client)
        else latest_of kv client)
unfolding apply_op
apply_op-latest kv op client =
    latest-note_request op.client_id client op.request_id kv.latest_applied_request

-- A request that is not new changes nothing that clients see.
apply_op-Alike : (kv : KvServer) (op : Op) → is_new kv op ≡ false → Alike (apply_op kv op).0 kv
apply_op-Alike kv op old = record {
  views = λ key. ground (arith, apply_op-view kv op key);
  latests = λ client. ground (arith, apply_op-latest kv op client);
}

Alike-apply_op : (a b : KvServer) (op : Op) → Alike a b → Alike (apply_op a op).0 (apply_op b op).0
Alike-apply_op a b op same = record {
  views = λ key. ground (
    arith,
    apply_op-view a op key,
    apply_op-view b op key,
    same.views key,
    same.views op.key,
    same.latests op.client_id,
  );
  latests = λ client. ground (
    arith,
    apply_op-latest a op client,
    apply_op-latest b op client,
    same.latests client,
    same.latests op.client_id,
  );
}

Alike-apply_ops :
    (a b : KvServer) (ops : List Op) (key : Bytes)
    → Alike a b
    → view (apply_ops a ops) key ≡ view (apply_ops b ops) key
unfolding apply_ops
Alike-apply_ops a b [] key same = same.views key
Alike-apply_ops a b (op ∷ ops) key same =
    Alike-apply_ops (apply_op a op).0 (apply_op b op).0 ops key (Alike-apply_op a b op same)

<ℤ_later : (a b c : ℤ) → (a <ℤ b) ≡ false → (a <ℤ c) ≡ true → (c <ℤ b) ≡ false
<ℤ_later (pos a) (pos b) (pos c) h g = ground arith
<ℤ_later (pos a) (pos b) (negsuc c) h g = ground arith
<ℤ_later (pos a) (negsuc b) (pos c) h g = ground arith
<ℤ_later (pos a) (negsuc b) (negsuc c) h g = ground arith
<ℤ_later (negsuc a) (pos b) (pos c) h g = ground arith
<ℤ_later (negsuc a) (pos b) (negsuc c) h g = ground arith
<ℤ_later (negsuc a) (negsuc b) (pos c) h g = ground arith
<ℤ_later (negsuc a) (negsuc b) (negsuc c) h g = ground arith

-- What is not new stays so.
old_stays :
    (kv : KvServer) (op other : Op) → is_new kv op ≡ false → is_new (apply_op kv other).0 op ≡ false
old_stays kv op other old = ground (
  arith,
  apply_op-latest kv other op.client_id,
  ==_iff other.client_id op.client_id,
  <ℤ_later (latest_of kv op.client_id) op.request_id other.request_id old,
)

-- A request that is not new can be left out, wherever it is committed.
old_dropped :
    (kv : KvServer) (op : Op) (between rest : List Op) (key : Bytes)
    → is_new kv op ≡ false
    → view (apply_ops kv (between ++ op ∷ rest)) key ≡ view (apply_ops kv (between ++ rest)) key
unfolding apply_ops
old_dropped kv op [] rest key old =
    Alike-apply_ops (apply_op kv op).0 kv rest key (apply_op-Alike kv op old)
old_dropped kv op (other ∷ between) rest key old =
    old_dropped (apply_op kv other).0 op between rest key (old_stays kv op other old)

-- Exactly once: when an operation has been committed, it can be committed again at any later place of the
-- log, and the map that clients see at the end is the one without the repetition.
pub apply_ops-once :
    (kv : KvServer) (op : Op) (between rest : List Op) (key : Bytes)
    → view (apply_ops kv (op ∷ between ++ op ∷ rest)) key
      ≡ view (apply_ops kv (op ∷ between ++ rest)) key
unfolding apply_ops
apply_ops-once kv op between rest key =
    old_dropped (apply_op kv op).0 op between rest key (not_new_again kv op)
