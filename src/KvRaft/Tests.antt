-- ===== src/KvRaft/Tests.antt =====
-- The theorems about a KVServer at concrete states.
use mit_distributed_system.Prelude.{
  ℕ, pos, minus_one, ◌≡◌, refl, true, false, Option, some, List, [], ◌∷◌, ok, arith,
}
use mit_distributed_system.Gob.Samples.{int_coder, nat_coder, list_coder, pair_coder}
use mit_distributed_system.Assoc.{lookup, put, bytes_beq}
use mit_distributed_system.Service.Requests.{note_request, latest, ensure}
use mit_distributed_system.Service.WaitChs.{send}
use mit_distributed_system.Raft.State.{command_msg, snapshot_msg}
use mit_distributed_system.KvRaft.Defs.{append, Op, KvServer}
use mit_distributed_system.KvRaft.Apply.{
  Codec, write, apply_op, apply_command, apply_message, apply_all, serialize, begin_request,
  finish_request, deserialize,
}
use mit_distributed_system.KvRaft.Apply.Refinement.{view, apply_op-view}
use mit_distributed_system.KvRaft.Apply.Reply.{finish_request-apply_message}
use mit_distributed_system.KvRaft.Apply.Replay.{
  SameService, deserialize-serialize, snapshot_catches_up,
}

abbrev codec : Codec
codec = record {
  ints = int_coder;
  storages = list_coder (pair_coder (list_coder nat_coder) (list_coder nat_coder));
  requests = list_coder (pair_coder nat_coder int_coder);
}

-- A server that never takes a snapshot, at index 3, where client 7 has put 20 under the key 1.
abbrev server : KvServer
server = record {
  me = 0;
  dead = false;
  max_raft_state = minus_one;
  storage = (1 ∷ [], 20 ∷ []) ∷ [];
  wait_chs = [];
  latest_applied_request = (7, pos 4) ∷ [];
  latest_applied_raft_index = 3;
}

abbrev behind : KvServer
behind = record server { storage = []; latest_applied_request = []; latest_applied_raft_index = 1 }

abbrev appending : Op
appending = record {
  type = append;
  key = 1 ∷ [];
  value = 21 ∷ [];
  client_id = 7;
  request_id = pos 5;
}

apply_op-view_example : view (apply_op server appending).0 (1 ∷ []) ≡ some (20 ∷ 21 ∷ [])
unfolding lookup latest bytes_beq
apply_op-view_example = apply_op-view server appending (1 ∷ [])

abbrev advanced : KvServer
advanced = record server {
  storage = (1 ∷ [], 20 ∷ 21 ∷ []) ∷ [];
  latest_applied_request = (7, pos 5) ∷ [];
  latest_applied_raft_index = 4;
}

server_advances : apply_all codec server (command_msg (some appending) 4 ∷ []) 0 ≡ ok advanced
unfolding apply_all apply_message apply_command apply_op write note_request latest ensure lookup put
    bytes_beq send
server_advances = refl

snapshot_catches_up_example :
    (b' : KvServer) × (apply_all codec behind
        (snapshot_msg (serialize codec server) 1 3 ∷ command_msg (some appending) 4 ∷ [])
        0
      ≡ ok b')
    × SameService advanced b'
snapshot_catches_up_example =
    snapshot_catches_up codec server behind advanced (command_msg (some appending) 4 ∷ []) 1 3 0 0
      refl (omega arith) server_advances

-- Whatever request made the handler wait at index 4.
finish_request-apply_message_example :
    (waiting : KvServer) × (begin_request server true (4, true) ≡ ok (waiting, some 4))
    × (after : KvServer) × (snapshot : Option (List ℕ)) × (apply_message codec waiting
          (command_msg (some appending) 4)
          0
        ≡ ok (after, snapshot))
    × ((finish_request after false 4).1 ≡ (apply_op server appending).1.err)
    × ((finish_request after false 4).2 ≡ (apply_op server appending).1.value)
unfolding lookup
finish_request-apply_message_example =
    finish_request-apply_message codec server appending 4 0 refl (omega arith)

deserialize-serialize_example : deserialize codec behind (serialize codec server) ≡ record behind {
  latest_applied_raft_index = 3;
  storage = server.storage;
  latest_applied_request = server.latest_applied_request;
}
deserialize-serialize_example = deserialize-serialize codec server behind
