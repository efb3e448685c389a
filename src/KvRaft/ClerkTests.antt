-- ===== src/KvRaft/ClerkTests.antt =====
-- The theorems about the client and the specification of the key/value service at concrete values.
use mit_distributed_system.Prelude.{
  ℕ, pos, minus_one, ◌≡◌, refl, false, none, some, List, [], ◌∷◌, arith, ◌==◌, if◌then◌else◌, ◌≤◌,
  ltb,
}
use mit_distributed_system.Gob.{Bytes}
use mit_distributed_system.Assoc.{lookup, put, bytes_beq}
use mit_distributed_system.Service.Calls.{Calls, ended}
use mit_distributed_system.Service.Requests.{note_request, latest, ensure}
use mit_distributed_system.KvRaft.Defs.{OpType, append, Op, Err, err_wrong_leader, KvServer}
use mit_distributed_system.KvRaft.Apply.{apply_op, write}
use mit_distributed_system.KvRaft.Clerk.{
  GetArgs, GetReply, get_args, get_result, get, make_clerk, finish, retry, increment_last_leader,
}
use mit_distributed_system.KvRaft.Clerk.Retry.{Finished, get-Finished}
use mit_distributed_system.KvRaft.Apply.Refinement.{view, apply_ops}
use mit_distributed_system.KvRaft.Apply.Once.{apply_ops-once}
use mit_distributed_system.KvRaft.Model.Accepted.{value_of, history, accepts, accepts-history}

-- Of three servers the second one leads, from the call number 4 on; it answers with the value 20.
abbrev late_leader : GetArgs → Calls GetReply
late_leader args t s =
    if s == 1
    then (if ltb t 4
        then some (record { err = err_wrong_leader; value = [] })
        else some (record { err = Err.ok; value = 20 ∷ [] }))
    else none

late_leader_answers :
    (args : GetArgs) (t : ℕ) → 4 ≤ t → get_result (late_leader args t 1) ≡ none → ⊥
unfolding get_result
late_leader_answers args t late e = ground arith

get-Finished_example :
    Finished
      (λ t s. get_result (late_leader (get_args (make_clerk 3 7) (1 ∷ [])) t s))
      0
      (make_clerk 3 7)
      (get late_leader 7 0 (make_clerk 3 7) (1 ∷ []))
unfolding make_clerk
get-Finished_example =
    get-Finished late_leader (make_clerk 3 7) (1 ∷ []) 0 4 1 (omega arith) (omega arith)
      (late_leader_answers (get_args (make_clerk 3 7) (1 ∷ [])))

get_from_late_leader :
    get late_leader 7 0 (make_clerk 3 7) (1 ∷ [])
    ≡ ended (record { servers = 3; last_leader = 1; client_id = 7; request_id = 1 }, 20 ∷ [])
unfolding get make_clerk get_result finish retry increment_last_leader
get_from_late_leader = refl

abbrev empty_server : KvServer
empty_server = record {
  me = 0;
  dead = false;
  max_raft_state = minus_one;
  storage = [];
  wait_chs = [];
  latest_applied_request = [];
  latest_applied_raft_index = 0;
}

abbrev request : ℕ → OpType → Bytes → Op
request n type value = record {
  type = type;
  key = 1 ∷ [];
  value = value;
  client_id = 7;
  request_id = pos n;
}

-- A put, an append that is committed twice, and a get.
abbrev log : List Op
log =
    request 0 OpType.put (20 ∷ [])
    ∷ request 1 append (21 ∷ [])
    ∷ request 1 append (21 ∷ [])
    ∷ request 2 OpType.get []
    ∷ []

accepts-history_example :
    accepts [] (history empty_server (1 ∷ []) log)
    ≡ some (value_of (apply_ops empty_server log) (1 ∷ []))
unfolding lookup
accepts-history_example = accepts-history empty_server (1 ∷ []) log

log_value : value_of (apply_ops empty_server log) (1 ∷ []) ≡ 20 ∷ 21 ∷ []
unfolding apply_ops apply_op write lookup put bytes_beq note_request latest ensure
log_value = refl

apply_ops-once_example :
    view
      (apply_ops empty_server (
        request 0 OpType.put (20 ∷ [])
        ∷ request 1 append (21 ∷ [])
        ∷ request 0 OpType.put (20 ∷ [])
        ∷ []))
      (1 ∷ [])
    ≡ view
        (apply_ops empty_server (request 0 OpType.put (20 ∷ []) ∷ request 1 append (21 ∷ []) ∷ []))
        (1 ∷ [])
apply_ops-once_example =
    apply_ops-once empty_server (request 0 OpType.put (20 ∷ [])) (request 1 append (21 ∷ []) ∷ [])
      [] (1 ∷ [])
