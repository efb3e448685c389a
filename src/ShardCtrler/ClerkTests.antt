-- ===== src/ShardCtrler/ClerkTests.antt =====
-- The theorems about the client of the shard controller at concrete values.
use mit_distributed_system.Prelude.{pos, ◌≡◌, refl, none, [], ◌∷◌, ok, arith}
use mit_distributed_system.Service.Calls.{Calls, ended}
use mit_distributed_system.Service.Requests.{note_request, latest, ensure}
use mit_distributed_system.Assoc.{lookup, put}
use mit_distributed_system.ShardCtrler.Defs.{
  Config, empty_config, Command, join, Op, Err, WaitChResponse, ShardCtrler,
}
use mit_distributed_system.ShardCtrler.Apply.{
  start_server, apply_op, additions, new_config, answer_config, query_config, last_config,
  config_at,
}
use mit_distributed_system.ShardCtrler.Clerk.{Clerk, QueryReply, make_clerk, request, query}
use mit_distributed_system.ShardCtrler.Clerk.Query.{Given, query-Given}
use mit_distributed_system.ShardCtrler.Clerk.Change.{change-query_lost}

-- A network that loses everything.
abbrev silent : Op → Calls QueryReply
silent args t s = none

query-Given_example :
    (found : Clerk × Config) × (query silent 0 (make_clerk 3 7) (pos 0) ≡ ended found)
    × Given (silent (request (make_clerk 3 7) (Command.query (pos 0)))) (make_clerk 3 7) 5 0 found
unfolding make_clerk
query-Given_example = query-Given silent 0 (make_clerk 3 7) (pos 0) (omega arith)

-- The controller after that query.
abbrev queried : ShardCtrler × WaitChResponse
queried = (
  record {
    me = 0;
    configs = empty_config ∷ [];
    wait_chs = [];
    latest_applied_request = (7, pos 0) ∷ [];
    latest_applied_raft_index = 0;
  },
  record { err = Err.ok; config = empty_config },
)

is_queried :
    apply_op (start_server 0) (request (make_clerk 3 7) (Command.query (pos 0))) ≡ ok queried
unfolding apply_op start_server make_clerk additions new_config answer_config query_config
    last_config config_at note_request latest ensure lookup put
is_queried = refl

change-query_lost_example :
    (ck' : Clerk) × (query silent 0 (make_clerk 3 7) (pos 0) ≡ ended (ck', empty_config))
    × (last : ShardCtrler × WaitChResponse) × (apply_op queried.0
          (request ck' (join ((1, []) ∷ [])))
        ≡ ok last)
    × (last.0.configs ≡ empty_config ∷ [])
    × (last.1.err ≡ Err.ok)
unfolding make_clerk
change-query_lost_example =
    change-query_lost silent 0 (make_clerk 3 7) (pos 0) (join ((1, []) ∷ [])) (start_server 0)
      queried (omega arith) refl (λ t s. refl) is_queried
