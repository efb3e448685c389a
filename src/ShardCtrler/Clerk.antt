-- ===== src/ShardCtrler/Clerk.antt =====
-- The client of the shard controller: src/shardctrler/client.go.
pub mod Query
pub mod Change
use mit_distributed_system.Prelude.{
  ℕ, zero, suc, ◌+◌, ℤ, pos, Bool, true, false, ltb, Option, none, some, if◌then◌else◌,
}
use mit_distributed_system.Service.Calls.{Calls, Loop, running, panicked, ended}
use mit_distributed_system.ShardCtrler.Defs.{
  Config, empty_config, Command, Op, Err, err_wrong_leader,
}

-- `servers` is the number of servers.
pub record Clerk : Type 0 where
  pub servers : ℕ
  pub last_leader : ℕ
  pub client_id : ℕ
  pub request_id : ℕ

-- The reply of Query; those of Join, Leave and Move have the error only, and the configuration of these
-- is not read.
pub record QueryReply : Type 0 where
  pub err : Err
  pub config : Config

-- `id` is the result of nrand.
unfoldable pub make_clerk : ℕ → ℕ → Clerk
make_clerk servers id = record {
  servers = servers;
  last_leader = 0;
  client_id = id;
  request_id = 0;
}

-- ok && reply.Err != ErrWrongLeader
unfoldable pub accepted : Option QueryReply → Option Config
accepted none = none
accepted (some reply) = elim reply.err [ Err.ok ↦ some reply.config | err_wrong_leader ↦ none ]

-- The `left` servers from `index` on, in order, from the call number `now` on: the first one that
-- accepts, with its configuration.
unfoldable pub try_each : Calls QueryReply → ℕ → ℕ → ℕ → Option (ℕ × Config)
try_each calls now index zero = none
try_each calls now index (suc left) =
    let rest = try_each calls (suc now) (suc index) left in
    elim (accepted (calls now index)) [ none ↦ rest | some config ↦ some (index, config) ]

-- ck.requestId += 1, and ck.lastLeader = index
abbrev pub accept : Clerk → ℕ → Clerk
accept ck index = record ck { last_leader = index; request_id = suc ck.request_id }

-- One round of a loop, from the call number `now` on: the last leader, and then each server.
unfoldable pub round : Calls QueryReply → ℕ → Clerk → Option (Clerk × Config)
round calls now ck = elim (accepted (calls now ck.last_leader)) [
  | some config ↦ some (accept ck ck.last_leader, config)
  | none ↦ elim (try_each calls (suc now) 0 ck.servers) [
    | none ↦ none
    | some (index, config) ↦ some (accept ck index, config)
  ]
]

-- The calls that a round makes in which no server accepts.
abbrev pub round_calls : Clerk → ℕ
round_calls ck = suc ck.servers

-- The loop of Query, with the rounds that are left before it gives up.
unfoldable pub query_rounds : Calls QueryReply → ℕ → ℕ → Clerk → Clerk × Config
query_rounds calls now zero ck = (ck, empty_config)
query_rounds calls now (suc retries) ck =
    let rest = query_rounds calls (now + round_calls ck) retries ck in
    elim (round calls now ck) [ none ↦ rest | some found ↦ found ]

abbrev pub retry_max_time : ℕ
retry_max_time = 5

-- The operation that a server makes of the arguments.
abbrev pub request : Clerk → Command → Op
request ck command = record {
  command = command;
  client_id = ck.client_id;
  request_id = pos ck.request_id;
}

-- Query, over a network that takes that operation; an index behind the servers panics.
unfoldable pub query : (Op → Calls QueryReply) → ℕ → Clerk → ℤ → Loop (Clerk × Config)
query net now ck num =
    if ltb ck.last_leader ck.servers
    then ended (query_rounds (net (request ck (Command.query num))) now retry_max_time ck)
    else panicked

-- The loop of Join, Leave and Move, on fuel.
unfoldable pub change_rounds : Calls QueryReply → ℕ → ℕ → Clerk → Loop Clerk
change_rounds calls zero now ck = running
change_rounds calls (suc fuel) now ck =
    let rest = change_rounds calls fuel (now + round_calls ck) ck in
    elim (round calls now ck) [ none ↦ rest | some (ck', config) ↦ ended ck' ]

-- Join, Leave and Move, which differ in the command only.
unfoldable pub change : (Op → Calls QueryReply) → ℕ → ℕ → Clerk → Command → Loop Clerk
change net fuel now ck command =
    let loop = change_rounds (net (request ck command)) fuel now ck in
    if ltb ck.last_leader ck.servers then loop else panicked
