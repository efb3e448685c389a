-- ===== src/KvRaft/Clerk.antt =====
-- The client of the key/value service: src/kvraft/client.go, with the arguments and replies of
-- src/kvraft/common.go.
pub mod Retry
use mit_distributed_system.Prelude.{
  ℕ, zero, suc, ◌+◌, ◌-◌, Bool, true, false, ltb, Option, none, some, if◌then◌else◌, [],
}
use mit_distributed_system.Gob.{Bytes}
use mit_distributed_system.Service.Calls.{Calls, Loop, running, panicked, ended}
use mit_distributed_system.KvRaft.Defs.{Err, err_no_key, err_wrong_leader}

-- `servers` is the number of servers.
pub record Clerk : Type 0 where
  pub servers : ℕ
  pub last_leader : ℕ
  pub client_id : ℕ
  pub request_id : ℕ

pub record GetArgs : Type 0 where
  pub key : Bytes
  pub client_id : ℕ
  pub request_id : ℕ

pub record GetReply : Type 0 where
  pub err : Err
  pub value : Bytes

-- `is_put` is Op == "Put".
pub record PutAppendArgs : Type 0 where
  pub key : Bytes
  pub value : Bytes
  pub is_put : Bool
  pub client_id : ℕ
  pub request_id : ℕ

-- `id` is the result of nrand.
unfoldable pub make_clerk : ℕ → ℕ → Clerk
make_clerk servers id = record {
  servers = servers;
  last_leader = 0;
  client_id = id;
  request_id = 0;
}

unfoldable pub increment_last_leader : Clerk → Clerk
increment_last_leader ck =
    if ltb (ck.servers - 1) (ck.last_leader + 1)
    then record ck { last_leader = 0 }
    else record ck { last_leader = ck.last_leader + 1 }

-- The loop of Get and of PutAppend: `ask t s` is `some` when the reply of the server `s` to the call
-- number `t` ends it. An index behind the servers panics.
unfoldable pub retry : {R : Type 0} → Calls R → ℕ → ℕ → Clerk → Loop (Clerk × R)
retry ask zero now ck = running
retry ask (suc fuel) now ck =
    let rest = retry ask fuel (suc now) (increment_last_leader ck) in
    if ltb ck.last_leader ck.servers
    then elim (ask now ck.last_leader) [ none ↦ rest | some r ↦ ended (ck, r) ]
    else panicked

-- ck.requestId += 1
unfoldable pub finish : {R : Type 0} → Loop (Clerk × R) → Loop (Clerk × R)
finish running = running
finish panicked = panicked
finish (ended (ck, r)) = ended (record ck { request_id = suc ck.request_id }, r)

-- The result with which a reply ends Get; other replies, and a failed call, do not.
unfoldable pub get_result : Option GetReply → Option Bytes
get_result none = none
get_result (some reply) = elim reply.err [
  | Err.ok ↦ some reply.value
  | err_no_key ↦ some []
  | err_wrong_leader ↦ none
]

-- Whether a reply ends PutAppend; a reply to it has an error only.
unfoldable pub put_append_result : Option Err → Option {0} Unit
put_append_result none = none
put_append_result (some Err.ok) = some tt
put_append_result (some err_no_key) = none
put_append_result (some err_wrong_leader) = none

abbrev pub get_args : Clerk → Bytes → GetArgs
get_args ck key = record { key = key; client_id = ck.client_id; request_id = ck.request_id }

abbrev pub put_append_args : Clerk → Bytes → Bytes → Bool → PutAppendArgs
put_append_args ck key value is_put = record {
  key = key;
  value = value;
  is_put = is_put;
  client_id = ck.client_id;
  request_id = ck.request_id;
}

-- The network takes the arguments, which are the same at each try: neither clientId nor requestId
-- changes inside the loop.
unfoldable pub get : (GetArgs → Calls GetReply) → ℕ → ℕ → Clerk → Bytes → Loop (Clerk × Bytes)
get net fuel now ck key = finish (retry (λ t s. get_result (net (get_args ck key) t s)) fuel now ck)

unfoldable pub put_append :
    (PutAppendArgs → Calls Err) → ℕ → ℕ → Clerk → Bytes → Bytes → Bool → Loop (Clerk × Unit)
put_append net fuel now ck key value is_put =
    finish
      (retry (λ t s. put_append_result (net (put_append_args ck key value is_put) t s)) fuel now ck)
