-- ===== src/ShardKv/Clerk.antt =====
-- The client of the sharded key/value service: src/shardkv/client.go, with the replies of
-- src/shardkv/common.go.
pub mod Servers
pub mod Retry
use mit_distributed_system.Prelude.{
  ℕ, zero, suc, ℤ, pos, Bool, Option, none, some, List, [], ◌∷◌, get_elem?,
}
use mit_distributed_system.Gob.{Bytes}
use mit_distributed_system.Assoc.{lookup, nat_key}
use mit_distributed_system.Service.Calls.{Loop, running, panicked, ended}
use mit_distributed_system.ShardCtrler.Defs.{Config, empty_config}
use mit_distributed_system.ShardKv.Keys.{key2shard}
use mit_distributed_system.ShardKv.Defs.{
  Op, Err, unset, err_no_key, err_wrong_group, err_wrong_leader, err_config_version,
}
use mit_distributed_system.ShardKv.Server.{get_op, put_append_op}

pub record Clerk : Type 0 where
  pub config : Config
  pub client_id : ℕ
  pub request_id : ℕ

-- The reply of Get; the one of PutAppend has the error only.
pub record GetReply : Type 0 where
  pub err : Err
  pub value : Bytes

-- `id` is the result of nrand; the config is the zero value.
unfoldable pub make_clerk : ℕ → Clerk
make_clerk id = record { config = empty_config; client_id = id; request_id = 0 }

-- What a reply makes of the loop over the servers of a group: Get or PutAppend returns with it,
-- the loop breaks, or goes on.
pub data Reaction (R : Type 0) : Type 0 where
  gives : R → Reaction R
  breaks goes_on : Reaction R

unfoldable pub get_reaction : Option GetReply → Reaction Bytes
get_reaction none = goes_on
get_reaction (some reply) = elim reply.err [
  | Err.ok ↦ gives reply.value
  | err_no_key ↦ gives reply.value
  | err_wrong_group ↦ breaks
  | unset ↦ goes_on
  | err_wrong_leader ↦ goes_on
  | err_config_version ↦ goes_on
]

unfoldable pub put_append_reaction : Option Err → Reaction Unit
put_append_reaction none = goes_on
put_append_reaction (some Err.ok) = gives tt
put_append_reaction (some err_wrong_group) = breaks
put_append_reaction (some unset) = goes_on
put_append_reaction (some err_no_key) = goes_on
put_append_reaction (some err_wrong_leader) = goes_on
put_append_reaction (some err_config_version) = goes_on

-- The servers of the key's group; no such group is `some []`, and a shard that the configuration does
-- not have, which would panic, is `none`.
unfoldable pub servers_of : Config → Bytes → Option (List Bytes)
servers_of config key = elim (get_elem? config.shards (key2shard key)) [
  | none ↦ none
  | some gid ↦ elim (lookup gid config.groups) [ none ↦ some [] | some names ↦ some names ]
]

module _ {R : Type 0} (ask : ℕ → ℕ → Bytes → Reaction R) where
  -- The servers of a group from the number `si` on, in the round `now`: `ask now si name` is what comes of
  -- the call to the server `name`.
  unfoldable pub try_servers : ℕ → ℕ → List Bytes → Option R
  try_servers now si [] = none
  try_servers now si (name ∷ names) =
      let rest = try_servers now (suc si) names in
      elim (ask now si name) [ gives r ↦ some r | breaks ↦ none | goes_on ↦ rest ]

  -- The loop of Get and PutAppend, on fuel: `latest_config now` is what Query(-1) gives at the end of the
  -- round `now`.
  unfoldable pub rounds : (ℕ → Config) → ℕ → ℕ → Config → Bytes → Loop (Config × R)
  rounds latest_config zero now config key = running
  rounds latest_config (suc fuel) now config key =
      let rest = rounds latest_config fuel (suc now) (latest_config now) key in
      elim (servers_of config key) [
        | none ↦ panicked
        | some names ↦ elim (try_servers now 0 names) [ none ↦ rest | some r ↦ ended (config, r) ]
      ]

-- ck.requestId += 1
unfoldable pub finish : {R : Type 0} → Clerk → Loop (Config × R) → Loop (Clerk × R)
finish ck running = running
finish ck panicked = panicked
finish ck (ended (config, r)) =
    ended (record ck { config = config; request_id = suc ck.request_id }, r)

-- The network takes the operation that a server makes of the arguments, which are the same in each round.
abbrev pub ask_get :
    (Op → ℕ → ℕ → Bytes → Option GetReply) → Clerk → Bytes → ℕ → ℕ → Bytes → Reaction Bytes
ask_get net ck key now si name =
    get_reaction (net (get_op key ck.client_id (pos ck.request_id)) now si name)

abbrev pub ask_put_append :
    (Op → ℕ → ℕ → Bytes → Option Err) → Clerk → Bytes → Bytes → Bool → ℕ → ℕ → Bytes → Reaction Unit
ask_put_append net ck key value is_put now si name =
    put_append_reaction
      (net (put_append_op is_put key value ck.client_id (pos ck.request_id)) now si name)

unfoldable pub get :
    (Op → ℕ → ℕ → Bytes → Option GetReply) → (ℕ → Config) → ℕ → Clerk → Bytes → Loop (Clerk × Bytes)
get net latest_config fuel ck key =
    finish ck (rounds (ask_get net ck key) latest_config fuel 0 ck.config key)

unfoldable pub put_append :
    (Op → ℕ → ℕ → Bytes → Option Err)
    → (ℕ → Config)
    → ℕ
    → Clerk
    → Bytes
    → Bytes
    → Bool
    → Loop (Clerk × Unit)
put_append net latest_config fuel ck key value is_put =
    finish ck (rounds (ask_put_append net ck key value is_put) latest_config fuel 0 ck.config key)
