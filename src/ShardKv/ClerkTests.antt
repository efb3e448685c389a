-- ===== src/ShardKv/ClerkTests.antt =====
-- The theorems about the client of the sharded key/value service at concrete values.
use mit_distributed_system.Prelude.{
  ℕ, suc, ◌≤◌, ◌≢◌, refl, none, some, Option, [], ◌∷◌, arith, replicate, ◌==◌, if◌then◌else◌, ltb,
}
use mit_distributed_system.Gob.{Bytes}
use mit_distributed_system.Assoc.{lookup}
use mit_distributed_system.ShardCtrler.Defs.{Config}
use mit_distributed_system.ShardKv.Keys.{key2shard}
use mit_distributed_system.ShardKv.Defs.{Op, Err, err_wrong_group}
use mit_distributed_system.ShardKv.Clerk.{
  GetReply, breaks, get_reaction, servers_of, ask_get, get, make_clerk,
}
use mit_distributed_system.ShardKv.Clerk.Retry.{Served, Answered, get-Answered}

-- All shards on the group 100, which has two servers.
abbrev one_group : Config
one_group = record {
  num = 1;
  shards = replicate 10 100;
  groups = (100, (1 ∷ []) ∷ (2 ∷ []) ∷ []) ∷ [];
}

-- In the first three rounds the servers answer ErrWrongGroup; then the second one has the value 20.
abbrev net : Op → ℕ → ℕ → Bytes → Option GetReply
net args t si name =
    if ltb t 3
    then some (record { err = err_wrong_group; value = [] })
    else if si == 1
    then some (record { err = Err.ok; value = 20 ∷ [] })
    else none

net_goes_on :
    (t si : ℕ) (name : Bytes) → 3 ≤ t → ask_get net (make_clerk 7) (97 ∷ []) t si name ≢ breaks
unfolding get_reaction
net_goes_on t si name late e = ground arith

net_serves :
    (t : ℕ)
    → 3 ≤ t
    → (r : Bytes) × Served (ask_get net (make_clerk 7) (97 ∷ [])) (97 ∷ []) one_group (suc t) r
unfolding get_reaction servers_of key2shard lookup
net_serves t late = (
  20 ∷ [],
  record {
    names = (1 ∷ []) ∷ (2 ∷ []) ∷ [];
    si = 1;
    name = 2 ∷ [];
    known = refl;
    member = refl;
    answered = ground arith;
  },
)

get-Answered_example :
    Answered
      (ask_get net (make_clerk 7) (97 ∷ []))
      (97 ∷ [])
      (make_clerk 7)
      (get net (λ t. one_group) 5 (make_clerk 7) (97 ∷ []))
unfolding make_clerk
get-Answered_example =
    get-Answered net (λ t. one_group) (make_clerk 7) (97 ∷ []) 3 refl (λ t. refl) net_goes_on
      net_serves
