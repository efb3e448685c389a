-- ===== src/ShardKv/Tests.antt =====
-- The theorems about a ShardKV at concrete states.
use mit_distributed_system.Prelude.{
  ℕ, ◌≡◌, ==_iff, refl, inl, inr, true, none, some, [], ◌∷◌, ok, arith,
}
use mit_distributed_system.Gob.{Bytes}
use mit_distributed_system.Assoc.{lookup, put, bytes_beq, nat_key, bytes_key}
use mit_distributed_system.Service.Requests.{note_request, latest, ensure}
use mit_distributed_system.ShardKv.Keys.{key2shard}
use mit_distributed_system.ShardKv.Defs.{
  working, pulling, leaving, Shard, append, update_config, Err, unset, WaitChResponse, ShardKv,
  pull_shard,
}
use mit_distributed_system.ShardKv.Apply.{
  answer, serving, client_request, change_config, create_shards, is_mine, apply_command, apply_op,
}
use mit_distributed_system.ShardKv.Apply.Serve.{stored, ClientStep, apply_op-ClientStep}
use mit_distributed_system.ShardKv.Apply.Statuses.{status}
use mit_distributed_system.ShardKv.Apply.Moves.{Moves}
use mit_distributed_system.ShardKv.Apply.Moving.{apply_op-Moves}
use mit_distributed_system.ShardKv.Invariant.{fits, Sound, Ran, Reached, Allowed, Reached-Sound}
use mit_distributed_system.ShardKv.Handover.{Frozen, pull-Frozen}
use mit_distributed_system.ShardKv.Migration.{apply_op-leave_op, append-append}
use mit_distributed_system.ShardKv.Transfer.{leave_op, internal_op, pull, fetch_round, all_working}
use mit_distributed_system.ShardKv.Samples.{
  first_config, second_config, idle, giver, holder, taker, appending, appended_holder,
}

apply_op-ClientStep_example :
    (next : ShardKv × WaitChResponse) × (apply_op holder appending ≡ ok next)
    × ClientStep holder appending (append (97 ∷ []) (2 ∷ [])) (97 ∷ []) next
apply_op-ClientStep_example = apply_op-ClientStep holder appending (97 ∷ []) refl

holder_appends : apply_op holder appending ≡ ok (appended_holder, answer Err.ok [])
unfolding apply_command client_request serving key2shard lookup put bytes_beq note_request latest
    ensure
holder_appends = refl

append-append_example :
    (b' : ShardKv) × (apply_op taker
        (internal_op (pull_shard (key2shard (97 ∷ [])) 2 ((97 ∷ [], 1 ∷ 2 ∷ []) ∷ [])))
      ≡ ok (b', answer unset []))
    × (last : ShardKv × WaitChResponse) × (apply_op b' appending ≡ ok last)
    × (Err.ok ≡ Err.ok)
    × (last.1.err ≡ Err.ok)
    × (stored last.0 (97 ∷ []) ≡ some (1 ∷ 2 ∷ 2 ∷ []))
unfolding lookup key2shard bytes_beq serving latest
append-append_example =
    append-append holder taker appending (97 ∷ []) (2 ∷ [])
      (record { storage = (97 ∷ [], 1 ∷ 2 ∷ []) ∷ []; status = working })
      (record { storage = []; status = pulling }) refl refl refl holder_appends refl refl refl refl

apply_op-leave_op_example :
    (next : ShardKv × WaitChResponse) × (apply_op holder
        (leave_op holder (record { config_version = 0; shard_id = 7 }))
      ≡ ok next)
    × (lookup 7 next.0.shards ≡ none)
    × (next.1.err ≡ Err.ok)
    × ((key : Bytes) → key2shard key ≡ 7 → stored next.0 key ≡ none)
apply_op-leave_op_example = apply_op-leave_op holder (record { config_version = 0; shard_id = 7 })

idle-Sound : Sound idle
unfolding lookup
idle-Sound = record { consecutive = inl refl; placed = λ s. refl; empty = λ e s. refl }

-- The first configuration comes.
abbrev started : ShardKv
unfolding create_shards put
started = record idle {
  shards = create_shards 100 0 first_config.shards [];
  curr_config = first_config;
}

first_fetch :
    fetch_round idle true (λ n. first_config) ≡ ok (some (internal_op (update_config first_config)))
unfolding fetch_round all_working
first_fetch = refl

starts : apply_op idle (internal_op (update_config first_config)) ≡ ok (started, answer unset [])
unfolding apply_command change_config started
starts = refl

apply_op-Moves_example : Moves 100 0 7 (update_config first_config) none (some working)
unfolding lookup started
apply_op-Moves_example =
    apply_op-Moves idle (internal_op (update_config first_config)) 7 (started, answer unset [])
      starts

Reached-Sound_example : Sound started
Reached-Sound_example = Reached-Sound idle-Sound (
    Reached.next (internal_op (update_config first_config)) (answer unset []) Reached.here
      (Allowed.fetched idle (λ n. first_config) Ran.here first_fetch) starts)

giver-Sound : Sound giver
unfolding lookup
giver-Sound = record {
  consecutive = inr refl;
  placed = giver_placed;
  empty = λ e s. absurd (ground arith);
}
  where
    giver_placed : (s : ℕ) → fits (is_mine 100 second_config s) (status giver s) ≡ true
    giver_placed s = ground (arith, ==_iff 7 s)

pull-Frozen_example :
    (giver.curr_config.num ≡ giver.curr_config.num)
    × (shard : Shard) × (lookup 7 giver.shards ≡ some shard)
    × (shard.status ≡ leaving)
    × ((pull giver true (record { config_version = 2; shard_id = 7 })).storage ≡ shard.storage)
    × ((v : ShardKv)
        → Ran giver v
        → v.curr_config.num ≡ 2
        → Frozen (some shard) (lookup 7 v.shards))
unfolding pull lookup
pull-Frozen_example =
    pull-Frozen giver true (record { config_version = 2; shard_id = 7 }) giver-Sound refl refl
