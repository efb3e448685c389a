-- ===== src/ShardKv/RestartTests.antt =====
-- A restart of a ShardKV from a concrete snapshot.
use mit_distributed_system.Prelude.{
  ℕ, zero, suc, minus_one, ◌≡◌, refl, Bool, true, none, some, [], ◌∷◌, ok, arith,
}
use mit_distributed_system.Gob.{Coder}
use mit_distributed_system.Gob.Samples.{int_coder, nat_coder, list_coder, pair_coder, coder_as}
use mit_distributed_system.Assoc.{lookup, nat_key, bytes_key, put}
use mit_distributed_system.ShardCtrler.Defs.{Config}
use mit_distributed_system.ShardKv.Defs.{
  ShardStatus, working, pulling, leaving, waiting, Shard, ShardKv, update_config, unset, pull_task,
}
use mit_distributed_system.ShardKv.Apply.Statuses.{status}
use mit_distributed_system.ShardKv.Server.{Codec, serialize, deserialize, start_server}
use mit_distributed_system.ShardKv.Restart.{start_server-serialize}
use mit_distributed_system.ShardKv.Transfer.{internal_op, all_working, fetch_round}
use mit_distributed_system.ShardKv.Apply.{
  answer, change_config, create_shards, add_pulling, pull_tasks, mark_leaving, ids_in_range,
  apply_command, apply_op,
}
use mit_distributed_system.ShardKv.Invariant.{Ran, Reached, Allowed}
use mit_distributed_system.ShardKv.Tasks.{Tended}
use mit_distributed_system.ShardKv.Tasks.Tended.{Reached-Tended}
use mit_distributed_system.ShardKv.Samples.{first_config, second_config, idle, taker}

config_coder : Coder Config
config_coder =
    coder_as
      (pair_coder nat_coder (
        pair_coder (list_coder nat_coder)
          (list_coder (pair_coder nat_coder (list_coder (list_coder nat_coder))))))
      (λ c. (c.num, (c.shards, c.groups)))
      (λ (n, (s, g)). record { num = n; shards = s; groups = g }) (λ c. refl)

status_number : ShardStatus → ℕ
status_number working = 0
status_number pulling = 1
status_number leaving = 2
status_number waiting = 3

numbered_status : ℕ → ShardStatus
numbered_status zero = working
numbered_status (suc zero) = pulling
numbered_status (suc (suc zero)) = leaving
numbered_status _ = waiting

numbered_status-status_number : (st : ShardStatus) → numbered_status (status_number st) ≡ st
unfolding numbered_status status_number
numbered_status-status_number working = refl
numbered_status-status_number pulling = refl
numbered_status-status_number leaving = refl
numbered_status-status_number waiting = refl

shard_coder : Coder Shard
shard_coder =
    coder_as
      (pair_coder (list_coder (pair_coder (list_coder nat_coder) (list_coder nat_coder))) nat_coder)
      (λ s. (s.storage, status_number s.status))
      (λ (m, n). record { storage = m; status = numbered_status n })
      (λ s. ground (arith, numbered_status-status_number s.status))

abbrev codec : Codec
codec = record {
  ints = int_coder;
  requests = list_coder (pair_coder nat_coder int_coder);
  configs = config_coder;
  shards = list_coder (pair_coder nat_coder shard_coder);
}

start_server-serialize_example :
    (new : ShardKv) × (start_server codec 0 200 minus_one (serialize codec taker) ≡ ok new)
    × (status new 7 ≡ some pulling)
    × (new.curr_config ≡ second_config)
    × (new.tasks ≡ [])
    × ((is_leader : Bool) (query : ℕ → Config) → fetch_round new is_leader query ≡ ok none)
unfolding lookup
start_server-serialize_example = start_server-serialize codec taker 7 0 200 minus_one refl

-- A server of the group 200, which has no snapshot; the first configuration gives it no shard, the second
-- one the shard 7, which it pulls.
abbrev fresh : ShardKv
fresh = record idle { gid = 200 }

abbrev joined : ShardKv
joined = record fresh { curr_config = first_config }

abbrev pulls : ShardKv
pulls = record joined {
  shards = (7, record { storage = []; status = pulling }) ∷ [];
  prev_config = first_config;
  curr_config = second_config;
  tasks = pull_task 7 2 ∷ [];
}

starts_fresh : start_server codec 0 200 minus_one [] ≡ ok fresh
unfolding start_server deserialize
starts_fresh = refl

first_fetch :
    fetch_round fresh true (λ n. first_config)
    ≡ ok (some (internal_op (update_config first_config)))
unfolding fetch_round all_working
first_fetch = refl

second_fetch :
    fetch_round joined true (λ n. second_config)
    ≡ ok (some (internal_op (update_config second_config)))
unfolding fetch_round all_working
second_fetch = refl

joins : apply_op fresh (internal_op (update_config first_config)) ≡ ok (joined, answer unset [])
unfolding apply_command change_config create_shards
joins = refl

takes : apply_op joined (internal_op (update_config second_config)) ≡ ok (pulls, answer unset [])
unfolding apply_command change_config add_pulling pull_tasks mark_leaving ids_in_range put lookup
takes = refl

Reached-Tended_example : Tended pulls
Reached-Tended_example = Reached-Tended codec 0 200 minus_one starts_fresh (
    Reached.next (internal_op (update_config second_config)) (answer unset [])
      (Reached.next (internal_op (update_config first_config)) (answer unset []) Reached.here
        (Allowed.fetched fresh (λ n. first_config) Ran.here first_fetch) joins)
      (Allowed.fetched joined (λ n. second_config) Ran.here second_fetch) takes)
