-- ===== src/ShardCtrler/Apply.antt =====
-- The operations of ShardCtrler in src/shardctrler/server.go. Raft is seen through the messages of its
-- apply channel and the result of Start, which are arguments.
pub mod History
pub mod Progress
use mit_distributed_system.Prelude.{
  ℕ, zero, suc, ◌+◌, ◌-◌, ℤ, pos, negsuc, ◌<ℤ◌, Bool, true, false, not, ◌&&◌, ◌||◌, Option, none,
  some, List, [], ◌∷◌, ◌++◌, leb, ltb, ◌==◌, if◌then◌else◌, length, get_elem?, set, Outcome, ok,
  fatal, ◌>>=◌,
}
use mit_distributed_system.Gob.{Bytes}
use mit_distributed_system.Assoc.{Assoc, put, remove, nat_key}
use mit_distributed_system.Service.Requests.{Requests, note_request}
use mit_distributed_system.Service.WaitChs.{open_ch, send, receive, close_ch}
use mit_distributed_system.Raft.State.{ApplyMsg, command_msg, snapshot_msg}
use mit_distributed_system.ShardCtrler.Defs.{
  Groups, Config, Command, join, leave, move, query, Op, Err, err_wrong_leader, WaitChResponse,
  ShardCtrler, empty_config,
}
use mit_distributed_system.ShardCtrler.Rebalance.{rebalance_shard}

-- createNewConfigDeepCopy. Values are never shared here, so only the number changes.
unfoldable pub create_new_config : Config → Config
create_new_config config = record config { num = suc config.num }

-- newConfig.Groups[gid] = servers, for the groups of a JOIN
unfoldable pub add_groups : Groups → Groups → Groups
add_groups [] groups = groups
add_groups ((gid, servers) ∷ more) groups = add_groups more (put gid servers groups)

-- delete(newConfig.Groups, gid), for the gids of a LEAVE
unfoldable pub remove_groups : List ℕ → Groups → Groups
remove_groups [] groups = groups
remove_groups (gid ∷ gids) groups = remove_groups gids (remove gid groups)

unfoldable pub join_config : Groups → Config → Config
unfolding create_new_config
join_config servers config =
    let new = create_new_config config in
    let groups = add_groups servers new.groups in
    record new {
      groups = groups;
      shards = rebalance_shard groups new.shards true (length new.groups == 0);
    }

unfoldable pub leave_config : List ℕ → Config → Config
unfolding create_new_config
leave_config gids config =
    let new = create_new_config config in
    let groups = remove_groups gids new.groups in
    record new { groups = groups; shards = rebalance_shard groups new.shards false false }

-- newConfig.Shards[shard] = gid, which panics out of range
unfoldable pub move_config : ℤ → ℕ → Config → Outcome Config
unfolding create_new_config
move_config (negsuc n) gid config = fatal
move_config (pos shard) gid config =
    let new = create_new_config config in
    if ltb shard (length new.shards)
    then ok (record new { shards = set new.shards shard gid })
    else fatal

-- sc.configs[i], which panics out of range
unfoldable pub config_at : List Config → ℕ → Outcome Config
config_at configs i = elim (get_elem? configs i) [ none ↦ fatal | some config ↦ ok config ]

-- sc.configs[len(sc.configs)-1]
unfoldable pub last_config : List Config → Outcome Config
last_config [] = fatal
last_config (c ∷ configs) = config_at (c ∷ configs) (length configs)

unfoldable pub query_config : List Config → ℤ → Outcome Config
query_config configs (negsuc n) = last_config configs
query_config configs (pos n) =
    if leb (length configs) (suc n) then last_config configs else config_at configs n

-- The configuration that a JOIN, LEAVE or MOVE makes; a QUERY makes none.
unfoldable pub new_config : Command → Config → Outcome (List Config)
new_config (join servers) config = ok (join_config servers config ∷ [])
new_config (leave gids) config = ok (leave_config gids config ∷ [])
new_config (move shard gid) config = do new ← move_config shard gid config; ok (new ∷ [])
new_config (query n) config = ok []

-- What a request that is new appends to the configs; a repeated one appends nothing.
unfoldable pub additions : Bool → Command → List Config → Outcome (List Config)
additions false command configs = ok []
additions true command configs = do last ← last_config configs; new_config command last

-- waitChResponse.config
unfoldable pub answer_config : Command → List Config → Outcome Config
answer_config (join servers) configs = ok empty_config
answer_config (leave gids) configs = ok empty_config
answer_config (move shard gid) configs = ok empty_config
answer_config (query n) configs = query_config configs n

-- The switch on op.Type.
unfoldable pub apply_op : ShardCtrler → Op → Outcome (ShardCtrler × WaitChResponse)
apply_op sc op =
    let (requests, fresh) = note_request op.client_id op.request_id sc.latest_applied_request in
    do
      added ← additions fresh op.command sc.configs
      config ← answer_config op.command (sc.configs ++ added)
      ok (
        record sc { configs = sc.configs ++ added; latest_applied_request = requests },
        record { err = Err.ok; config = config },
      )

-- One round of applyLoop. A nil command fails the type assertion; snapshots are ignored.
unfoldable pub apply_message : ShardCtrler → ApplyMsg Op → Outcome ShardCtrler
apply_message sc (command_msg none index) =
    if leb index sc.latest_applied_raft_index then ok sc else fatal
apply_message sc (command_msg (some op) index) =
    let applied = (do
      next ← apply_op sc op
      chs ← send index next.1 next.0.wait_chs
      ok (record next.0 { latest_applied_raft_index = index; wait_chs = chs })) in
    if leb index sc.latest_applied_raft_index then ok sc else applied
apply_message sc (snapshot_msg snapshot term index) = ok sc

-- applyLoop over the messages of the channel.
unfoldable pub apply_all : ShardCtrler → List (ApplyMsg Op) → Outcome ShardCtrler
apply_all sc [] = ok sc
apply_all sc (m ∷ ms) = do sc' ← apply_message sc m; apply_all sc' ms

unfoldable pub start_server : ℕ → ShardCtrler
start_server me = record {
  me = me;
  configs = empty_config ∷ [];
  wait_chs = [];
  latest_applied_request = [];
  latest_applied_raft_index = 0;
}

-- Join, Leave, Move and Query up to the select, on the result of Start: not the leader is `none`,
-- which replies ErrWrongLeader; else the index to wait on.
unfoldable pub begin_request : ShardCtrler → ℕ × Bool → Outcome (ShardCtrler × Option ℕ)
begin_request sc (raft_index, is_leader) =
    let opened = (do
      chs ← open_ch raft_index sc.wait_chs
      ok (record sc { wait_chs = chs }, some raft_index)) in
    if is_leader then opened else ok (sc, none)

-- From the select on: the reply's error, and the configuration that Query returns.
unfoldable pub finish_request : ShardCtrler → Bool → ℕ → ShardCtrler × Err × Config
finish_request sc timed_out raft_index = elim (receive timed_out raft_index sc.wait_chs) [
  | none ↦
      (record sc { wait_chs = close_ch raft_index sc.wait_chs }, err_wrong_leader, empty_config)
  | some answer ↦
      (record sc { wait_chs = close_ch raft_index sc.wait_chs }, answer.err, answer.config)
]
