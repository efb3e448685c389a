-- ===== src/ShardKv/Invariant/Kept.antt =====
-- What one command does to the status of one shard of a server of src/shardkv/server.go, beside a new
-- configuration.
use mit_distributed_system.Prelude.{ℕ, ◌≡◌, Bool, true, false, not, Option, none, some, arith}
use mit_distributed_system.Assoc.{nat_key}
use mit_distributed_system.ShardCtrler.Defs.{Config}
use mit_distributed_system.ShardKv.Defs.{
  ShardStatus, working, pulling, leaving, waiting, Command, get, append, update_config, pull_shard,
  leave_shard, transfer_done,
}
use mit_distributed_system.ShardKv.Apply.{is_mine}
use mit_distributed_system.ShardKv.Apply.Statuses.{status_after}
use mit_distributed_system.ShardKv.Apply.Configs.{brings}
use mit_distributed_system.ShardKv.Transfer.{is_working}

abbrev pub is_leaving : ShardStatus → Bool
is_leaving leaving = true
is_leaving working = false
is_leaving pulling = false
is_leaving waiting = false

-- Whether a status fits: exactly the shards that the configuration gives to others are LEAVING.
abbrev pub fits : Bool → Option ShardStatus → Bool
fits mine none = true
fits true (some st) = not (is_leaving st)
fits false (some st) = is_leaving st

abbrev pub works : Option ShardStatus → Bool
works none = true
works (some st) = is_working st

-- What a command that brings no configuration does to one shard.
module _ (me version s : ℕ) (st : Option ShardStatus) where
  pub fits-kept :
      (mine : Bool) (command : Command)
      → brings command version ≡ none
      → fits mine st ≡ true
      → fits mine (status_after me version command s st) ≡ true
  fits-kept mine (get key) b f = f
  fits-kept mine (Command.put key value) b f = f
  fits-kept mine (append key value) b f = f
  fits-kept mine (update_config config) b f = ground arith
  fits-kept mine (pull_shard i v storage) b f = ground arith
  fits-kept mine (leave_shard i v) b f = ground arith
  fits-kept mine (transfer_done i v) b f = ground arith

  pub works-kept :
      (command : Command)
      → brings command version ≡ none
      → works st ≡ true
      → works (status_after me version command s st) ≡ true
  works-kept (get key) b f = f
  works-kept (Command.put key value) b f = f
  works-kept (append key value) b f = f
  works-kept (update_config config) b f = ground arith
  works-kept (pull_shard i v storage) b f = ground arith
  works-kept (leave_shard i v) b f = ground arith
  works-kept (transfer_done i v) b f = ground arith

  pub none_kept :
      (command : Command)
      → brings command version ≡ none
      → st ≡ none
      → status_after me version command s st ≡ none
  none_kept (get key) b f = f
  none_kept (Command.put key value) b f = f
  none_kept (append key value) b f = f
  none_kept (update_config config) b f = ground arith
  none_kept (pull_shard i v storage) b f = ground arith
  none_kept (leave_shard i v) b f = ground arith
  none_kept (transfer_done i v) b f = ground arith

  -- The next configuration, when the shard is WORKING or does not exist.
  pub fits-brought :
      (new : Config) (command : Command)
      → brings command version ≡ some new
      → works st ≡ true
      → (version ≡ 0 → st ≡ none)
      → fits (is_mine me new s) (status_after me version command s st) ≡ true
  fits-brought new (get key) b w e = cc
  fits-brought new (Command.put key value) b w e = cc
  fits-brought new (append key value) b w e = cc
  fits-brought new (update_config c) b w e = ground arith
  fits-brought new (pull_shard i v storage) b w e = cc
  fits-brought new (leave_shard i v) b w e = cc
  fits-brought new (transfer_done i v) b w e = cc
