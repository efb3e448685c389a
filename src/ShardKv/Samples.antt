-- ===== src/ShardKv/Samples.antt =====
-- States and operations of a ShardKV for the tests.
use mit_distributed_system.Prelude.{pos, minus_one, [], ◌∷◌, replicate}
use mit_distributed_system.Assoc.{nat_key, bytes_key}
use mit_distributed_system.ShardCtrler.Defs.{Config, empty_config}
use mit_distributed_system.ShardKv.Defs.{working, pulling, leaving, append, Op, ShardKv}

-- All shards on the group 100, then the shard 7 on the group 200.
abbrev pub first_config : Config
first_config = record { num = 1; shards = replicate 10 100; groups = (100, []) ∷ [] }

abbrev pub second_config : Config
second_config = record {
  num = 2;
  shards = 100 ∷ 100 ∷ 100 ∷ 100 ∷ 100 ∷ 100 ∷ 100 ∷ 200 ∷ 100 ∷ 100 ∷ [];
  groups = (100, []) ∷ (200, []) ∷ [];
}

-- A server of the group 100 before the first configuration.
abbrev pub idle : ShardKv
idle = record {
  me = 0;
  gid = 100;
  max_raft_state = minus_one;
  shards = [];
  prev_config = empty_config;
  curr_config = empty_config;
  wait_chs = [];
  latest_applied_request = [];
  latest_applied_raft_index = 0;
  tasks = [];
}

-- One of the group 100 that has the shard 7 still, which goes to the group 200.
abbrev pub giver : ShardKv
giver = record idle {
  shards = (7, record { storage = (97 ∷ [], 1 ∷ []) ∷ []; status = leaving }) ∷ [];
  prev_config = first_config;
  curr_config = second_config;
}

-- The same one a configuration earlier.
abbrev pub holder : ShardKv
holder = record idle {
  shards = (7, record { storage = (97 ∷ [], 1 ∷ []) ∷ []; status = working }) ∷ [];
  curr_config = first_config;
}

-- One of the group 200 that is to pull it.
abbrev pub taker : ShardKv
taker = record giver { gid = 200; shards = (7, record { storage = []; status = pulling }) ∷ [] }

abbrev pub appending : Op
appending = record { command = append (97 ∷ []) (2 ∷ []); client_id = 5; request_id = pos 0 }

abbrev pub appended_holder : ShardKv
appended_holder = record holder {
  shards = (7, record { storage = (97 ∷ [], 1 ∷ 2 ∷ []) ∷ []; status = working }) ∷ [];
  latest_applied_request = (5, pos 0) ∷ [];
}
