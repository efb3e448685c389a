-- ===== src/ShardKv/Apply/Configs.antt =====
-- The configurations of a server of src/shardkv/server.go, and how an operation changes them.
use mit_distributed_system.Prelude.{
  ℕ, suc, ◌≡◌, inl, inr, Option, none, some, [], arith, if◌then◌else◌, ◌==◌, ==_iff, ok,
  Outcome-cases, Bool-cases, subst,
}
use mit_distributed_system.Gob.{Bytes}
use mit_distributed_system.Assoc.{Assoc, lookup, put, bytes_key}
use mit_distributed_system.ShardCtrler.Defs.{Config}
use mit_distributed_system.ShardKv.Defs.{
  Command, get, append, update_config, pull_shard, leave_shard, transfer_done, Op, Err,
  WaitChResponse, ShardKv,
}
use mit_distributed_system.ShardKv.Apply.{
  change_config, take_over, give_up, confirm, client_request, apply_command, answer, appended,
  read_answer,
}
use mit_distributed_system.ShardKv.Apply.Serve.{serving-cases}

-- The configuration that a command brings at a config version, if it is the next one.
abbrev pub brings : Command → ℕ → Option Config
brings (get key) version = none
brings (Command.put key value) version = none
brings (append key value) version = none
brings (update_config config) version = if config.num == suc version then some config else none
brings (pull_shard i v storage) version = none
brings (leave_shard i v) version = none
brings (transfer_done i v) version = none

-- The group and the configurations after an operation that brings `new`.
pub data Configured (kv next : ShardKv) : Option Config → Type 0 where
  stays :
      next.gid ≡ kv.gid
      → next.curr_config ≡ kv.curr_config
      → next.prev_config ≡ kv.prev_config
      → Configured kv next none
  advances :
      (config : Config)
      → next.gid ≡ kv.gid
      → next.curr_config ≡ config
      → next.prev_config ≡ kv.curr_config
      → config.num ≡ suc kv.curr_config.num
      → Configured kv next (some config)

client_request-Configured :
    (kv : ShardKv) (op : Op) (key : Bytes) (change : Assoc Bytes Bytes → Assoc Bytes Bytes)
    (respond : Assoc Bytes Bytes → WaitChResponse)
    → Configured kv (client_request kv op key change respond).0 none
unfolding client_request
client_request-Configured kv op key change respond = elim (serving-cases key kv.shards) [
  | inl gone ↦ stays (ground (arith, gone)) (ground (arith, gone)) (ground (arith, gone))
  | inr (shard, up, there, status) ↦
      stays (ground (arith, up)) (ground (arith, up)) (ground (arith, up))
]

change_config-Configured :
    (kv : ShardKv) (config : Config) {next : ShardKv}
    → change_config kv config ≡ ok next
    → Configured kv next (if config.num == suc kv.curr_config.num then some config else none)
unfolding change_config
change_config-Configured kv config e = elim (Bool-cases (config.num == suc kv.curr_config.num)) [
  | inl follows ↦ rw follows (
      advances config (ground (arith, follows)) (ground (arith, follows)) (ground (arith, follows))
        ((==_iff config.num (suc kv.curr_config.num)).0 follows))
  | inr other ↦
      rw other (stays (ground (arith, other)) (ground (arith, other)) (ground (arith, other)))
]

take_over-Configured :
    (kv : ShardKv) (i v : ℕ) (storage : Assoc Bytes Bytes) {next : ShardKv}
    → take_over kv i v storage ≡ ok next
    → Configured kv next none
unfolding take_over
take_over-Configured kv i v storage e = stays (ground arith) (ground arith) (ground arith)

give_up-Configured : (kv : ShardKv) (i v : ℕ) → Configured kv (give_up kv i v).0 none
unfolding give_up
give_up-Configured kv i v = stays (ground arith) (ground arith) (ground arith)

confirm-Configured :
    (kv : ShardKv) (i v : ℕ) {next : ShardKv} → confirm kv i v ≡ ok next → Configured kv next none
unfolding confirm
confirm-Configured kv i v e = stays (ground arith) (ground arith) (ground arith)

-- An operation changes the configuration only to the next one, which an UPDATE_CONFIG brings, and
-- keeps the one before.
pub apply_command-Configured :
    (kv : ShardKv) (op : Op) (command : Command) {next : ShardKv × WaitChResponse}
    → apply_command kv op command ≡ ok next
    → Configured kv next.0 (brings command kv.curr_config.num)
unfolding apply_command
apply_command-Configured kv op (get key) e =
    subst (λ o. Configured kv o none) (ground arith)
      (client_request-Configured kv op key (λ s. s) (λ s. read_answer (lookup key s)))
apply_command-Configured kv op (Command.put key value) e =
    subst (λ o. Configured kv o none) (ground arith)
      (client_request-Configured kv op key (put key value) (λ s. answer Err.ok []))
apply_command-Configured kv op (append key value) e =
    subst (λ o. Configured kv o none) (ground arith)
      (client_request-Configured kv op key (λ s. put key (appended (lookup key s) value) s)
        (λ s. answer Err.ok []))
apply_command-Configured kv op (update_config config) e =
    elim (Outcome-cases (change_config kv config)) [
      | inl stops ↦ absurd (ground arith)
      | inr (kv', goes) ↦
          subst (λ o. Configured kv o (brings (update_config config) kv.curr_config.num))
            (ground arith) (change_config-Configured kv config goes)
    ]
apply_command-Configured kv op (pull_shard i v storage) e =
    elim (Outcome-cases (take_over kv i v storage)) [
      | inl stops ↦ absurd (ground arith)
      | inr (kv', goes) ↦
          subst (λ o. Configured kv o none) (ground arith)
            (take_over-Configured kv i v storage goes)
    ]
apply_command-Configured kv op (leave_shard i v) e =
    subst (λ o. Configured kv o none) (ground arith) (give_up-Configured kv i v)
apply_command-Configured kv op (transfer_done i v) e = elim (Outcome-cases (confirm kv i v)) [
  | inl stops ↦ absurd (ground arith)
  | inr (kv', goes) ↦
      subst (λ o. Configured kv o none) (ground arith) (confirm-Configured kv i v goes)
]
