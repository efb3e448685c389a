-- ===== src/ShardKv/Handover.antt =====
-- The hand-over of a shard's data by ShardKV.Pull (src/shardkv/server_shard_transfer.go).
use mit_distributed_system.Prelude.{
  ℕ, suc, ◌≡◌, ap, subst, ◌∙◌, inl, inr, ◌⊎◌, Bool, false, Option, none, some, [], arith,
  if◌then◌else◌, ◌==◌, ==_iff, ok, Outcome-cases, Option-cases,
}
use mit_distributed_system.Gob.{Bytes}
use mit_distributed_system.Assoc.{Assoc, lookup, put, lookup-put, lookup-remove, nat_key, bytes_key}
use mit_distributed_system.ShardCtrler.Defs.{Config}
use mit_distributed_system.ShardKv.Keys.{key2shard}
use mit_distributed_system.ShardKv.Defs.{
  working, leaving, waiting, Shard, Command, get, append, update_config, pull_shard, leave_shard,
  transfer_done, Op, Err, WaitChResponse, ShardKv, TransferArgs,
}
use mit_distributed_system.ShardKv.Apply.{
  is_mine, client_request, take_over, give_up, confirm, change_config, answer, appended,
  read_answer, apply_command,
}
use mit_distributed_system.ShardKv.Apply.Serve.{
  after, serving-cases, client_request_refused, client_request_served,
}
use mit_distributed_system.ShardKv.Apply.Statuses.{status, apply_command-status_after}
use mit_distributed_system.ShardKv.Apply.Configs.{brings}
use mit_distributed_system.ShardKv.Invariant.{
  Sound, Ran, here, step, ended, Ran-num, num_grows, none_kept, brings_nothing,
}
use mit_distributed_system.ShardKv.Transfer.{pull}

-- The shard is as it was, or it is deleted.
abbrev pub Frozen : Option Shard → Option Shard → Type 0
Frozen old new = (new ≡ old) ⊎ (new ≡ none)

module _ (kv : ShardKv) (s : ℕ) (shard : Shard) (there : lookup s kv.shards ≡ some shard)
    (gone : shard.status ≡ leaving) where
  client_request-Frozen :
      (op : Op) (key : Bytes) (change : Assoc Bytes Bytes → Assoc Bytes Bytes)
      (respond : Assoc Bytes Bytes → WaitChResponse)
      → lookup s (client_request kv op key change respond).0.shards ≡ some shard
  client_request-Frozen op key change respond = elim (serving-cases key kv.shards) [
    | inl refused ↦ ground (arith, client_request_refused kv op key change respond refused)
    | inr (served, up, found, good) ↦ ground (
      arith,
      (client_request_served kv op key change respond served up).0,
      good,
      found,
      lookup-put (key2shard key) s
          (record served { storage = after kv op key change respond served }) kv.shards,
      ==_iff (key2shard key) s,
    )
  ]

  change_config-Frozen :
      (config : Config) {next : ShardKv}
      → change_config kv config ≡ ok next
      → (if config.num == suc kv.curr_config.num then some config else none) ≡ none
      → lookup s next.shards ≡ some shard
  unfolding change_config
  change_config-Frozen config e b = ground arith

  take_over-Frozen :
      (i v : ℕ) (storage : Assoc Bytes Bytes) {next : ShardKv}
      → take_over kv i v storage ≡ ok next
      → lookup s next.shards ≡ some shard
  unfolding take_over
  take_over-Frozen i v storage e =
      ground (
        arith,
        lookup-put i s (record { storage = storage; status = waiting }) kv.shards,
        ==_iff i s,
      )

  confirm-Frozen :
      (i v : ℕ) {next : ShardKv} → confirm kv i v ≡ ok next → lookup s next.shards ≡ some shard
  unfolding confirm
  confirm-Frozen i v e = elim (Option-cases (lookup i kv.shards)) [
    | inl missing ↦ ground (arith, ==_iff i s)
    | inr (other, found) ↦
        ground (arith, lookup-put i s (record other { status = working }) kv.shards, ==_iff i s)
  ]

  give_up-Frozen : (i v : ℕ) → Frozen (some shard) (lookup s (give_up kv i v).0.shards)
  unfolding give_up
  give_up-Frozen i v = ground (arith, lookup-remove i s kv.shards)

  apply_command-Frozen :
      (op : Op) (command : Command) {next : ShardKv × WaitChResponse}
      → apply_command kv op command ≡ ok next
      → brings command kv.curr_config.num ≡ none
      → Frozen (some shard) (lookup s next.0.shards)
  unfolding apply_command
  apply_command-Frozen op (get key) e b =
      inl (ground (arith, client_request-Frozen op key (λ s. s) (λ s. read_answer (lookup key s))))
  apply_command-Frozen op (Command.put key value) e b =
      inl (ground (arith, client_request-Frozen op key (put key value) (λ s. answer Err.ok [])))
  apply_command-Frozen op (append key value) e b = inl (
      ground (
        arith,
        client_request-Frozen op key (λ s. put key (appended (lookup key s) value) s)
            (λ s. answer Err.ok []),
      ))
  apply_command-Frozen op (update_config config) e b =
      elim (Outcome-cases (change_config kv config)) [
        | inl stops ↦ absurd (ground arith)
        | inr (kv', goes) ↦ inl (ground (arith, change_config-Frozen config goes b))
      ]
  apply_command-Frozen op (pull_shard i v storage) e b =
      elim (Outcome-cases (take_over kv i v storage)) [
        | inl stops ↦ absurd (ground arith)
        | inr (kv', goes) ↦ inl (ground (arith, take_over-Frozen i v storage goes))
      ]
  apply_command-Frozen op (leave_shard i v) e b = ground (arith, give_up-Frozen i v)
  apply_command-Frozen op (transfer_done i v) e b = elim (Outcome-cases (confirm kv i v)) [
    | inl stops ↦ absurd (ground arith)
    | inr (kv', goes) ↦ inl (ground (arith, confirm-Frozen i v goes))
  ]

-- While the configuration stays, a LEAVING shard only can be deleted.
Ran-Frozen :
    (s : ℕ) (shard : Shard) {kv v : ShardKv}
    → lookup s kv.shards ≡ some shard
    → shard.status ≡ leaving
    → Ran kv v
    → v.curr_config.num ≡ kv.curr_config.num
    → Frozen (some shard) (lookup s v.shards)
Ran-Frozen s shard there gone here same = inl there
Ran-Frozen s shard {kv} {v} there gone (step {u} op reply ran e) same =
    let upto = Ran-num ran in
    let last = num_grows u op (v, reply) e in
    let nothing = brings_nothing u op (v, reply) e (omega arith) in
    elim (Ran-Frozen s shard there gone ran (omega arith)) [
      | inl kept ↦ apply_command-Frozen u s shard kept gone op op.command e nothing
      | inr deleted ↦ inr (
          ground (
            arith,
            apply_command-status_after u op op.command s e,
            none_kept u.gid u.curr_config.num s (status u s) op.command nothing,
          ))
    ]
Ran-Frozen s shard {kv} {v} there gone (ended {u} t ran ends e) same =
    subst (λ w. Frozen (some shard) (lookup s w.shards)) e
      (Ran-Frozen s shard there gone ran (ap (λ w. w.curr_config.num) e ∙ same))

-- When a server answers OK to a Pull of a shard that its configuration gives to another group, the
-- asker is at the same config version, the shard is LEAVING, and the reply is its data for good: until
-- the server changes its configuration, committed operations leave the shard as it is or delete it.
pub pull-Frozen :
    (kv : ShardKv) (is_leader : Bool) (args : TransferArgs)
    → Sound kv
    → is_mine kv.gid kv.curr_config args.shard_id ≡ false
    → (pull kv is_leader args).err ≡ Err.ok
    → (args.config_version ≡ kv.curr_config.num)
      × (shard : Shard) × (lookup args.shard_id kv.shards ≡ some shard)
      × (shard.status ≡ leaving)
      × ((pull kv is_leader args).storage ≡ shard.storage)
      × ((v : ShardKv)
          → Ran kv v
          → v.curr_config.num ≡ kv.curr_config.num
          → Frozen (some shard) (lookup args.shard_id v.shards))
unfolding pull
pull-Frozen kv is_leader args p theirs e = elim (Option-cases (lookup args.shard_id kv.shards)) [
  | inl missing ↦ absurd (ground arith)
  | inr (shard, there) ↦
      let gone : shard.status ≡ leaving = ground (arith, p.placed args.shard_id) in
      (
        ground arith,
        shard,
        there,
        gone,
        ground arith,
        λ v ran same. Ran-Frozen args.shard_id shard there gone ran same,
      )
]
