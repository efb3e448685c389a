-- ===== src/ShardKv/Migration.antt =====
-- What moves, and what does not, when a shard changes its group (src/shardkv).
use mit_distributed_system.Prelude.{
  ◌≡◌, refl, ◌∙◌, true, none, some, [], ◌∷◌, ◌++◌, arith, ok, subst,
}
use mit_distributed_system.Gob.{Bytes}
use mit_distributed_system.Assoc.{
  Assoc, lookup, put, lookup-put, lookup-remove, nat_key, bytes_key, beq_refl,
}
use mit_distributed_system.ShardKv.Keys.{key2shard}
use mit_distributed_system.ShardKv.Defs.{
  pulling, waiting, Shard, append, pull_shard, Op, Err, unset, WaitChResponse, ShardKv,
  TransferArgs, leave_task,
}
use mit_distributed_system.ShardKv.Apply.{
  answer, serving, appended, take_over, give_up, apply_command, apply_op,
}
use mit_distributed_system.ShardKv.Apply.Serve.{
  stored, serves, is_new, ClientStep, apply_op-ClientStep,
}
use mit_distributed_system.ShardKv.Transfer.{internal_op, leave_op}

-- ShardKV.Leave forgets the config version of its caller: when the operation that it starts is
-- committed before the server's configuration changes, the shard is gone whatever its status and
-- whatever version the caller named, with every key in it, and the caller is told OK.
pub apply_op-leave_op :
    (kv : ShardKv) (args : TransferArgs)
    → (next : ShardKv × WaitChResponse) × (apply_op kv (leave_op kv args) ≡ ok next)
      × (lookup args.shard_id next.0.shards ≡ none)
      × (next.1.err ≡ Err.ok)
      × ((key : Bytes) → key2shard key ≡ args.shard_id → stored next.0 key ≡ none)
unfolding leave_op apply_command give_up
apply_op-leave_op kv args =
    let gone = lookup-remove args.shard_id args.shard_id kv.shards in
    (
      ((give_up kv args.shard_id kv.curr_config.num).0, answer Err.ok []),
      ground arith,
      ground (arith, gone),
      refl,
      λ key here. ground (arith, gone),
    )

append_lem :
    (kv : ShardKv) (op : Op) (key value : Bytes) (next : ShardKv × WaitChResponse)
    → op.command ≡ append key value
    → serves kv key ≡ true
    → is_new kv op ≡ true
    → ClientStep kv op op.command key next
    → (next.1.err ≡ Err.ok) × (stored next.0 key ≡ some (appended (stored kv key) value))
append_lem kv op key value next is_append up fresh effect =
    let held = subst (λ c. ClientStep kv op c key next) is_append effect in
    (
      ground (arith, held.reply, up),
      ground (arith, held.stores key, up, fresh, beq_refl ⦃k = bytes_key⦄ key),
    )

module _ (b : ShardKv) (op : Op) (key : Bytes) (storage : Assoc Bytes Bytes) (old : Shard)
    (there : lookup (key2shard key) b.shards ≡ some old) (asked : old.status ≡ pulling) where
  -- The server `b` after the data of a key's shard has come.
  taken : ShardKv
  taken = record b {
    shards = put (key2shard key) (record { storage = storage; status = waiting }) b.shards;
    tasks = b.tasks ++ leave_task (key2shard key) b.curr_config.num ∷ [];
  }

  takes :
      apply_op b (internal_op (pull_shard (key2shard key) b.curr_config.num storage))
      ≡ ok (taken, answer unset [])
  unfolding apply_command take_over taken
  takes = ground arith

  taken-stored : stored taken key ≡ lookup key storage
  unfolding taken
  taken-stored = ground (
    arith,
    lookup-put (key2shard key) (key2shard key) (record { storage = storage; status = waiting })
        b.shards,
  )

  taken-serves : serves taken key ≡ true
  unfolding taken serving
  taken-serves = ground (
    arith,
    lookup-put (key2shard key) (key2shard key) (record { storage = storage; status = waiting })
        b.shards,
  )

  taken_new : is_new taken op ≡ is_new b op
  unfolding taken
  taken_new = refl

-- The record of requests stays behind: an append that one group has applied, whose shard then goes to
-- another group that has seen nothing of it, is applied there again when the client sends it again, and
-- is answered with OK both times; the value then ends with it twice.
pub append-append :
    (a b : ShardKv) (op : Op) (key value : Bytes) (mine theirs : Shard) {a' : ShardKv}
    {reply : WaitChResponse}
    → op.command ≡ append key value
    → serves a key ≡ true
    → is_new a op ≡ true
    → apply_op a op ≡ ok (a', reply)
    → lookup (key2shard key) a'.shards ≡ some mine
    → lookup (key2shard key) b.shards ≡ some theirs
    → theirs.status ≡ pulling
    → is_new b op ≡ true
    → (b' : ShardKv) × (apply_op b
          (internal_op (pull_shard (key2shard key) b.curr_config.num mine.storage))
        ≡ ok (b', answer unset []))
      × (last : ShardKv × WaitChResponse) × (apply_op b' op ≡ ok last)
      × (reply.err ≡ Err.ok)
      × (last.1.err ≡ Err.ok)
      × (stored last.0 key ≡ some (appended (some (appended (stored a key) value)) value))
append-append a b op key value mine theirs {a'} {reply} is_append up fresh applies there asked pulls
      unseen =
    let b' = taken b op key mine.storage theirs asked pulls in
    let (first, goes, effect) = apply_op-ClientStep a op key (ground arith) in
    let (last, again, effect') = apply_op-ClientStep b' op key (ground arith) in
    let once = append_lem a op key value first is_append up fresh effect in
    let twice =
      append_lem b' op key value last is_append
        (taken-serves b op key mine.storage theirs asked pulls)
        (taken_new b op key mine.storage theirs asked pulls ∙ unseen) effect' in
    (
      b',
      takes b op key mine.storage theirs asked pulls,
      last,
      again,
      ground (arith, once.0, goes, applies),
      twice.0,
      ground (
        arith,
        twice.1,
        once.1,
        goes,
        applies,
        there,
        taken-stored b op key mine.storage theirs asked pulls,
      ),
    )
