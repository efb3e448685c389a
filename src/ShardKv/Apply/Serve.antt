-- ===== src/ShardKv/Apply/Serve.antt =====
-- What a client's request does to the keys that a server of src/shardkv/server.go holds.
use mit_distributed_system.Prelude.{
  ◌<ℤ◌, ◌≡◌, refl, ◌⊎◌, inl, inr, Bool, true, false, Option, none, some, [], ◌++◌, arith,
  if◌then◌else◌, ◌&&◌, ==_iff, Bool-cases, Option-cases, ok, subst,
}
use mit_distributed_system.Gob.{Bytes}
use mit_distributed_system.Assoc.{Assoc, lookup, put, lookup-put, bytes_key, nat_key}
use mit_distributed_system.Service.Requests.{latest, note_request-fresh}
use mit_distributed_system.ShardKv.Keys.{key2shard}
use mit_distributed_system.ShardKv.Defs.{
  Shard, Shards, Command, get, append, update_config, pull_shard, leave_shard, transfer_done, Op,
  ShardStatus, working, pulling, leaving, waiting, Err, err_no_key, err_wrong_group, WaitChResponse,
  ShardKv,
}
use mit_distributed_system.ShardKv.Apply.{
  answer, is_serving, serving, appended, read_answer, client_request, apply_command, apply_op,
}

abbrev shard_value : Bytes → Option Shard → Option Bytes
shard_value key none = none
shard_value key (some shard) = lookup key shard.storage

-- The value that the server holds for a key, whatever the status of its shard.
abbrev pub stored : ShardKv → Bytes → Option Bytes
stored kv key = shard_value key (lookup (key2shard key) kv.shards)

abbrev pub is_new : ShardKv → Op → Bool
is_new kv op = latest op.client_id kv.latest_applied_request <ℤ op.request_id

-- Whether the server serves a key: its shard exists and is WORKING or WAITING.
abbrev pub serves : ShardKv → Bytes → Bool
serves kv key = elim (lookup (key2shard key) kv.shards) [
  | none ↦ false
  | some shard ↦ elim shard.status [
    | working ↦ true
    | waiting ↦ true
    | pulling ↦ false
    | leaving ↦ false
  ]
]

-- The key of a client's command, and the value that it leaves there if it is new.
abbrev pub client_key : Command → Option Bytes
client_key (get key) = some key
client_key (Command.put key value) = some key
client_key (append key value) = some key
client_key (update_config config) = none
client_key (pull_shard shard_id version storage) = none
client_key (leave_shard shard_id version) = none
client_key (transfer_done shard_id version) = none

abbrev pub written : Command → Option Bytes → Option Bytes
written (get key) old = old
written (Command.put key value) old = some value
written (append key value) none = some value
written (append key value) (some old) = some (old ++ value)
written _ old = old

-- What the client is told when the key is served, at the value by then.
abbrev pub told : Command → Option Bytes → WaitChResponse
told (get key) none = record { err = err_no_key; value = [] }
told (get key) (some value) = record { err = Err.ok; value = value }
told _ value = record { err = Err.ok; value = [] }

pub serving-cases :
    (key : Bytes) (shards : Shards)
    → (serving key shards ≡ none)
      ⊎ ((shard : Shard) × (serving key shards ≡ some shard)
          × (lookup (key2shard key) shards ≡ some shard)
          × (is_serving shard.status ≡ true))
unfolding serving
serving-cases key shards = elim (Option-cases (lookup (key2shard key) shards)) [
  | inl gone ↦ inl (ground arith)
  | inr (shard, there) ↦ elim (Bool-cases (is_serving shard.status)) [
    | inl up ↦ inr (shard, ground arith, there, up)
    | inr down ↦ inl (ground arith)
  ]
]

pub serves_refused :
    (kv : ShardKv) (key : Bytes) → serving key kv.shards ≡ none → serves kv key ≡ false
unfolding serving
serves_refused kv key gone = by_shard (lookup (key2shard key) kv.shards) refl
  where
    by_shard : (o : Option Shard) → lookup (key2shard key) kv.shards ≡ o → serves kv key ≡ false
    by_shard none e = ground arith
    by_shard (some shard) e = by_status shard.status refl
      where
        by_status : (st : ShardStatus) → shard.status ≡ st → serves kv key ≡ false
        by_status working f = absurd (ground arith)
        by_status waiting f = absurd (ground arith)
        by_status pulling f = ground arith
        by_status leaving f = ground arith

pub serves_served :
    (kv : ShardKv) (key : Bytes) (shard : Shard)
    → lookup (key2shard key) kv.shards ≡ some shard
    → is_serving shard.status ≡ true
    → serves kv key ≡ true
serves_served kv key shard there up = by_status shard.status refl
  where
    by_status : (st : ShardStatus) → shard.status ≡ st → serves kv key ≡ true
    by_status working f = ground arith
    by_status waiting f = ground arith
    by_status pulling f = absurd (ground arith)
    by_status leaving f = absurd (ground arith)

read_answer-told : (key : Bytes) (value : Option Bytes) → read_answer value ≡ told (get key) value
read_answer-told key none = refl
read_answer-told key (some value) = refl

append-written :
    (key value : Bytes) (old : Option Bytes)
    → some (appended old value) ≡ written (append key value) old
append-written key value none = refl
append-written key value (some old) = refl

module _ (kv : ShardKv) (op : Op) (key : Bytes) (change : Assoc Bytes Bytes → Assoc Bytes Bytes)
    (respond : Assoc Bytes Bytes → WaitChResponse) where
  pub client_request_refused :
      serving key kv.shards ≡ none
      → client_request kv op key change respond ≡ (kv, answer err_wrong_group [])
  unfolding client_request
  client_request_refused gone = ground arith

  -- The storage of the key's shard after the request.
  pub after : Shard → Assoc Bytes Bytes
  after shard = if is_new kv op then change shard.storage else shard.storage

  pub client_request_served :
      (shard : Shard)
      → serving key kv.shards ≡ some shard
      → ((client_request kv op key change respond).0.shards
          ≡ put (key2shard key) (record shard { storage = after shard }) kv.shards)
        × ((client_request kv op key change respond).1 ≡ respond (after shard))
  unfolding client_request after
  client_request_served shard up =
      ground (arith, note_request-fresh op.client_id op.request_id kv.latest_applied_request)

-- What a client's command `op` about `key` leaves, and what the client is told.
pub record ClientStep (kv : ShardKv) (op : Op) (command : Command) (key : Bytes)
    (next : ShardKv × WaitChResponse) : Type 0 where
  pub stores :
      (k : Bytes)
      → stored next.0 k ≡ (
          if serves kv key && (is_new kv op && bytes_key.beq key k)
          then written command (stored kv key)
          else stored kv k)
  pub reply : next.1 ≡ (
      if serves kv key
      then told command (stored next.0 key)
      else record { err = err_wrong_group; value = [] })
  pub refused : serves kv key ≡ false → next.0 ≡ kv

-- A write that changes one key as `w` says.
abbrev WritesAs :
    Bytes → (Option Bytes → Option Bytes) → (Assoc Bytes Bytes → Assoc Bytes Bytes) → Type 0
WritesAs key w change =
    (k : Bytes) (s : Assoc Bytes Bytes)
    → lookup k (change s) ≡ (if bytes_key.beq key k then w (lookup key s) else lookup k s)

module _ (kv : ShardKv) (op : Op) (command : Command) (key : Bytes)
    (change : Assoc Bytes Bytes → Assoc Bytes Bytes) (respond : Assoc Bytes Bytes → WaitChResponse)
    (writes : WritesAs key (written command) change)
    (tells : (s : Assoc Bytes Bytes) → respond s ≡ told command (lookup key s)) where
  client_request-ClientStep : ClientStep kv op command key (client_request kv op key change respond)
  unfolding after
  client_request-ClientStep = elim (serving-cases key kv.shards) [
    | inl gone ↦ rw (client_request_refused kv op key change respond gone) (record {
      stores = λ k. ground (arith, gone, serves_refused kv key gone);
      reply = ground (arith, gone, serves_refused kv key gone);
      refused = λ h. refl;
    })
    | inr (shard, up, there, status) ↦
        let (shards, answered) = client_request_served kv op key change respond shard up in
        let serve = serves_served kv key shard there status in
        let new : Shard = record shard { storage = after kv op key change respond shard } in
        record {
          stores = λ k. ground (
            arith,
            serve,
            up,
            there,
            shards,
            writes k shard.storage,
            bytes_key.beq_iff key k,
            lookup-put (key2shard key) (key2shard k) new kv.shards,
            ==_iff (key2shard key) (key2shard k),
          );
          reply = ground (
            arith,
            serve,
            up,
            shards,
            answered,
            tells (after kv op key change respond shard),
            lookup-put (key2shard key) (key2shard key) new kv.shards,
          );
          refused = λ h. absurd (ground (arith, serve));
        }
  ]

apply_command-ClientStep :
    (kv : ShardKv) (op : Op) (key : Bytes) (command : Command)
    → client_key command ≡ some key
    → (next : ShardKv × WaitChResponse) × (apply_command kv op command ≡ ok next)
      × ClientStep kv op command key next
unfolding apply_command
apply_command-ClientStep kv op key (get k) h =
    let change = λ (s : Assoc Bytes Bytes). s in
    let respond = λ (s : Assoc Bytes Bytes). read_answer (lookup k s) in
    (
      client_request kv op k change respond,
      refl,
      subst (λ j. ClientStep kv op (get k) j (client_request kv op k change respond)) (ground arith)
          (client_request-ClientStep kv op (get k) k change respond
            (λ j s. ground (arith, bytes_key.beq_iff k j)) (λ s. read_answer-told k (lookup k s))),
    )
apply_command-ClientStep kv op key (Command.put k value) h =
    let change = put {V = Bytes} k value in
    let respond = λ (s : Assoc Bytes Bytes). answer Err.ok [] in
    (
      client_request kv op k change respond,
      refl,
      subst (λ j. ClientStep kv op (Command.put k value) j (client_request kv op k change respond))
          (ground arith)
          (client_request-ClientStep kv op (Command.put k value) k change respond
            (λ j s. lookup-put k j value s) (λ s. refl)),
    )
apply_command-ClientStep kv op key (append k value) h =
    let change = λ (s : Assoc Bytes Bytes). put k (appended (lookup k s) value) s in
    let respond = λ (s : Assoc Bytes Bytes). answer Err.ok [] in
    (
      client_request kv op k change respond,
      refl,
      subst (λ j. ClientStep kv op (append k value) j (client_request kv op k change respond))
          (ground arith)
          (client_request-ClientStep kv op (append k value) k change respond
            (λ j s. ground (
              arith,
              lookup-put k j (appended (lookup k s) value) s,
              append-written k value (lookup k s),
            ))
            (λ s. refl)),
    )
apply_command-ClientStep kv op key (update_config config) h = ground arith
apply_command-ClientStep kv op key (pull_shard shard_id version storage) h = ground arith
apply_command-ClientStep kv op key (leave_shard shard_id version) h = ground arith
apply_command-ClientStep kv op key (transfer_done shard_id version) h = ground arith

-- A committed client's command always returns. A key is served if its shard exists and is WORKING or
-- WAITING. Only if the key is served and the request is new to its client, the value of this key changes: a
-- put stores the new value, an append stores the old value with the new one behind it, or the new one if
-- there is none. If the key is served, a put or append is told OK, and a get OK with the value, or ErrNoKey
-- with the empty string if there is none; else the client is told ErrWrongGroup and nothing changes.
pub apply_op-ClientStep :
    (kv : ShardKv) (op : Op) (key : Bytes)
    → client_key op.command ≡ some key
    → (next : ShardKv × WaitChResponse) × (apply_op kv op ≡ ok next)
      × ClientStep kv op op.command key next
apply_op-ClientStep kv op key e = apply_command-ClientStep kv op key op.command e
