-- ===== src/ShardKv/Apply/Statuses.antt =====
-- The status of each shard of a server of src/shardkv/server.go, as a state machine.
use native.Mathlib.Decide.{dec_lt}
use mit_distributed_system.Prelude.{
  ℕ, suc, ◌-◌, ◌≤◌, ◌≡◌, inl, inr, Bool, true, false, not, Option, none, some, List, [], ◌∷◌, arith,
  if◌then◌else◌, ◌&&◌, ◌==◌, ==_iff, Option-cases, leb, get_elem?, ok, Outcome-cases,
}
use mit_distributed_system.Gob.{Bytes}
use mit_distributed_system.Assoc.{Assoc, lookup, put, lookup-put, lookup-remove, nat_key, bytes_key}
use mit_distributed_system.ShardCtrler.Defs.{Config}
use mit_distributed_system.ShardKv.Keys.{key2shard}
use mit_distributed_system.ShardKv.Defs.{
  ShardStatus, working, pulling, leaving, waiting, Shard, Shards, Command, get, append,
  update_config, pull_shard, leave_shard, transfer_done, Op, Err, WaitChResponse, ShardKv,
}
use mit_distributed_system.ShardKv.Apply.{
  create_shards, add_pulling, mark_leaving, is_mine, is_owner, is_none, is_pulling, is_waiting,
  change_config, take_over, give_up, confirm, client_request, apply_command, answer, appended,
  read_answer,
}
use mit_distributed_system.ShardKv.Apply.Serve.{
  after, serving-cases, client_request_refused, client_request_served,
}

abbrev pub shard_status : Option Shard → Option ShardStatus
shard_status none = none
shard_status (some shard) = some shard.status

-- The status of a shard; `none` if it does not exist.
abbrev pub status : ShardKv → ℕ → Option ShardStatus
status kv s = shard_status (lookup s kv.shards)

-- A new configuration, that gives the shard to this group or does not.
abbrev pub reassigned : Bool → Option ShardStatus → Option ShardStatus
reassigned true none = some pulling
reassigned true (some st) = some st
reassigned false none = none
reassigned false (some st) = some leaving

abbrev pub received : Option ShardStatus → Option ShardStatus
received none = none
received (some st) = if is_pulling st then some waiting else some st

abbrev pub confirmed : Option ShardStatus → Option ShardStatus
confirmed none = none
confirmed (some st) = if is_waiting st then some working else some st

-- The diagram: the status of the shard `s` after a command, at the group's id and config version.
abbrev pub status_after : ℕ → ℕ → Command → ℕ → Option ShardStatus → Option ShardStatus
status_after me version (get key) s old = old
status_after me version (Command.put key value) s old = old
status_after me version (append key value) s old = old
status_after me version (update_config config) s old =
    if not (config.num == suc version)
    then old
    else if config.num == 1
    then (if is_mine me config s then some working else old)
    else reassigned (is_mine me config s) old
status_after me version (pull_shard i v storage) s old =
    if version == v && i == s then received old else old
status_after me version (leave_shard i v) s old = if version == v && i == s then none else old
status_after me version (transfer_done i v) s old =
    if version == v && i == s then confirmed old else old

-- The entry of a list that is counted from `i` on.
pub get_elem?_shift :
    (gid : ℕ) (owners : List ℕ) (i s : ℕ)
    → i ≤ s
    → get_elem? (gid ∷ owners) (s - i) ≡ (if i == s then some gid else get_elem? owners (s - suc i))
get_elem?_shift gid owners i s h = elim (dec_lt i s) [
  | no at ↦ let e : s - i ≡ 0 = omega arith in let q : i ≡ s = omega arith in rw e (ground arith)
  | yes later ↦ let e : s - i ≡ suc (s - suc i) = omega arith in rw e (ground arith)
]

create_shards-status :
    (me i : ℕ) (owners : List ℕ) (shards : Shards) (s : ℕ)
    → shard_status (lookup s (create_shards me i owners shards)) ≡ (
        if leb i s && is_owner me (get_elem? owners (s - i))
        then some working
        else shard_status (lookup s shards))
unfolding create_shards
create_shards-status me i [] shards s = ground arith
create_shards-status me i (gid ∷ owners) shards s = ground (
  arith,
  get_elem?_shift gid owners i s,
  create_shards-status me (suc i) owners
      (if gid == me then put i (record { storage = []; status = working }) shards else shards) s,
  lookup-put i s (record { storage = []; status = working }) shards,
  ==_iff i s,
)

add_pulling-status :
    (me i : ℕ) (owners : List ℕ) (shards : Shards) (s : ℕ)
    → shard_status (lookup s (add_pulling me i owners shards)) ≡ (
        if leb i s && (is_owner me (get_elem? owners (s - i)) && is_none (lookup s shards))
        then some pulling
        else shard_status (lookup s shards))
unfolding add_pulling
add_pulling-status me i [] shards s = ground arith
add_pulling-status me i (gid ∷ owners) shards s = ground (
  arith,
  get_elem?_shift gid owners i s,
  add_pulling-status me (suc i) owners
      (if gid == me && is_none (lookup i shards)
        then put i (record { storage = []; status = pulling }) shards
        else shards)
      s,
  lookup-put i s (record { storage = []; status = pulling }) shards,
  ==_iff i s,
)

mark_leaving-status :
    (me : ℕ) (config : Config) (shards : Shards) (s : ℕ)
    → shard_status (lookup s (mark_leaving me config shards)) ≡ (
        if is_mine me config s
        then shard_status (lookup s shards)
        else (elim (lookup s shards) [ none ↦ none | some shard ↦ some leaving ]))
unfolding mark_leaving lookup
mark_leaving-status me config [] s = ground arith
mark_leaving-status me config ((i, shard) ∷ shards) s =
    ground (arith, mark_leaving-status me config shards s, ==_iff i s)

change_config-status :
    (kv : ShardKv) (config : Config) (s : ℕ) {next : ShardKv}
    → change_config kv config ≡ ok next
    → status next s ≡ status_after kv.gid kv.curr_config.num (update_config config) s (status kv s)
unfolding change_config
change_config-status kv config s e = ground (
  arith,
  create_shards-status kv.gid 0 config.shards kv.shards s,
  add_pulling-status kv.gid 0 config.shards kv.shards s,
  mark_leaving-status kv.gid config (add_pulling kv.gid 0 config.shards kv.shards) s,
)

take_over-status :
    (kv : ShardKv) (i v : ℕ) (storage : Assoc Bytes Bytes) (s : ℕ) {next : ShardKv}
    → take_over kv i v storage ≡ ok next
    → status next s
      ≡ status_after kv.gid kv.curr_config.num (pull_shard i v storage) s (status kv s)
unfolding take_over
take_over-status kv i v storage s e =
    ground
      (arith, lookup-put i s (record { storage = storage; status = waiting }) kv.shards, ==_iff i s)

give_up-status :
    (kv : ShardKv) (i v s : ℕ)
    → status (give_up kv i v).0 s
      ≡ status_after kv.gid kv.curr_config.num (leave_shard i v) s (status kv s)
unfolding give_up
give_up-status kv i v s = ground (arith, lookup-remove i s kv.shards)

confirm-status :
    (kv : ShardKv) (i v s : ℕ) {next : ShardKv}
    → confirm kv i v ≡ ok next
    → status next s ≡ status_after kv.gid kv.curr_config.num (transfer_done i v) s (status kv s)
unfolding confirm
confirm-status kv i v s e = elim (Option-cases (lookup i kv.shards)) [
  | inl gone ↦ ground (arith, ==_iff i s)
  | inr (shard, there) ↦
      ground (arith, lookup-put i s (record shard { status = working }) kv.shards, ==_iff i s)
]

client_request-status :
    (kv : ShardKv) (op : Op) (key : Bytes) (change : Assoc Bytes Bytes → Assoc Bytes Bytes)
    (respond : Assoc Bytes Bytes → WaitChResponse) (s : ℕ)
    → status (client_request kv op key change respond).0 s ≡ status kv s
client_request-status kv op key change respond s = elim (serving-cases key kv.shards) [
  | inl gone ↦ ground (arith, client_request_refused kv op key change respond gone)
  | inr (shard, up, there, ok_status) ↦ ground (
    arith,
    (client_request_served kv op key change respond shard up).0,
    there,
    lookup-put (key2shard key) s (record shard { storage = after kv op key change respond shard })
        kv.shards,
    ==_iff (key2shard key) s,
  )
]

-- After a committed operation every shard has the status that the diagram gives.
pub apply_command-status_after :
    (kv : ShardKv) (op : Op) (command : Command) (s : ℕ) {next : ShardKv × WaitChResponse}
    → apply_command kv op command ≡ ok next
    → status next.0 s ≡ status_after kv.gid kv.curr_config.num command s (status kv s)
unfolding apply_command
apply_command-status_after kv op (get key) s e =
    ground (arith, client_request-status kv op key (λ s. s) (λ s. read_answer (lookup key s)) s)
apply_command-status_after kv op (Command.put key value) s e =
    ground (arith, client_request-status kv op key (put key value) (λ s. answer Err.ok []) s)
apply_command-status_after kv op (append key value) s e = ground (
  arith,
  client_request-status kv op key (λ s. put key (appended (lookup key s) value) s)
      (λ s. answer Err.ok []) s,
)
apply_command-status_after kv op (update_config config) s e =
    elim (Outcome-cases (change_config kv config)) [
      | inl stops ↦ ground arith
      | inr (kv', goes) ↦ ground (arith, change_config-status kv config s goes)
    ]
apply_command-status_after kv op (pull_shard i v storage) s e =
    elim (Outcome-cases (take_over kv i v storage)) [
      | inl stops ↦ ground arith
      | inr (kv', goes) ↦ ground (arith, take_over-status kv i v storage s goes)
    ]
apply_command-status_after kv op (leave_shard i v) s e = ground (arith, give_up-status kv i v s)
apply_command-status_after kv op (transfer_done i v) s e = elim (Outcome-cases (confirm kv i v)) [
  | inl stops ↦ ground arith
  | inr (kv', goes) ↦ ground (arith, confirm-status kv i v s goes)
]
