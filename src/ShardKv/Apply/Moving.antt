-- ===== src/ShardKv/Apply/Moving.antt =====
-- The apply loop of src/shardkv/server.go moves each shard as Moves says.
use mit_distributed_system.Prelude.{
  ℕ, suc, ◌≡◌, ◌≢◌, refl, sym, subst, inl, inr, ◌⊎◌, Bool, true, false, Option, none, some, arith,
  if◌then◌else◌, ◌&&◌, ◌==◌, ==_iff, Bool-cases, get_elem?, ok,
}
use mit_distributed_system.Gob.{Bytes}
use mit_distributed_system.Assoc.{Assoc}
use mit_distributed_system.ShardCtrler.Defs.{Config}
use mit_distributed_system.ShardKv.Defs.{
  ShardStatus, working, pulling, leaving, waiting, Command, get, append, update_config, pull_shard,
  leave_shard, transfer_done, Op, WaitChResponse, ShardKv,
}
use mit_distributed_system.ShardKv.Apply.{is_owner, is_mine, apply_op}
use mit_distributed_system.ShardKv.Apply.Statuses.{
  status, status_after, reassigned, received, confirmed, apply_command-status_after,
}
use mit_distributed_system.ShardKv.Apply.Moves.{
  Moves, reads, puts, appends, another, first_given, first_other, gains, keeps, loses, has_not,
  arrives, not_pulling, deleted, not_deleted, settles, not_waiting,
}

-- A command for a shard at a version: it is for this one, or not.
here_cases : (version v i s : ℕ) → ((version ≡ v) × (i ≡ s)) ⊎ ((version ≢ v) ⊎ (i ≢ s))
here_cases version v i s = elim (Bool-cases (version == v)) [
  | inr other ↦ inr (inl (λ e. ground (arith, ==_iff version v)))
  | inl same ↦ elim (Bool-cases (i == s)) [
    | inr elsewhere ↦ inr (inr (λ e. ground (arith, ==_iff i s)))
    | inl at ↦ inl (ground (arith, ==_iff version v), ground (arith, ==_iff i s))
  ]
]

elsewhere_guard : (version v i s : ℕ) → (version ≢ v) ⊎ (i ≢ s) → (version == v && i == s) ≡ false
elsewhere_guard version v i s (inl other) = ground (arith, ==_iff version v)
elsewhere_guard version v i s (inr other) = ground (arith, ==_iff i s)

here_guard : (version s : ℕ) → (version == version && s == s) ≡ true
here_guard version s = ground (arith, ==_iff version version, ==_iff s s)

owner_cases :
    (me : ℕ) (config : Config) (s : ℕ)
    → ((is_mine me config s ≡ true) × (get_elem? config.shards s ≡ some me))
      ⊎ ((is_mine me config s ≡ false) × (get_elem? config.shards s ≢ some me))
owner_cases me config s = by_owner (get_elem? config.shards s) refl
  where
    by_owner :
        (o : Option ℕ)
        → get_elem? config.shards s ≡ o
        → ((is_owner me o ≡ true) × (o ≡ some me)) ⊎ ((is_owner me o ≡ false) × (o ≢ some me))
    by_owner none e = inr (refl, λ h. ground arith)
    by_owner (some gid) e = elim (Bool-cases (gid == me)) [
      | inl same ↦ inl (same, ground (arith, ==_iff gid me))
      | inr other ↦ inr (other, λ h. ground (arith, ==_iff gid me))
    ]

module _ (me version s : ℕ) where
  -- What a later configuration does to a shard that it gives to the group, or to another one.
  given_to :
      (config : Config) (old : Option ShardStatus)
      → config.num ≡ suc version
      → config.num ≢ 1
      → get_elem? config.shards s ≡ some me
      → Moves me version s (update_config config) old (reassigned true old)
  given_to config none follows later given = gains config follows later given
  given_to config (some st) follows later given = keeps config follows later given

  given_away :
      (config : Config) (old : Option ShardStatus)
      → config.num ≡ suc version
      → config.num ≢ 1
      → get_elem? config.shards s ≢ some me
      → Moves me version s (update_config config) old (reassigned false old)
  given_away config none follows later other = has_not config follows later other
  given_away config (some st) follows later other = loses config follows later other

  received-Moves :
      (storage : Assoc Bytes Bytes) (old : Option ShardStatus)
      → Moves me version s (pull_shard s version storage) old (received old)
  received-Moves storage none = not_pulling s version storage (inr (inr (λ e. ground arith)))
  received-Moves storage (some working) =
      not_pulling s version storage (inr (inr (λ e. ground arith)))
  received-Moves storage (some pulling) = arrives storage
  received-Moves storage (some leaving) =
      not_pulling s version storage (inr (inr (λ e. ground arith)))
  received-Moves storage (some waiting) =
      not_pulling s version storage (inr (inr (λ e. ground arith)))

  confirmed-Moves :
      (old : Option ShardStatus) → Moves me version s (transfer_done s version) old (confirmed old)
  confirmed-Moves none = not_waiting s version (inr (inr (λ e. ground arith)))
  confirmed-Moves (some working) = not_waiting s version (inr (inr (λ e. ground arith)))
  confirmed-Moves (some pulling) = not_waiting s version (inr (inr (λ e. ground arith)))
  confirmed-Moves (some leaving) = not_waiting s version (inr (inr (λ e. ground arith)))
  confirmed-Moves (some waiting) = settles

  update-Moves :
      (config : Config) (old : Option ShardStatus)
      → Moves me version s
          (update_config config)
          old
          (status_after me version (update_config config) s old)
  update-Moves config old = elim (Bool-cases (config.num == suc version)) [
    | inr other ↦ rw other (another config (λ e. ground (arith, ==_iff config.num (suc version))))
    | inl next ↦
        let follows : config.num ≡ suc version = ground (arith, ==_iff config.num (suc version)) in
        elim (Bool-cases (config.num == 1)) [
          | inl one ↦
              let first : config.num ≡ 1 = ground (arith, ==_iff config.num 1) in
              elim (owner_cases me config s) [
                | inl (mine, given) ↦ rw (next, one, mine) (first_given config follows first given)
                | inr (theirs, other) ↦
                    rw (next, one, theirs) (first_other config follows first other)
              ]
          | inr later ↦
              let not_first : config.num ≢ 1 = λ e. ground (arith, ==_iff config.num 1) in
              elim (owner_cases me config s) [
                | inl (mine, given) ↦
                    rw (next, later, mine) (given_to config old follows not_first given)
                | inr (theirs, other) ↦
                    rw (next, later, theirs) (given_away config old follows not_first other)
              ]
        ]
  ]

  -- A command of a transfer, which is for the shard at its version or not.
  here_or :
      (P : ℕ → ℕ → Bool → Type 0) (i v : ℕ)
      → P s version true
      → ((version ≢ v) ⊎ (i ≢ s) → P i v false)
      → P i v (version == v && i == s)
  here_or P i v here elsewhere = elim (here_cases version v i s) [
    | inr e ↦ rw (elsewhere_guard version v i s e) (elsewhere e)
    | inl (at_version, at) ↦
        subst (λ w. P i w (version == w && i == s)) at_version
          (subst (λ j. P j version (version == version && j == s)) (sym at)
            (rw (here_guard version s) here))
  ]

  with_status : {A : Type 0} {i v : ℕ} → (version ≢ v) ⊎ (i ≢ s) → (version ≢ v) ⊎ ((i ≢ s) ⊎ A)
  with_status (inl other) = inl other
  with_status (inr other) = inr (inl other)

  pull-Moves :
      (i v : ℕ) (storage : Assoc Bytes Bytes) (old : Option ShardStatus)
      → Moves me version s
          (pull_shard i v storage)
          old
          (status_after me version (pull_shard i v storage) s old)
  pull-Moves i v storage old =
      here_or
        (λ j w b. Moves me version s (pull_shard j w storage) old (if b then received old else old))
        i v (received-Moves storage old) (λ e. not_pulling i v storage (with_status e))

  leave-Moves :
      (i v : ℕ) (old : Option ShardStatus)
      → Moves me version s (leave_shard i v) old (status_after me version (leave_shard i v) s old)
  leave-Moves i v old =
      here_or (λ j w b. Moves me version s (leave_shard j w) old (if b then none else old)) i v
        deleted (λ e. not_deleted i v e)

  transfer-Moves :
      (i v : ℕ) (old : Option ShardStatus)
      → Moves me version s
          (transfer_done i v)
          old
          (status_after me version (transfer_done i v) s old)
  transfer-Moves i v old =
      here_or
        (λ j w b. Moves me version s (transfer_done j w) old (if b then confirmed old else old)) i v
        (confirmed-Moves old) (λ e. not_waiting i v (with_status e))

  status_after-Moves :
      (command : Command) (old : Option ShardStatus)
      → Moves me version s command old (status_after me version command s old)
  status_after-Moves (get key) old = reads key
  status_after-Moves (Command.put key value) old = puts key value
  status_after-Moves (append key value) old = appends key value
  status_after-Moves (update_config config) old = update-Moves config old
  status_after-Moves (pull_shard i v storage) old = pull-Moves i v storage old
  status_after-Moves (leave_shard i v) old = leave-Moves i v old
  status_after-Moves (transfer_done i v) old = transfer-Moves i v old

-- A committed operation that is applied moves every shard as follows. A client's command and a
-- configuration that is not the next one move none. The first configuration makes its shards of this group
-- WORKING; a later one makes those that the group lacks PULLING, and those that it has and that go to
-- another group LEAVING. PULL_SHARD and TRANSFER_DONE at the current version take their shard from PULLING
-- to WAITING and from WAITING to WORKING, and LEAVE_SHARD deletes it, whatever its status; no other shard
-- and no other status moves.
pub apply_op-Moves :
    (kv : ShardKv) (op : Op) (s : ℕ) (next : ShardKv × WaitChResponse)
    → apply_op kv op ≡ ok next
    → Moves kv.gid kv.curr_config.num s op.command (status kv s) (status next.0 s)
apply_op-Moves kv op s next e =
    subst (λ st. Moves kv.gid kv.curr_config.num s op.command (status kv s) st)
      (sym (apply_command-status_after kv op op.command s e))
      (status_after-Moves kv.gid kv.curr_config.num s op.command (status kv s))
