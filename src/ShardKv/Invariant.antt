-- ===== src/ShardKv/Invariant.antt =====
-- What holds of a server of src/shardkv/server.go whose log has only configurations that a leader
-- fetched as fetchNextConfig does.
pub mod Kept
pub use Kept.{is_leaving, fits, works, none_kept}
use mit_distributed_system.Prelude.{
  ℕ, suc, ◌≤◌, ◌≡◌, refl, ap, subst, ◌∙◌, inl, inr, ◌⊎◌, Bool, true, false, not, Option, none, some,
  [], ◌∷◌, arith, ok,
}
use mit_distributed_system.Assoc.{lookup, nat_key}
use mit_distributed_system.ShardCtrler.Defs.{Config}
use mit_distributed_system.ShardKv.Defs.{
  ShardStatus, working, pulling, leaving, waiting, Shards, Command, get, append, update_config,
  pull_shard, leave_shard, transfer_done, Op, WaitChResponse, ShardKv, Task,
}
use mit_distributed_system.ShardKv.Apply.{is_mine, apply_op}
use mit_distributed_system.ShardKv.Apply.Statuses.{
  shard_status, status, status_after, apply_command-status_after,
}
use mit_distributed_system.ShardKv.Apply.Configs.{
  brings, Configured, stays, advances, apply_command-Configured,
}
use mit_distributed_system.ShardKv.Transfer.{
  Ends, end_task, is_working, all_working, fetch_round, internal_op,
}
use mit_distributed_system.ShardKv.Invariant.Kept.{fits-kept, works-kept, fits-brought}

-- Every shard is WORKING.
abbrev pub AllWorking : ShardKv → Type 0
AllWorking kv = (s : ℕ) → works (status kv s) ≡ true

pub record Sound (kv : ShardKv) : Type 0 where
  pub consecutive : (kv.curr_config.num ≡ 0) ⊎ (suc kv.prev_config.num ≡ kv.curr_config.num)
  pub placed : (s : ℕ) → fits (is_mine kv.gid kv.curr_config s) (status kv s) ≡ true
  pub empty : kv.curr_config.num ≡ 0 → (s : ℕ) → status kv s ≡ none

module _ (kv : ShardKv) (op : Op) (next : ShardKv × WaitChResponse)
    (e : apply_op kv op ≡ ok next) where
  Sound-kept :
      brings op.command kv.curr_config.num ≡ none
      → Configured kv next.0 none
      → Sound kv
      → Sound next.0
  Sound-kept b (stays gid curr prev) p = record {
    consecutive = elim p.consecutive [
      | inl at_zero ↦ inl (ground arith)
      | inr follows ↦ inr (ground arith)
    ];
    placed = λ s. ground (
      arith,
      gid,
      curr,
      apply_command-status_after kv op op.command s e,
      fits-kept kv.gid kv.curr_config.num s (status kv s) (is_mine kv.gid kv.curr_config s)
          op.command b (p.placed s),
    );
    empty = λ at_zero s.
        apply_command-status_after kv op op.command s e
        ∙ none_kept kv.gid kv.curr_config.num s (status kv s) op.command b
            (p.empty (ground arith) s);
  }

  Sound-brought :
      (config : Config)
      → brings op.command kv.curr_config.num ≡ some config
      → Configured kv next.0 (some config)
      → AllWorking kv
      → Sound kv
      → Sound next.0
  Sound-brought config b (advances _ gid curr prev follows) w p = record {
    consecutive = inr (ground arith);
    placed = λ s. ground (
      arith,
      gid,
      curr,
      apply_command-status_after kv op op.command s e,
      fits-brought kv.gid kv.curr_config.num s (status kv s) config op.command b (w s)
          (λ at_zero. p.empty at_zero s),
    );
    empty = λ at_zero s. absurd (ground arith);
  }

  -- Keeps the invariant, if every shard is WORKING whenever the configuration changes.
  apply_op-Sound :
      ((config : Config) → brings op.command kv.curr_config.num ≡ some config → AllWorking kv)
      → Sound kv
      → Sound next.0
  apply_op-Sound ready p =
      by_configuration (brings op.command kv.curr_config.num) refl
        (apply_command-Configured kv op op.command e)
    where
      by_configuration :
          (c : Option Config)
          → brings op.command kv.curr_config.num ≡ c
          → Configured kv next.0 c
          → Sound next.0
      by_configuration none b c = Sound-kept b c p
      by_configuration (some config) b c = Sound-brought config b c (ready config b) p

  -- While the configuration stays, shards that are all WORKING stay so.
  apply_op-AllWorking :
      next.0.curr_config.num ≡ kv.curr_config.num → AllWorking kv → AllWorking next.0
  apply_op-AllWorking same w s =
      by_configuration (brings op.command kv.curr_config.num) refl
        (apply_command-Configured kv op op.command e)
    where
      by_configuration :
          (c : Option Config)
          → brings op.command kv.curr_config.num ≡ c
          → Configured kv next.0 c
          → works (status next.0 s) ≡ true
      by_configuration none b c = ground (
        arith,
        apply_command-status_after kv op op.command s e,
        works-kept kv.gid kv.curr_config.num s (status kv s) op.command b (w s),
      )
      by_configuration (some config) b (advances _ gid curr prev follows) = absurd (ground arith)

  -- The configuration is never an older one.
  pub num_grows : kv.curr_config.num ≤ next.0.curr_config.num
  num_grows =
      by_configuration (brings op.command kv.curr_config.num)
        (apply_command-Configured kv op op.command e)
    where
      by_configuration :
          (c : Option Config) → Configured kv next.0 c → kv.curr_config.num ≤ next.0.curr_config.num
      by_configuration none (stays gid curr prev) = ground arith
      by_configuration (some config) (advances _ gid curr prev follows) = ground arith

module _ (kv : ShardKv) (op : Op) (next : ShardKv × WaitChResponse)
    (e : apply_op kv op ≡ ok next) where
  pub brings_nothing :
      next.0.curr_config.num ≡ kv.curr_config.num → brings op.command kv.curr_config.num ≡ none
  brings_nothing same =
      by_configuration (brings op.command kv.curr_config.num)
        (apply_command-Configured kv op op.command e)
    where
      by_configuration : (c : Option Config) → Configured kv next.0 c → c ≡ none
      by_configuration none (stays gid curr prev) = refl
      by_configuration (some config) (advances _ gid curr prev follows) = absurd (ground arith)

-- The committed operations between two states of a server, and the goroutines that end.
pub data Ran (kv : ShardKv) : ShardKv → Type 0 where
  here : Ran kv kv
  step :
      {u v : ShardKv} (op : Op) (reply : WaitChResponse)
      → Ran kv u
      → apply_op u op ≡ ok (v, reply)
      → Ran kv v
  ended : {u v : ShardKv} (t : Task) → Ran kv u → Ends u t → end_task u t ≡ v → Ran kv v

pub Ran-num : {kv v : ShardKv} → Ran kv v → kv.curr_config.num ≤ v.curr_config.num
Ran-num here = omega arith
Ran-num {kv} {v} (step {u} op reply ran e) = omega (arith, Ran-num ran, num_grows u op (v, reply) e)
Ran-num {kv} {v} (ended {u} t ran ends e) =
    subst (λ w. kv.curr_config.num ≤ w.curr_config.num) e (Ran-num ran)

Ran-AllWorking :
    {kv v : ShardKv}
    → Ran kv v
    → v.curr_config.num ≡ kv.curr_config.num
    → AllWorking kv
    → AllWorking v
Ran-AllWorking here same w = w
Ran-AllWorking {kv} {v} (step {u} op reply ran e) same w =
    let upto = Ran-num ran in
    let last = num_grows u op (v, reply) e in
    apply_op-AllWorking u op (v, reply) e (omega arith) (Ran-AllWorking ran (omega arith) w)
Ran-AllWorking {kv} {v} (ended {u} t ran ends e) same w =
    subst (λ x. AllWorking x) e (Ran-AllWorking ran (ap (λ x. x.curr_config.num) e ∙ same) w)

pub all_working-works :
    (shards : Shards) (s : ℕ)
    → all_working shards ≡ true
    → works (shard_status (lookup s shards)) ≡ true
unfolding all_working lookup
all_working-works [] s h = refl
all_working-works ((i, shard) ∷ shards) s h = ground (arith, all_working-works shards s)

fetch_round_lem :
    (kv : ShardKv) (is_leader : Bool) (query : ℕ → Config) (op : Op)
    → fetch_round kv is_leader query ≡ ok (some op)
    → (all_working kv.shards ≡ true)
      × (op ≡ internal_op (update_config (query (suc kv.curr_config.num))))
      × ((query (suc kv.curr_config.num)).num ≡ suc kv.curr_config.num)
unfolding fetch_round
fetch_round_lem kv is_leader query op e = ground arith

-- An operation that the log of a group may hold behind the state `u`: any one but UPDATE_CONFIG, or one
-- that fetchNextConfig started at a state of the leader from which committed operations led to `u`.
pub data Allowed (u : ShardKv) (op : Op) : Type 0 where
  not_update : ((version : ℕ) → brings op.command version ≡ none) → Allowed u op
  fetched :
      (leader : ShardKv) (query : ℕ → Config)
      → Ran leader u
      → fetch_round leader true query ≡ ok (some op)
      → Allowed u op

-- The states of a server that applies such a log, and whose goroutines end as their loops say.
pub data Reached (start : ShardKv) : ShardKv → Type 0 where
  here : Reached start start
  next :
      {u v : ShardKv} (op : Op) (reply : WaitChResponse)
      → Reached start u
      → Allowed u op
      → apply_op u op ≡ ok (v, reply)
      → Reached start v
  ended :
      {u v : ShardKv} (t : Task) → Reached start u → Ends u t → end_task u t ≡ v → Reached start v

pub Allowed-AllWorking :
    (u : ShardKv) (op : Op) (config : Config)
    → Allowed u op
    → brings op.command u.curr_config.num ≡ some config
    → AllWorking u
Allowed-AllWorking u op config (not_update never) b =
    absurd (ground (arith, never u.curr_config.num))
Allowed-AllWorking u op config (fetched leader query ran e) b =
    let (all, is_update, follows) = fetch_round_lem leader true query op e in
    let upto = Ran-num ran in
    Ran-AllWorking ran (ground (arith, is_update, follows, b))
      (λ s. all_working-works leader.shards s all)

end_task-Sound : (u : ShardKv) (t : Task) → Sound u → Sound (end_task u t)
end_task-Sound u t p = record { consecutive = p.consecutive; placed = p.placed; empty = p.empty }

-- A server whose log holds only operations that clients, transfers and fetchNextConfig start has at
-- every state consecutive configurations, and exactly the shards that its configuration gives to other
-- groups are LEAVING; it has no shard before the first configuration.
pub Reached-Sound : {start v : ShardKv} → Sound start → Reached start v → Sound v
Reached-Sound p here = p
Reached-Sound {start} {v} p (next {u} op reply run allowed e) =
    apply_op-Sound u op (v, reply) e (λ config b. Allowed-AllWorking u op config allowed b)
      (Reached-Sound p run)
Reached-Sound {start} {v} p (ended {u} t run ends e) =
    subst (λ w. Sound w) e (end_task-Sound u t (Reached-Sound p run))
