-- ===== src/ShardCtrler/Apply/History.antt =====
-- The history of configurations that a ShardCtrler (src/shardctrler/server.go) keeps.
use mit_distributed_system.Prelude.{
  ℕ, zero, suc, ◌+◌, ◌<◌, ◌≡◌, refl, sym, ◌∙◌, subst, ℤ, pos, negsuc, Bool, true, false, none, some,
  List, [], ◌∷◌, ◌++◌, leb, ltb, length, arith, Bool-cases, length-set, append-nil, inl, inr,
  Outcome, ok, fatal, OnOk, OnOk-bind, OnOk-mono, length-append,
}
use mit_distributed_system.Assoc.{lookup, put, remove, lookup-put, lookup-remove, nat_key}
use mit_distributed_system.Service.Requests.{note_request}
use mit_distributed_system.Service.WaitChs.{send}
use mit_distributed_system.Raft.State.{ApplyMsg, command_msg, snapshot_msg}
use mit_distributed_system.ShardCtrler.Defs.{
  n_shards, Groups, Config, Command, join, leave, move, query, Op, ShardCtrler,
}
use mit_distributed_system.ShardCtrler.Rebalance.Initial.{Distinct, length-rebalance_shard}
use mit_distributed_system.ShardCtrler.Apply.{
  create_new_config, add_groups, remove_groups, join_config, leave_config, move_config, config_at,
  last_config, new_config, additions, answer_config, apply_op, apply_message, start_server,
}

anything : {A : Type 0} (o : Outcome A) → OnOk o (λ a. Unit {0})
anything (ok a) = tt
anything fatal = tt

-- The configuration number `n`: its groups exist once and it places every shard.
pub record Sound (n : ℕ) (config : Config) : Type 0 where
  pub numbered : config.num ≡ n
  pub full : length config.shards ≡ n_shards
  pub distinct : Distinct config.groups

-- Configurations that are numbered from `n` on.
abbrev pub History : ℕ → List Config → Type 0
History n [] = Unit {0}
History n (config ∷ configs) = Sound n config × History (suc n) configs

-- At least the configuration 0.
abbrev pub Started : List Config → Type 0
Started configs = (0 < length configs) × History 0 configs

History-append :
    (n : ℕ) (configs new : List Config)
    → History n configs
    → History (n + length configs) new
    → History n (configs ++ new)
History-append n [] new h s = subst (λ k. History k new) (omega arith) s
History-append n (c ∷ configs) new h s =
    (h.0, History-append (suc n) configs new h.1 (subst (λ k. History k new) (omega arith) s))

config_at-Sound :
    (n i : ℕ) (configs : List Config)
    → History n configs
    → OnOk (config_at configs i) (Sound (n + i))
unfolding config_at
config_at-Sound n i [] h = tt
config_at-Sound n zero (c ∷ configs) h = subst (λ k. Sound k c) (omega arith) h.0
config_at-Sound n (suc i) (c ∷ configs) h =
    subst (λ k. OnOk (config_at configs i) (Sound k)) (omega arith)
      (config_at-Sound (suc n) i configs h.1)

-- The last one is one below the length.
abbrev pub Newest : List Config → Config → Type 0
Newest configs config = Sound (length configs) (create_new_config config)

pub last_config-Newest :
    (configs : List Config) → History 0 configs → OnOk (last_config configs) (Newest configs)
unfolding last_config create_new_config
last_config-Newest [] h = tt
last_config-Newest (c ∷ configs) h =
    OnOk-mono (Sound (0 + length configs)) (Newest (c ∷ configs))
      (config_at (c ∷ configs) (length configs))
      (config_at-Sound 0 (length configs) (c ∷ configs) h)
      (λ config s. record {
        numbered = omega (arith, s.numbered);
        full = s.full;
        distinct = s.distinct;
      })

Distinct-put :
    (gid : ℕ) (servers : List (List ℕ)) (groups : Groups)
    → Distinct groups
    → Distinct (put gid servers groups)
unfolding put lookup
Distinct-put gid servers [] d = (refl, tt)
Distinct-put gid servers ((g, s) ∷ groups) d =
    ground (arith, Distinct-put gid servers groups d.1, lookup-put gid g servers groups)

Distinct-remove : (gid : ℕ) (groups : Groups) → Distinct groups → Distinct (remove gid groups)
unfolding remove
Distinct-remove gid [] d = tt
Distinct-remove gid ((g, s) ∷ groups) d =
    ground (arith, Distinct-remove gid groups d.1, lookup-remove gid g groups)

Distinct-add_groups :
    (servers groups : Groups) → Distinct groups → Distinct (add_groups servers groups)
unfolding add_groups
Distinct-add_groups [] groups d = d
Distinct-add_groups ((g, s) ∷ servers) groups d =
    Distinct-add_groups servers (put g s groups) (Distinct-put g s groups d)

Distinct-remove_groups :
    (gids : List ℕ) (groups : Groups) → Distinct groups → Distinct (remove_groups gids groups)
unfolding remove_groups
Distinct-remove_groups [] groups d = d
Distinct-remove_groups (g ∷ gids) groups d =
    Distinct-remove_groups gids (remove g groups) (Distinct-remove g groups d)

module _ (n : ℕ) (config : Config) (s : Sound n (create_new_config config)) where
  join_config-Sound : (servers : Groups) → Sound n (join_config servers config)
  unfolding join_config create_new_config
  join_config-Sound servers = record {
    numbered = s.numbered;
    full = length-rebalance_shard _ config.shards true _ s.full;
    distinct = Distinct-add_groups servers config.groups s.distinct;
  }

  leave_config-Sound : (gids : List ℕ) → Sound n (leave_config gids config)
  unfolding leave_config create_new_config
  leave_config-Sound gids = record {
    numbered = s.numbered;
    full = length-rebalance_shard _ config.shards false false s.full;
    distinct = Distinct-remove_groups gids config.groups s.distinct;
  }

  move_config-Sound : (shard : ℤ) (gid : ℕ) → OnOk (move_config shard gid config) (Sound n)
  unfolding move_config create_new_config
  move_config-Sound (negsuc k) gid = tt
  move_config-Sound (pos shard) gid = elim (Bool-cases (ltb shard (length config.shards))) [
    | inl inside ↦ rw inside (record {
      numbered = s.numbered;
      full = length-set config.shards shard gid ∙ s.full;
      distinct = s.distinct;
    })
    | inr outside ↦ rw outside tt
  ]

  new_config-History : (command : Command) → OnOk (new_config command config) (History n)
  unfolding new_config
  new_config-History (join servers) = (join_config-Sound servers, tt)
  new_config-History (leave gids) = (leave_config-Sound gids, tt)
  new_config-History (move shard gid) =
      OnOk-bind (Sound n) (History n) (move_config shard gid config) _ (move_config-Sound shard gid)
        (λ new t. (t, tt))
  new_config-History (query k) = tt

-- New configurations may be extends, and nothing else happens to the old ones.
pub record Grown (old new : List Config) : Type 0 where
  pub added : List Config
  pub extends : new ≡ old ++ added
  pub started : Started new

Grown-refl : (configs : List Config) → Started configs → Grown configs configs
Grown-refl configs s = record { added = []; extends = sym (append-nil configs); started = s }

additions-History :
    (fresh : Bool) (command : Command) (configs : List Config)
    → Started configs
    → OnOk (additions fresh command configs) (History (length configs))
unfolding additions
additions-History false command configs s = tt
additions-History true command configs s =
    OnOk-bind (Newest configs) (History (length configs)) (last_config configs) _
      (last_config-Newest configs s.1)
      (λ config newest. new_config-History (length configs) config newest command)

pub apply_op-Grown :
    (sc : ShardCtrler) (op : Op)
    → Started sc.configs
    → OnOk (apply_op sc op) (λ next. Grown sc.configs next.0.configs)
unfolding apply_op
apply_op-Grown sc op s =
    let fresh = (note_request op.client_id op.request_id sc.latest_applied_request).1 in
    OnOk-bind (History (length sc.configs)) _ (additions fresh op.command sc.configs) _
      (additions-History fresh op.command sc.configs s)
      (λ added h.
        OnOk-bind (λ config. Unit {0}) _ (answer_config op.command (sc.configs ++ added)) _
          (anything _)
          (λ config any. record {
            added = added;
            extends = refl;
            started = (
              omega (arith, s.0, length-append sc.configs added),
              History-append 0 sc.configs added s.1 (subst (λ k. History k added) (omega arith) h),
            );
          }))

-- One message: the history starts as it did.
pub apply_message-Grown :
    (sc : ShardCtrler) (m : ApplyMsg Op)
    → Started sc.configs
    → OnOk (apply_message sc m) (λ sc'. Grown sc.configs sc'.configs)
unfolding apply_message
apply_message-Grown sc (command_msg none index) s =
    elim (Bool-cases (leb index sc.latest_applied_raft_index)) [
      | inl old ↦ rw old (Grown-refl sc.configs s)
      | inr new ↦ rw new tt
    ]
apply_message-Grown sc (command_msg (some op) index) s =
    elim (Bool-cases (leb index sc.latest_applied_raft_index)) [
      | inl old ↦ rw old (Grown-refl sc.configs s)
      | inr new ↦ rw new (
          OnOk-bind _ (λ sc'. Grown sc.configs sc'.configs) (apply_op sc op) _
            (apply_op-Grown sc op s)
            (λ next g.
              OnOk-bind (λ chs. Unit {0}) _ (send index next.1 next.0.wait_chs) _ (anything _)
                (λ chs any. g)))
    ]
apply_message-Grown sc (snapshot_msg snapshot term index) s = Grown-refl sc.configs s

pub start_server-Started : (me : ℕ) → Started (start_server me).configs
unfolding start_server
start_server-Started me =
    (omega arith, (record { numbered = refl; full = refl; distinct = tt }, tt))
