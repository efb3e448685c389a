-- ===== src/ShardKv/Clerk/Retry.antt =====
-- The loops of src/shardkv/client.go end when the group that the controller names for the key answers.
use mit_distributed_system.Prelude.{
  ℕ, zero, suc, ◌+◌, ◌≤◌, ◌<◌, ◌≡◌, ◌≢◌, subst, ap, inl, inr, Bool, Option, none, some, List,
  length, get_elem?, arith, Option-cases,
}
use mit_distributed_system.Gob.{Bytes}
use mit_distributed_system.Assoc.{nat_key}
use mit_distributed_system.Service.Calls.{Loop, ended}
use mit_distributed_system.ShardCtrler.Defs.{Config, n_shards}
use mit_distributed_system.ShardKv.Defs.{Op, Err}
use mit_distributed_system.ShardKv.Clerk.{
  Clerk, GetReply, Reaction, gives, breaks, try_servers, servers_of, rounds, finish, ask_get,
  ask_put_append, get, put_append,
}
use mit_distributed_system.ShardKv.Clerk.Servers.{
  servers_of_total, try_servers_sound, try_servers_total,
}

module _ {R : Type 0} (ask : ℕ → ℕ → Bytes → Reaction R) (key : Bytes) where
  -- In the round `now` one of the servers that `config` names for the key answers with a result.
  pub record Served (config : Config) (now : ℕ) (r : R) : Type 0 where
    pub names : List Bytes
    pub si : ℕ
    pub name : Bytes
    pub known : servers_of config key ≡ some names
    pub member : get_elem? names si ≡ some name
    pub answered : ask now si name ≡ gives r

module _ {R : Type 0} (ask : ℕ → ℕ → Bytes → Reaction R) (key : Bytes) where
  -- The loop ended with the answer of a server in some round, whose configuration the clerk keeps.
  abbrev pub Ends : ℕ → Loop (Config × R) → Type 0
  Ends first loop =
      (now : ℕ) × (config : Config) × (r : R) × (first ≤ now)
      × Served ask key config now r
      × (loop ≡ ended (config, r))

module _ {R : Type 0} (ask : ℕ → ℕ → Bytes → Reaction R) (key : Bytes) (latest_config : ℕ → Config)
    (steady : ℕ) (ten : (t : ℕ) → length (latest_config t).shards ≡ n_shards)
    (no_break : (t si : ℕ) (name : Bytes) → steady ≤ t → ask t si name ≢ breaks)
    (serves : (t : ℕ) → steady ≤ t → (r : R) × Served ask key (latest_config t) (suc t) r) where
  -- A round in which a server answers, and another one.
  rounds_stop :
      (fuel now : ℕ) (config : Config) (names : List Bytes) (r : R)
      → servers_of config key ≡ some names
      → try_servers ask now 0 names ≡ some r
      → Ends ask key now (rounds ask latest_config (suc fuel) now config key)
  unfolding rounds
  rounds_stop fuel now config names r known found =
      let (k, name, at, good) = try_servers_sound ask now 0 names r found in
      (
        now,
        config,
        r,
        omega arith,
        record {
          names = names;
          si = k;
          name = name;
          known = known;
          member = at;
          answered = subst (λ i. ask now i name ≡ gives r) (omega arith) good;
        },
        ground arith,
      )

  rounds_goes_on :
      (fuel now : ℕ) (config : Config) (names : List Bytes)
      → servers_of config key ≡ some names
      → try_servers ask now 0 names ≡ none
      → Ends ask key (suc now) (rounds ask latest_config fuel (suc now) (latest_config now) key)
      → Ends ask key now (rounds ask latest_config (suc fuel) now config key)
  unfolding rounds
  rounds_goes_on fuel now config names known nobody (t, c, r, later, served, result) =
      (t, c, r, omega arith, served, ground arith)

  rounds-Served :
      (fuel now : ℕ) (config : Config) (r : R)
      → steady ≤ now
      → Served ask key config now r
      → Ends ask key now (rounds ask latest_config (suc fuel) now config key)
  rounds-Served fuel now config r late served =
      let (r', found) =
        try_servers_total ask now 0 served.si served.names served.name r served.member
          (subst (λ i. ask now i served.name ≡ gives r) (omega arith) served.answered)
          (λ j other. no_break now j other late) in
      rounds_stop fuel now config served.names r' served.known found

  rounds-Ends :
      (wait fuel now : ℕ) (config : Config)
      → length config.shards ≡ n_shards
      → steady ≤ now + wait
      → suc wait < fuel
      → Ends ask key now (rounds ask latest_config fuel now config key)
  rounds-Ends wait zero now config full late enough = absurd (omega arith)
  rounds-Ends zero (suc zero) now config full late enough = absurd (omega arith)
  rounds-Ends zero (suc (suc fuel)) now config full late enough =
      let (names, known) = servers_of_total config key full in
      elim (Option-cases (try_servers ask now 0 names)) [
        | inr (r, found) ↦ rounds_stop (suc fuel) now config names r known found
        | inl nobody ↦
            let (r, served) = serves now (omega arith) in
            rounds_goes_on (suc fuel) now config names known nobody
              (rounds-Served fuel (suc now) (latest_config now) r (omega arith) served)
      ]
  rounds-Ends (suc wait) (suc fuel) now config full late enough =
      let (names, known) = servers_of_total config key full in
      elim (Option-cases (try_servers ask now 0 names)) [
        | inr (r, found) ↦ rounds_stop fuel now config names r known found
        | inl nobody ↦ rounds_goes_on fuel now config names known nobody (
            rounds-Ends wait fuel (suc now) (latest_config now) (ten now) (omega arith)
              (omega arith))
      ]

-- What a finished call leaves: the result is what a server of the key's group answered, by the
-- configuration that the clerk has then, and the next request has the next number.
abbrev pub Answered :
    {R : Type 0} → (ℕ → ℕ → Bytes → Reaction R) → Bytes → Clerk → Loop (Clerk × R) → Type 0
Answered {R} ask key ck loop =
    (now : ℕ) × (config : Config) × (r : R) × Served ask key config now r
    × (loop ≡ ended (record ck { config = config; request_id = suc ck.request_id }, r))

finish-Answered :
    {R : Type 0} (ask : ℕ → ℕ → Bytes → Reaction R) (key : Bytes) (ck : Clerk)
    (loop : Loop (Config × R))
    → Ends ask key 0 loop
    → Answered ask key ck (finish ck loop)
unfolding finish
finish-Answered ask key ck loop (now, config, r, later, served, result) =
    (now, config, r, served, ap (finish ck) result)

-- Every configuration is an array of ten shards. If from some round on no server answers this Get with
-- ErrWrongGroup, and in each round a server of the group that the controller last named for the key's
-- shard answers it with OK or ErrNoKey, then Get does not panic and returns within two rounds more; its
-- value is what a server answered that the clerk's configuration then names for the key, and the next
-- request has the next number.
pub get-Answered :
    (net : Op → ℕ → ℕ → Bytes → Option GetReply) (latest_config : ℕ → Config) (ck : Clerk)
    (key : Bytes) (steady : ℕ)
    → length ck.config.shards ≡ n_shards
    → ((t : ℕ) → length (latest_config t).shards ≡ n_shards)
    → ((t si : ℕ) (name : Bytes) → steady ≤ t → ask_get net ck key t si name ≢ breaks)
    → ((t : ℕ)
        → steady ≤ t
        → (r : Bytes) × Served (ask_get net ck key) key (latest_config t) (suc t) r)
    → Answered (ask_get net ck key) key ck (get net latest_config (2 + steady) ck key)
unfolding get
get-Answered net latest_config ck key steady full ten no_break serves =
    finish-Answered (ask_get net ck key) key ck _ (
      rounds-Ends (ask_get net ck key) key latest_config steady ten no_break serves steady
        (2 + steady) 0 ck.config full (omega arith) (omega arith))

-- The same for PutAppend, which only OK ends.
pub put_append-Answered :
    (net : Op → ℕ → ℕ → Bytes → Option Err) (latest_config : ℕ → Config) (ck : Clerk)
    (key value : Bytes) (is_put : Bool) (steady : ℕ)
    → length ck.config.shards ≡ n_shards
    → ((t : ℕ) → length (latest_config t).shards ≡ n_shards)
    → ((t si : ℕ) (name : Bytes)
        → steady ≤ t
        → ask_put_append net ck key value is_put t si name ≢ breaks)
    → ((t : ℕ)
        → steady ≤ t
        → (r : Unit) × Served
            (ask_put_append net ck key value is_put)
            key
            (latest_config t)
            (suc t)
            r)
    → Answered
        (ask_put_append net ck key value is_put)
        key
        ck
        (put_append net latest_config (2 + steady) ck key value is_put)
unfolding put_append
put_append-Answered net latest_config ck key value is_put steady full ten no_break serves =
    finish-Answered (ask_put_append net ck key value is_put) key ck _ (
      rounds-Ends (ask_put_append net ck key value is_put) key latest_config steady ten no_break
        serves steady (2 + steady) 0 ck.config full (omega arith) (omega arith))
