-- ===== src/ShardKv/Clerk/Servers.antt =====
-- One round of the loops of src/shardkv/client.go: the servers of the key's group.
use mit_distributed_system.Prelude.{
  ℕ, zero, suc, ◌+◌, ◌≡◌, ◌≢◌, refl, subst, ◌⊎◌, inl, inr, some, List, [], ◌∷◌, length, get_elem?,
  get_elem?_total, arith, Option-cases,
}
use mit_distributed_system.Gob.{Bytes}
use mit_distributed_system.Assoc.{lookup, nat_key}
use mit_distributed_system.ShardCtrler.Defs.{Config, n_shards}
use mit_distributed_system.ShardKv.Keys.{key2shard, key2shard_bounds}
use mit_distributed_system.ShardKv.Clerk.{Reaction, gives, breaks, goes_on, try_servers, servers_of}

pub Reaction-cases :
    {R : Type 0} (a : Reaction R) → ((r : R) × (a ≡ gives r)) ⊎ (a ≡ breaks) ⊎ (a ≡ goes_on)
Reaction-cases (gives r) = inl (r, refl)
Reaction-cases breaks = inr (inl refl)
Reaction-cases goes_on = inr (inr refl)

-- A configuration with ten shards has a group for the key's shard, which has no servers if it does not
-- exist.
pub servers_of_total :
    (config : Config) (key : Bytes)
    → length config.shards ≡ n_shards
    → (names : List Bytes) × (servers_of config key ≡ some names)
unfolding servers_of
servers_of_total config key ten =
    let bound = key2shard_bounds key in
    let (gid, at) = get_elem?_total config.shards (key2shard key) (omega arith) in
    elim (Option-cases (lookup gid config.groups)) [
      | inl missing ↦ ([], ground arith)
      | inr (names, found) ↦ (names, ground arith)
    ]

module _ {R : Type 0} (ask : ℕ → ℕ → Bytes → Reaction R) where
  pub try_servers_sound :
      (now si : ℕ) (names : List Bytes) (r : R)
      → try_servers ask now si names ≡ some r
      → (k : ℕ) × (name : Bytes) × (get_elem? names k ≡ some name)
        × (ask now (si + k) name ≡ gives r)
  unfolding try_servers
  try_servers_sound now si [] r e = absurd (ground arith)
  try_servers_sound now si (name ∷ names) r e = elim (Reaction-cases (ask now si name)) [
    | inl (r', a) ↦ (0, name, refl, ground arith)
    | inr (inl a) ↦ absurd (ground arith)
    | inr (inr a) ↦
        let (k, name', at, good) = try_servers_sound now (suc si) names r (ground arith) in
        (suc k, name', at, subst (λ i. ask now i name' ≡ gives r) (omega arith) good)
  ]

  pub try_servers_total :
      (now si k : ℕ) (names : List Bytes) (name : Bytes) (r : R)
      → get_elem? names k ≡ some name
      → ask now (si + k) name ≡ gives r
      → ((j : ℕ) (other : Bytes) → ask now j other ≢ breaks)
      → (r' : R) × (try_servers ask now si names ≡ some r')
  unfolding try_servers
  try_servers_total now si k [] name r at good no_break = absurd (ground arith)
  try_servers_total now si zero (other ∷ names) name r at good no_break = (r, ground arith)
  try_servers_total now si (suc k) (other ∷ names) name r at good no_break =
      elim (Reaction-cases (ask now si other)) [
        | inl (r', a) ↦ (r', ground arith)
        | inr (inl a) ↦ absurd (no_break si other a)
        | inr (inr a) ↦
            let (r', e) =
              try_servers_total now (suc si) k names name r at
                (subst (λ i. ask now i name ≡ gives r) (omega arith) good) no_break in
            (r', ground arith)
      ]
