-- ===== src/ShardCtrler/Clerk/Query.antt =====
-- Query of src/shardctrler/client.go ends by itself, and what its result means.
use mit_distributed_system.Prelude.{
  ℕ, zero, suc, ◌+◌, ◌*◌, ◌≤◌, ◌<◌, ℤ, ◌≡◌, subst, refl, ◌⊎◌, inl, inr, Option, none, some, arith,
  Option-cases,
}
use mit_distributed_system.Service.Calls.{Calls, ended}
use mit_distributed_system.ShardCtrler.Defs.{Config, empty_config, Command, Op}
use mit_distributed_system.ShardCtrler.Clerk.{
  Clerk, QueryReply, accepted, try_each, accept, round, round_calls, query_rounds, retry_max_time,
  request, query,
}

module _ (calls : Calls QueryReply) where
  -- One of the servers accepted, between two call numbers.
  pub record Accepts (ck : Clerk) (first last : ℕ) (found : Clerk × Config) : Type 0 where
    pub t : ℕ
    pub s : ℕ
    pub after_first : first ≤ t
    pub before_last : t < last
    pub in_range : s < ck.servers
    pub accepts : accepted (calls t s) ≡ some found.1
    pub noted : found.0 ≡ accept ck s

  -- No server accepted in the round that starts at `now`.
  pub record Refuses (ck : Clerk) (now : ℕ) : Type 0 where
    pub leader_refuses : accepted (calls now ck.last_leader) ≡ none
    pub each_refuses : (s : ℕ) → s < ck.servers → accepted (calls (suc now + s) s) ≡ none

module _ (calls : Calls QueryReply) where
  try_each-none :
      (now index left s : ℕ)
      → try_each calls now index left ≡ none
      → s < left
      → accepted (calls (now + s) (index + s)) ≡ none
  unfolding try_each
  try_each-none now index zero s e h = absurd (omega arith)
  try_each-none now index (suc left) zero e h =
      ground (arith, Option-cases (accepted (calls now index)))
  try_each-none now index (suc left) (suc s) e h =
      elim (Option-cases (accepted (calls now index))) [
        | inr (config, found) ↦ absurd (ground arith)
        | inl refused ↦ ground (arith, try_each-none (suc now) (suc index) left s)
      ]

  try_each-some :
      (now index left i : ℕ) (config : Config)
      → try_each calls now index left ≡ some (i, config)
      → (k : ℕ) × (k < left) × (i ≡ index + k) × (accepted (calls (now + k) i) ≡ some config)
  unfolding try_each
  try_each-some now index zero i config e = absurd (ground arith)
  try_each-some now index (suc left) i config e = elim (Option-cases (accepted (calls now index))) [
    | inr (c, found) ↦ (0, ground arith, ground arith, ground arith)
    | inl refused ↦
        let (k, h, at, good) = try_each-some (suc now) (suc index) left i config (ground arith) in
        (suc k, omega arith, omega arith, ground (arith, good))
  ]

  -- What the loop of Query comes to, with `retries` rounds left.
  abbrev pub Given : Clerk → ℕ → ℕ → Clerk × Config → Type 0
  Given ck retries now found =
      Accepts calls ck now (now + retries * round_calls ck) found
      ⊎ ((found ≡ (ck, empty_config))
          × ((r : ℕ) → r < retries → Refuses calls ck (now + r * round_calls ck)))

  module _ (ck : Clerk) (inside : ck.last_leader < ck.servers) where
    pub round-Accepts :
        (now : ℕ) (found : Clerk × Config)
        → round calls now ck ≡ some found
        → Accepts calls ck now (now + round_calls ck) found
    unfolding round
    round-Accepts now found e = elim (Option-cases (accepted (calls now ck.last_leader))) [
      | inr (config, good) ↦ record {
        t = now;
        s = ck.last_leader;
        after_first = omega arith;
        before_last = omega arith;
        in_range = inside;
        accepts = ground arith;
        noted = ground arith;
      }
      | inl refused ↦ elim (Option-cases (try_each calls (suc now) 0 ck.servers)) [
        | inl nobody ↦ absurd (ground arith)
        | inr ((i, config), good) ↦
            let (k, h, at, good') = try_each-some (suc now) 0 ck.servers i config good in
            record {
              t = suc now + k;
              s = i;
              after_first = omega arith;
              before_last = omega arith;
              in_range = omega arith;
              accepts = ground arith;
              noted = ground arith;
            }
      ]
    ]

    pub round-Refuses : (now : ℕ) → round calls now ck ≡ none → Refuses calls ck now
    unfolding round
    round-Refuses now e = record {
      leader_refuses = elim (Option-cases (accepted (calls now ck.last_leader))) [
        | inr (config, good) ↦ absurd (ground arith)
        | inl refused ↦ refused
      ];
      each_refuses = λ s h.
          subst (λ i. accepted (calls (suc now + s) i) ≡ none) (omega arith)
            (try_each-none (suc now) 0 ck.servers s (ground arith) h);
    }

    later_Given :
        (retries now : ℕ) (found : Clerk × Config)
        → Refuses calls ck now
        → Given ck retries (now + round_calls ck) found
        → Given ck (suc retries) now found
    later_Given retries now found refused (inl a) = inl (record {
      t = a.t;
      s = a.s;
      after_first = omega (arith, a.after_first);
      before_last = omega (arith, a.before_last);
      in_range = a.in_range;
      accepts = a.accepts;
      noted = a.noted;
    })
    later_Given retries now found refused (inr (gave_up, all)) = inr (gave_up, each)
      where
        each : (r : ℕ) → r < suc retries → Refuses calls ck (now + r * round_calls ck)
        each zero h = subst (Refuses calls ck) (omega arith) refused
        each (suc r) h = subst (Refuses calls ck) (omega arith) (all r (omega arith))

    query_rounds-Given :
        (retries now : ℕ) → Given ck retries now (query_rounds calls now retries ck)
    unfolding query_rounds
    query_rounds-Given zero now = inr (refl, λ r h. absurd (omega arith))
    query_rounds-Given (suc retries) now =
        by_round (round calls now ck) refl (query_rounds-Given retries (now + round_calls ck))
      where
        by_round :
            (o : Option (Clerk × Config))
            → round calls now ck ≡ o
            → Given ck retries
                (now + round_calls ck)
                (query_rounds calls (now + round_calls ck) retries ck)
            → Given ck (suc retries) now (elim o [
              | none ↦ query_rounds calls (now + round_calls ck) retries ck
              | some found ↦ found
            ])
        by_round none e rest = later_Given retries now _ (round-Refuses now e) rest
        by_round (some found) e rest =
            let a = round-Accepts now found e in
            inl (record {
              t = a.t;
              s = a.s;
              after_first = a.after_first;
              before_last = omega (arith, a.before_last);
              in_range = a.in_range;
              accepts = a.accepts;
              noted = a.noted;
            })

-- Query always returns: either with the configuration that a server accepted, within five rounds over the
-- servers, and then that server is the last leader and the next request has the next number; or with the
-- zero Config and an unchanged clerk, and then in none of the five rounds a server accepted.
pub query-Given :
    (net : Op → Calls QueryReply) (now : ℕ) (ck : Clerk) (num : ℤ)
    → ck.last_leader < ck.servers
    → (found : Clerk × Config) × (query net now ck num ≡ ended found)
      × Given (net (request ck (Command.query num))) ck retry_max_time now found
unfolding query
query-Given net now ck num h =
    let calls = net (request ck (Command.query num)) in
    (
      query_rounds calls now retry_max_time ck,
      ground arith,
      query_rounds-Given calls ck h retry_max_time now,
    )
