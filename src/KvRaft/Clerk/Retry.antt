-- ===== src/KvRaft/Clerk/Retry.antt =====
-- The retry loop of src/kvraft/client.go ends when one server answers.
use mit_distributed_system.Prelude.{
  ℕ, zero, suc, ◌+◌, ◌-◌, ◌≤◌, ◌<◌, ◌≡◌, ◌≢◌, sym, ap, ◌∙◌, inl, inr, Bool, leb, none, some,
  if◌then◌else◌, arith, Option-cases,
}
use mit_distributed_system.Gob.{Bytes}
use mit_distributed_system.Service.Calls.{Calls, Loop, ended}
use mit_distributed_system.KvRaft.Defs.{Err}
use mit_distributed_system.KvRaft.Clerk.{
  Clerk, GetArgs, GetReply, PutAppendArgs, increment_last_leader, retry, finish, get_result,
  put_append_result, get_args, put_append_args, get, put_append,
}

-- The calls that the loop makes from the server `l` before it comes to the server `i` of `n`.
abbrev distance : ℕ → ℕ → ℕ → ℕ
distance n l i = if leb l i then i - l else (n - l) + i

increment_last_leader_lem :
    (ck : Clerk) → ck.last_leader < ck.servers → (increment_last_leader ck).last_leader < ck.servers
unfolding increment_last_leader
increment_last_leader_lem ck h = ground arith

increment_last_leader-distance :
    (ck : Clerk) (i : ℕ)
    → ck.last_leader < ck.servers
    → i < ck.servers
    → ck.last_leader ≢ i
    → suc (distance ck.servers (increment_last_leader ck).last_leader i)
      ≡ distance ck.servers ck.last_leader i
unfolding increment_last_leader
increment_last_leader-distance ck i h g ne = ground arith

increment_last_leader_only :
    (ck : Clerk)
    → increment_last_leader ck ≡ record ck { last_leader = (increment_last_leader ck).last_leader }
unfolding increment_last_leader
increment_last_leader_only ck = ground arith

module _ {R : Type 0} (ask : Calls R) where
  -- The loop ends with what the server `s` answered to the call number `t`.
  pub record Ends (loop : Loop (Clerk × R)) (now : ℕ) (ck : Clerk) : Type 0 where
    pub t : ℕ
    pub s : ℕ
    pub r : R
    pub later : now ≤ t
    pub in_range : s < ck.servers
    pub answered : ask t s ≡ some r
    pub result : loop ≡ ended (record ck { last_leader = s }, r)

module _ {R : Type 0} (ask : Calls R) where
  retry_stops :
      (fuel now : ℕ) (ck : Clerk) (r : R)
      → ck.last_leader < ck.servers
      → ask now ck.last_leader ≡ some r
      → Ends ask (retry ask (suc fuel) now ck) now ck
  unfolding retry
  retry_stops fuel now ck r h e = record {
    t = now;
    s = ck.last_leader;
    r = r;
    later = omega arith;
    in_range = h;
    answered = e;
    result = ground arith;
  }

  retry_goes_on :
      (fuel now : ℕ) (ck : Clerk)
      → ck.last_leader < ck.servers
      → ask now ck.last_leader ≡ none
      → Ends ask
          (retry ask fuel (suc now) (increment_last_leader ck))
          (suc now)
          (increment_last_leader ck)
      → Ends ask (retry ask (suc fuel) now ck) now ck
  unfolding retry
  retry_goes_on fuel now ck h e ends =
      let same = increment_last_leader_only ck in
      record {
        t = ends.t;
        s = ends.s;
        r = ends.r;
        later = omega (arith, ends.later);
        in_range = ground (arith, same, ends.in_range);
        answered = ends.answered;
        result = ground (arith, same, ends.result);
      }

  -- From the time `steady` on the server `i` answers.
  module _ (i steady : ℕ) (serves : (t : ℕ) → steady ≤ t → ask t i ≢ none) where
    retry-distance :
        (fuel now : ℕ) (ck : Clerk)
        → steady ≤ now
        → ck.last_leader < ck.servers
        → i < ck.servers
        → distance ck.servers ck.last_leader i < fuel
        → Ends ask (retry ask fuel now ck) now ck
    retry-distance zero now ck late h g enough = absurd (omega arith)
    retry-distance (suc fuel) now ck late h g enough =
        elim (Option-cases (ask now ck.last_leader)) [
          | inr (r, e) ↦ retry_stops fuel now ck r h e
          | inl e ↦
              let elsewhere : ck.last_leader ≢ i =
                λ at_i. serves now late (ap (ask now) (sym at_i) ∙ e) in
              let same = increment_last_leader_only ck in
              let closer = increment_last_leader-distance ck i h g elsewhere in
              let inside = increment_last_leader_lem ck h in
              retry_goes_on fuel now ck h e (
                retry-distance fuel (suc now) (increment_last_leader ck) (omega arith)
                  (ground (arith, same, inside)) (ground (arith, same))
                  (ground (arith, same, closer)))
        ]

    -- The rounds before `steady`, and one round over the servers.
    retry-Ends :
        (wait fuel now : ℕ) (ck : Clerk)
        → steady ≤ now + wait
        → ck.last_leader < ck.servers
        → i < ck.servers
        → wait + ck.servers ≤ fuel
        → Ends ask (retry ask fuel now ck) now ck
    retry-Ends zero fuel now ck late h g enough =
        retry-distance fuel now ck (omega arith) h g (ground arith)
    retry-Ends (suc wait) zero now ck late h g enough = absurd (omega arith)
    retry-Ends (suc wait) (suc fuel) now ck late h g enough =
        elim (Option-cases (ask now ck.last_leader)) [
          | inr (r, e) ↦ retry_stops fuel now ck r h e
          | inl e ↦
              let same = increment_last_leader_only ck in
              let inside = increment_last_leader_lem ck h in
              retry_goes_on fuel now ck h e (
                retry-Ends wait fuel (suc now) (increment_last_leader ck) (omega arith)
                  (ground (arith, same, inside)) (ground (arith, same)) (ground (arith, same)))
        ]

-- What a finished call leaves: the result is what a server answered, this server is the last leader, and
-- the next request has the next number.
abbrev pub Finished : {R : Type 0} → Calls R → ℕ → Clerk → Loop (Clerk × R) → Type 0
Finished {R} ask now ck loop =
    (t : ℕ) × (s : ℕ) × (r : R) × (now ≤ t)
    × (s < ck.servers)
    × (ask t s ≡ some r)
    × (loop ≡ ended (record ck { last_leader = s; request_id = suc ck.request_id }, r))

finish-retry :
    {R : Type 0} (ask : Calls R) (now : ℕ) (ck : Clerk) (steady i : ℕ)
    → ck.last_leader < ck.servers
    → i < ck.servers
    → ((t : ℕ) → steady ≤ t → ask t i ≢ none)
    → Finished ask now ck (finish (retry ask ((steady - now) + ck.servers) now ck))
unfolding finish
finish-retry ask now ck steady i h g serves =
    let e =
      retry-Ends ask i steady serves (steady - now) ((steady - now) + ck.servers) now ck
        (omega arith) h g (omega arith) in
    (e.t, e.s, e.r, e.later, e.in_range, e.answered, ap finish e.result)

-- If from some time on one of the servers answers every try of this Get with OK or ErrNoKey, Get returns,
-- at the latest one round over the servers after that time; it returns what a server answered to the
-- request, "" for ErrNoKey, and then the next request has the next number.
pub get-Finished :
    (net : GetArgs → Calls GetReply) (ck : Clerk) (key : Bytes) (now steady i : ℕ)
    → ck.last_leader < ck.servers
    → i < ck.servers
    → ((t : ℕ) → steady ≤ t → get_result (net (get_args ck key) t i) ≢ none)
    → Finished
        (λ t s. get_result (net (get_args ck key) t s))
        now
        ck
        (get net ((steady - now) + ck.servers) now ck key)
unfolding get
get-Finished net ck key now steady i h g serves =
    finish-retry (λ t s. get_result (net (get_args ck key) t s)) now ck steady i h g serves

-- If from some time on one of the servers answers every try of this PutAppend with OK, PutAppend returns,
-- at the latest one round over the servers after that time; a server answered OK to the request, and
-- then the next request has the next number.
pub put_append-Finished :
    (net : PutAppendArgs → Calls Err) (ck : Clerk) (key value : Bytes) (is_put : Bool)
    (now steady i : ℕ)
    → ck.last_leader < ck.servers
    → i < ck.servers
    → ((t : ℕ)
        → steady ≤ t
        → put_append_result (net (put_append_args ck key value is_put) t i) ≢ none)
    → Finished
        (λ t s. put_append_result (net (put_append_args ck key value is_put) t s))
        now
        ck
        (put_append net ((steady - now) + ck.servers) now ck key value is_put)
unfolding put_append
put_append-Finished net ck key value is_put now steady i h g serves =
    finish-retry (λ t s. put_append_result (net (put_append_args ck key value is_put) t s)) now ck
      steady i h g serves
