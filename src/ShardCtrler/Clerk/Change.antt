-- ===== src/ShardCtrler/Clerk/Change.antt =====
-- Join, Leave and Move of src/shardctrler/client.go: they end when a server accepts, and what becomes of
-- the one that follows a Query which gave up.
use mit_distributed_system.Prelude.{
  ℕ, zero, suc, ◌+◌, ◌-◌, ◌≤◌, ◌<◌, ℤ, pos, ◌≡◌, ap, ◌∙◌, ◌≢◌, refl, inl, inr, Bool, true, false,
  none, some, List, [], ◌++◌, append-nil, arith, Option-cases, ok, Outcome-cases,
}
use mit_distributed_system.Service.Requests.{note_request, note_request-repeated}
use mit_distributed_system.Service.Calls.{Calls, Loop, ended}
use mit_distributed_system.ShardCtrler.Defs.{
  Config, empty_config, Command, join, leave, move, Op, Err, WaitChResponse, ShardCtrler,
}
use mit_distributed_system.ShardCtrler.Apply.{apply_op, additions, answer_config}
use mit_distributed_system.ShardCtrler.Clerk.{
  Clerk, QueryReply, accepted, accept, round, round_calls, request, query, change_rounds, change,
}
use mit_distributed_system.ShardCtrler.Clerk.Query.{round-Accepts, round-Refuses, query-Given}

module _ (calls : Calls QueryReply) (ck : Clerk) where
  -- The loop ended because a server accepted.
  abbrev pub Changed : ℕ → Loop Clerk → Type 0
  Changed now loop =
      (t : ℕ) × (s : ℕ) × (config : Config) × (now ≤ t)
      × (s < ck.servers)
      × (accepted (calls t s) ≡ some config)
      × (loop ≡ ended (accept ck s))

module _ (calls : Calls QueryReply) (ck : Clerk) (inside : ck.last_leader < ck.servers) where
  -- From the time `steady` on the server `i` accepts.
  module _ (i steady : ℕ) (known : i < ck.servers)
      (serves : (t : ℕ) → steady ≤ t → accepted (calls t i) ≢ none) where
    round_changes :
        (fuel now : ℕ) (found : Clerk × Config)
        → round calls now ck ≡ some found
        → Changed calls ck now (change_rounds calls (suc fuel) now ck)
    unfolding change_rounds
    round_changes fuel now found good =
        let a = round-Accepts calls ck inside now found good in
        (a.t, a.s, found.1, a.after_first, a.in_range, a.accepts, ground (arith, a.noted))

    change_rounds-Changed :
        (wait fuel now : ℕ)
        → steady ≤ now + wait
        → wait < fuel
        → Changed calls ck now (change_rounds calls fuel now ck)
    unfolding change_rounds
    change_rounds-Changed wait zero now late enough = absurd (omega arith)
    change_rounds-Changed zero (suc fuel) now late enough =
        elim (Option-cases (round calls now ck)) [
          | inr (found, good) ↦ round_changes fuel now found good
          | inl refused ↦ absurd (
              serves (suc now + i) (omega arith)
                ((round-Refuses calls ck inside now refused).each_refuses i known))
        ]
    change_rounds-Changed (suc wait) (suc fuel) now late enough =
        elim (Option-cases (round calls now ck)) [
          | inr (found, good) ↦ round_changes fuel now found good
          | inl refused ↦
              let (t, s, config, later, in_range, accepts, result) =
                change_rounds-Changed wait fuel (now + round_calls ck) (omega arith)
                  (omega arith) in
              (t, s, config, omega arith, in_range, accepts, ground arith)
        ]

-- If from some time on one of the servers accepts every try of this Join, Leave or Move, it returns, in
-- at most one round more than the calls up to that time; a server accepted it, which is the last leader
-- then, and the next request has the next number.
pub change-Changed :
    (net : Op → Calls QueryReply) (now : ℕ) (ck : Clerk) (command : Command) (steady i : ℕ)
    → ck.last_leader < ck.servers
    → i < ck.servers
    → ((t : ℕ) → steady ≤ t → accepted (net (request ck command) t i) ≢ none)
    → Changed (net (request ck command)) ck now (change net (suc (steady - now)) now ck command)
unfolding change
change-Changed net now ck command steady i h known serves =
    let (t, s, config, later, in_range, accepts, result) =
      change_rounds-Changed (net (request ck command)) ck h i steady known serves (steady - now)
        (suc (steady - now)) now (omega arith) (omega arith) in
    (t, s, config, later, in_range, accepts, ground arith)

-- Whether a command is a change, that is not a query.
abbrev pub is_change : Command → Bool
is_change (join servers) = true
is_change (leave gids) = true
is_change (move shard gid) = true
is_change (Command.query num) = false

answer_change :
    (command : Command) (configs : List Config)
    → is_change command ≡ true
    → answer_config command configs ≡ ok empty_config
unfolding answer_config
answer_change (join servers) configs c = refl
answer_change (leave gids) configs c = refl
answer_change (move shard gid) configs c = refl
answer_change (Command.query num) configs c = cc

apply_op_repeated :
    (sc : ShardCtrler) (op : Op)
    → is_change op.command ≡ true
    → (note_request op.client_id op.request_id sc.latest_applied_request).1 ≡ false
    → (last : ShardCtrler × WaitChResponse) × (apply_op sc op ≡ ok last)
      × (last.0.configs ≡ sc.configs)
      × (last.1.err ≡ Err.ok)
unfolding apply_op additions
apply_op_repeated sc op c old =
    let requests = (note_request op.client_id op.request_id sc.latest_applied_request).0 in
    (
      (
        record sc { configs = sc.configs ++ []; latest_applied_request = requests },
        record { err = Err.ok; config = empty_config },
      ),
      rw (old, answer_change op.command (sc.configs ++ []) c) refl,
      append-nil sc.configs,
      refl,
    )

apply_op-note_request :
    (sc : ShardCtrler) (op : Op) (next : ShardCtrler × WaitChResponse)
    → apply_op sc op ≡ ok next
    → next.0.latest_applied_request
      ≡ (note_request op.client_id op.request_id sc.latest_applied_request).0
unfolding apply_op
apply_op-note_request sc op next e =
    let fresh = (note_request op.client_id op.request_id sc.latest_applied_request).1 in
    elim (Outcome-cases (additions fresh op.command sc.configs)) [
      | inl stops ↦ absurd (ground arith)
      | inr (added, goes) ↦ elim (Outcome-cases (answer_config op.command (sc.configs ++ added))) [
        | inl stops ↦ absurd (ground arith)
        | inr (config, answers) ↦ ground arith
      ]
    ]

-- A Query that gives up does not use up its request number, although a server may have applied it: if its
-- replies were all lost, Query returns the zero Config, and when the clerk's next Join, Leave or Move is
-- committed behind that query, the server takes it for a repetition: no configuration is made, and the
-- answer is OK.
pub change-query_lost :
    (net : Op → Calls QueryReply) (now : ℕ) (ck : Clerk) (num : ℤ) (command : Command)
    (sc : ShardCtrler) (next : ShardCtrler × WaitChResponse)
    → ck.last_leader < ck.servers
    → is_change command ≡ true
    → ((t s : ℕ) → net (request ck (Command.query num)) t s ≡ none)
    → apply_op sc (request ck (Command.query num)) ≡ ok next
    → (ck' : Clerk) × (query net now ck num ≡ ended (ck', empty_config))
      × (last : ShardCtrler × WaitChResponse) × (apply_op next.0 (request ck' command) ≡ ok last)
      × (last.0.configs ≡ next.0.configs)
      × (last.1.err ≡ Err.ok)
unfolding accepted
change-query_lost net now ck num command sc next h c lost e =
    let (found, result, given) = query-Given net now ck num h in
    elim given [
      | inl a ↦ absurd (ground (arith, lost a.t a.s, a.accepts))
      | inr (gave_up, all) ↦
          let noted = apply_op-note_request sc (request ck (Command.query num)) next e in
          let old =
            note_request-repeated ck.client_id (pos ck.request_id) sc.latest_applied_request in
          let (last, runs, same, fine) =
            apply_op_repeated next.0 (request ck command) c
              (ap (λ reqs. (note_request ck.client_id (pos ck.request_id) reqs).1) noted ∙ old) in
          (ck, result ∙ ap ended gave_up, last, runs, same, fine)
    ]
