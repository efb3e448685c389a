-- ===== src/Raft/Append/Check.antt =====
-- What the part of AppendEntries that compares the logs does.
use Prim.Native.Nat.{max}
use native.Mathlib.Decide.{dec_lt}
use mit_distributed_system.Prelude.{
  ℕ, ◌+◌, ◌-◌, ◌≤◌, ◌<◌, ◌≡◌, ◌≢◌, refl, arith, ok, length, ==_iff, List, ◌++◌, Outcome, true,
  false, Option, none, some, take, drop, lt→leb_false, le→leb, ne→==_false, sym, ap, ◌∙◌,
}
use mit_distributed_system.Raft.State.{Raft, LogEntry}
use mit_distributed_system.Raft.Log.{get_log_length, get_term_of_log}
use mit_distributed_system.Raft.Log.Laws.{
  get_term_of_log_total, get_term_of_log_included, get_term_of_log_range, SameLog,
}
use mit_distributed_system.Raft.Persist.{Codec, persist}
use mit_distributed_system.Raft.Append.{
  AppendEntriesArgs, AppendEntriesReply, meet_leader, check_previous, conflict_reply, store_entries,
  accept_entries, append_reply, advance_commit, with_log,
}
use mit_distributed_system.Raft.Append.Merge.{merge, copy_entries-eq-merge}
use mit_distributed_system.Raft.Append.Conflict.{back_up-BacksUp}

module _ {C : Type 0} where
  -- The log after the entries of a request are stored behind `prev`.
  abbrev pub merged_log : Raft C → ℕ → Option (List (LogEntry C)) → List (LogEntry C)
  merged_log rf prev none = rf.log
  merged_log rf prev (some es) =
      take (prev + 1 - rf.last_included_index) rf.log
      ++ merge (drop (prev + 1 - rf.last_included_index) rf.log) es

  -- The follower's entry at the previous index has the previous term.
  abbrev pub PreviousMatches : Raft C → AppendEntriesArgs C → Type 0
  PreviousMatches rf args = get_term_of_log rf args.prev_log_index ≡ ok args.prev_log_term

  -- The two sides agree on the term of index 0, which no command uses.
  abbrev pub ZeroAgrees : Raft C → AppendEntriesArgs C → Type 0
  ZeroAgrees rf args =
      args.prev_log_index ≡ 0
      → rf.last_included_index ≡ 0
      → args.prev_log_term ≡ rf.last_included_term

  -- A refusal, and its hint: an index from which the leader can try again.
  abbrev pub Refused : Raft C → ℕ → Outcome (Raft C × AppendEntriesReply) → Type 0
  Refused rf bound r =
      (next : ℕ) × (r ≡ ok (append_reply rf false next)) × (1 ≤ next) × (next ≤ bound)

module _ {C : Type 0} (codec : Codec C) where
  pub meet_leader-term :
      (rf : Raft C) (term : ℕ) → (meet_leader codec rf term).current_term ≡ max rf.current_term term
  unfolding meet_leader persist
  meet_leader-term rf term = ground arith

  pub meet_leader-SameLog : (rf : Raft C) (term : ℕ) → SameLog (meet_leader codec rf term) rf
  unfolding meet_leader persist
  meet_leader-SameLog rf term = (ground arith, ground arith, ground arith)

  abbrev pub stored : Raft C → ℕ → Option (List (LogEntry C)) → Raft C
  stored rf prev none = rf
  stored rf prev (some es) = persist codec (with_log rf (merged_log rf prev (some es)))

  abbrev pub accepted : Raft C → AppendEntriesArgs C → Raft C × AppendEntriesReply
  accepted rf args =
      append_reply (advance_commit (stored rf args.prev_log_index args.entries) args.leader_commit)
        true 0

  store_entries_lem :
      (rf : Raft C) (prev : ℕ) (entries : Option (List (LogEntry C)))
      → rf.last_included_index ≤ prev
      → prev < get_log_length rf
      → store_entries codec rf prev entries ≡ ok (stored rf prev entries)
  unfolding store_entries
  store_entries_lem rf prev none above within = refl
  store_entries_lem rf prev (some es) above within =
      rw (copy_entries-eq-merge rf prev es above within) refl

  pub check_previous_accepts :
      (rf : Raft C) (args : AppendEntriesArgs C)
      → PreviousMatches rf args
      → check_previous codec rf args ≡ ok (accepted rf args)
  unfolding check_previous accept_entries
  check_previous_accepts rf args h =
      let (above, within) = get_term_of_log_range rf args.prev_log_index h in
      rw
        (
          lt→leb_false (get_log_length rf) args.prev_log_index within,
          h,
          (==_iff args.prev_log_term args.prev_log_term).1 refl,
          store_entries_lem rf args.prev_log_index args.entries above within,
        )
        refl

  -- A mismatch is never at index 0.
  mismatch_above_zero :
      (rf : Raft C) (args : AppendEntriesArgs C)
      → 1 ≤ length rf.log
      → rf.last_included_index ≤ args.prev_log_index
      → ZeroAgrees rf args
      → ¬ PreviousMatches rf args
      → args.prev_log_index ≢ 0
  mismatch_above_zero rf args some_log above zero_ok differs at_zero =
      let included : rf.last_included_index ≡ 0 = omega arith in
      let same : args.prev_log_index ≡ rf.last_included_index = omega arith in
      differs (
        ap (get_term_of_log rf) same
        ∙ get_term_of_log_included rf some_log
        ∙ ap ok (sym (zero_ok at_zero included)))

  conflict_walk :
      (rf : Raft C) (args : AppendEntriesArgs C) (t : ℕ)
      → args.prev_log_index < get_log_length rf
      → args.prev_log_index ≢ 0
      → get_term_of_log rf args.prev_log_index ≡ ok t
      → t ≢ args.prev_log_term
      → Refused rf args.prev_log_index (check_previous codec rf args)
  unfolding check_previous conflict_reply
  conflict_walk rf args t within not_zero e other =
      let (next, q, walk) = back_up-BacksUp rf t args.prev_log_index within in
      (
        next,
        rw
            (
              lt→leb_false (get_log_length rf) args.prev_log_index within,
              e,
              ne→==_false t args.prev_log_term other,
              ne→==_false args.prev_log_index 0 not_zero,
              q,
            )
            refl,
        walk.nonzero (omega arith),
        walk.below,
      )

  pub check_previous_refuses :
      (rf : Raft C) (args : AppendEntriesArgs C)
      → 1 ≤ length rf.log
      → rf.last_included_index ≤ args.prev_log_index
      → ZeroAgrees rf args
      → ¬ PreviousMatches rf args
      → Refused rf args.prev_log_index (check_previous codec rf args)
  unfolding check_previous
  check_previous_refuses rf args some_log above zero_ok differs =
      elim (dec_lt args.prev_log_index (get_log_length rf)) [
        | no short ↦ (
          get_log_length rf,
          rw (le→leb (get_log_length rf) args.prev_log_index (omega arith)) refl,
          omega arith,
          omega arith,
        )
        | yes within ↦
            let (t, e) = get_term_of_log_total rf args.prev_log_index above within in
            conflict_walk rf args t within
              (mismatch_above_zero rf args some_log above zero_ok differs) e
              (λ same. differs (e ∙ ap ok same))
      ]
