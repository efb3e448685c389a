-- ===== src/Raft/Append/Handler.antt =====
-- What the whole AppendEntries handler answers, and what it does to the log.
use Prim.Native.Nat.{max}
use native.Mathlib.Decide.{dec_lt, ℕ_discrete}
use mit_distributed_system.Prelude.{
  ℕ, ◌+◌, ◌≤◌, ◌<◌, ◌≡◌, refl, ◌⊎◌, inl, inr, arith, ok, length, List, Outcome, true, false, Option,
  none, some, lt→ltb, le→ltb_false, Outcome-cases, sym, ap, ◌∙◌,
}
use mit_distributed_system.Raft.State.{Raft, LogEntry}
use mit_distributed_system.Raft.Log.{get_term_of_log}
use mit_distributed_system.Raft.Log.Laws.{get_term_of_log_range, SameLog, get_term_of_log-SameLog}
use mit_distributed_system.Raft.Persist.{Codec, persist}
use mit_distributed_system.Raft.Append.{
  AppendEntriesArgs, AppendEntriesReply, meet_leader, answer_leader, append_entries, append_reply,
  advance_commit,
}
use mit_distributed_system.Raft.Append.Check.{
  merged_log, meet_leader-term, meet_leader-SameLog, PreviousMatches, ZeroAgrees, stored, accepted,
  check_previous_accepts, check_previous_refuses,
}

module _ {C : Type 0} (codec : Codec C) where
  -- What AppendEntries answers to a request, by the log `old` that it started from.
  pub data Answered (old : Raft C) (args : AppendEntriesArgs C)
      : Raft C × AppendEntriesReply → Type 0 where
    accepts :
        (rf : Raft C)
        → old.current_term ≤ args.term
        → PreviousMatches old args
        → rf.log ≡ merged_log old args.prev_log_index args.entries
        → rf.current_term ≡ args.term
        → Answered old args (append_reply rf true 0)
    refuses_term :
        (rf : Raft C) (next : ℕ)
        → args.term < old.current_term
        → rf.log ≡ old.log
        → rf.current_term ≡ old.current_term
        → Answered old args (append_reply rf false next)
    refuses_log :
        (rf : Raft C) (next : ℕ)
        → old.current_term ≤ args.term
        → ¬ PreviousMatches old args
        → rf.log ≡ old.log
        → rf.current_term ≡ args.term
        → 1 ≤ next
        → next ≤ max (old.last_included_index + 1) args.prev_log_index
        → Answered old args (append_reply rf false next)

  abbrev pub Answers : Raft C → AppendEntriesArgs C → Outcome (Raft C × AppendEntriesReply) → Type 0
  Answers old args r =
      (answer : Raft C × AppendEntriesReply) × (r ≡ ok answer) × Answered old args answer

  stored-log :
      (rf : Raft C) (prev : ℕ) (entries : Option (List (LogEntry C)))
      → (stored codec rf prev entries).log ≡ merged_log rf prev entries
  unfolding persist
  stored-log rf prev none = refl
  stored-log rf prev (some es) = refl

  stored-term :
      (rf : Raft C) (prev : ℕ) (entries : Option (List (LogEntry C)))
      → (stored codec rf prev entries).current_term ≡ rf.current_term
  unfolding persist
  stored-term rf prev none = refl
  stored-term rf prev (some es) = refl

  log-advance_commit : (rf : Raft C) (c : ℕ) → (advance_commit rf c).log ≡ rf.log
  unfolding advance_commit
  log-advance_commit rf c = ground arith

  term-advance_commit : (rf : Raft C) (c : ℕ) → (advance_commit rf c).current_term ≡ rf.current_term
  unfolding advance_commit
  term-advance_commit rf c = ground arith

  Answers-answer_leader :
      (rf : Raft C) (args : AppendEntriesArgs C)
      → 1 ≤ length rf.log
      → ZeroAgrees rf args
      → rf.current_term ≡ args.term
      → (m : (PreviousMatches rf args) ⊎ (¬ PreviousMatches rf args))
      → Answers rf args (answer_leader codec rf args)
  unfolding answer_leader
  Answers-answer_leader rf args some_log zero_ok current (inl match) =
      let (above, within) = get_term_of_log_range rf args.prev_log_index match in
      let kept = stored codec rf args.prev_log_index args.entries in
      (
        accepted codec rf args,
        rw
            (
              le→ltb_false args.term rf.current_term (omega arith),
              le→ltb_false args.prev_log_index rf.last_included_index above,
            )
            (check_previous_accepts codec rf args match),
        accepts (advance_commit kept args.leader_commit) (omega arith) match
            (log-advance_commit kept args.leader_commit
              ∙ stored-log rf args.prev_log_index args.entries)
            (term-advance_commit kept args.leader_commit
              ∙ stored-term rf args.prev_log_index args.entries
              ∙ current),
      )
  Answers-answer_leader rf args some_log zero_ok current (inr differs) =
      elim (dec_lt args.prev_log_index rf.last_included_index) [
        | yes below ↦ (
          append_reply rf false (rf.last_included_index + 1),
          rw
              (
                le→ltb_false args.term rf.current_term (omega arith),
                lt→ltb args.prev_log_index rf.last_included_index below,
              )
              refl,
          refuses_log rf _ (omega arith) differs refl current (omega arith) (omega arith),
        )
        | no above ↦
            let (next, q, low, high) =
              check_previous_refuses codec rf args some_log (omega arith) zero_ok differs in
            (
              append_reply rf false next,
              rw
                  (
                    le→ltb_false args.term rf.current_term (omega arith),
                    le→ltb_false args.prev_log_index rf.last_included_index (omega arith),
                  )
                  q,
              refuses_log rf next (omega arith) differs refl current low (omega arith),
            )
      ]

  PreviousMatches-dec :
      (rf : Raft C) (args : AppendEntriesArgs C)
      → (PreviousMatches rf args) ⊎ (¬ PreviousMatches rf args)
  PreviousMatches-dec rf args = elim (Outcome-cases (get_term_of_log rf args.prev_log_index)) [
    | inl none_there ↦ inr (λ e. cc)
    | inr (t, e) ↦ elim (ℕ_discrete t args.prev_log_term) [
      | yes same ↦ inl (e ∙ ap ok same)
      | no other ↦ inr (λ e'. ground arith)
    ]
  ]

  merged_log-SameLog :
      (m old : Raft C) (prev : ℕ) (entries : Option (List (LogEntry C)))
      → SameLog m old
      → merged_log m prev entries ≡ merged_log old prev entries
  merged_log-SameLog m old prev none same = same.0
  merged_log-SameLog m old prev (some es) same = cc

  answer_leader_old :
      (m : Raft C) (args : AppendEntriesArgs C)
      → args.term < m.current_term
      → answer_leader codec m args ≡ ok (append_reply m false 0)
  unfolding answer_leader
  answer_leader_old m args h = rw (lt→ltb args.term m.current_term h) refl

  Answered-SameLog :
      {m old : Raft C} {args : AppendEntriesArgs C} {answer : Raft C × AppendEntriesReply}
      → SameLog m old
      → m.current_term ≡ args.term
      → old.current_term ≤ args.term
      → Answered m args answer
      → Answered old args answer
  Answered-SameLog {m} {old} {args} same current le (accepts rf h match log term) =
      accepts rf le (sym (get_term_of_log-SameLog m old args.prev_log_index same) ∙ match)
        (log ∙ merged_log-SameLog m old args.prev_log_index args.entries same) term
  Answered-SameLog same current le (refuses_term rf next older log term) = absurd (omega arith)
  Answered-SameLog {m} {old} {args} same current le
        (refuses_log rf next h differs log term low high) =
      refuses_log rf next le
        (λ match. differs (get_term_of_log-SameLog m old args.prev_log_index same ∙ match))
        (log ∙ same.0) term low (omega arith)

  -- While the log is not empty and the two sides agree on index 0, AppendEntries returns and never
  -- stops the process. It accepts exactly if the term of the request is not old and the entry at the
  -- previous index matches; the log is then the merged one. Otherwise the log stays, and the reply
  -- has the newer term, or else a hint that is at least 1 and no higher than the previous index or
  -- the first index behind the snapshot.
  pub append_entries-Answered :
      (rf : Raft C) (args : AppendEntriesArgs C)
      → 1 ≤ length rf.log
      → ZeroAgrees rf args
      → Answers rf args (append_entries codec rf args)
  unfolding append_entries
  append_entries-Answered rf args some_log zero_ok = elim (dec_lt args.term rf.current_term) [
    | yes old ↦ (
      append_reply m false 0,
      answer_leader_old m args (omega (arith, term)),
      refuses_term m 0 old same.0 (omega (arith, term)),
    )
    | no current ↦
        let some_log' : 1 ≤ length m.log = rw same.0 some_log in
        let zero_ok' : ZeroAgrees m args = λ a b. zero_ok a (sym same.1 ∙ b) ∙ sym same.2 in
        let now : m.current_term ≡ args.term = omega (arith, term) in
        let (answer, e, a) =
          Answers-answer_leader m args some_log' zero_ok' now (PreviousMatches-dec m args) in
        (answer, e, Answered-SameLog same now (omega arith) a)
  ]
    where
      m : Raft C
      m = meet_leader codec rf args.term

      same : SameLog m rf
      same = meet_leader-SameLog codec rf args.term

      term : m.current_term ≡ max rf.current_term args.term
      term = meet_leader-term codec rf args.term
