-- ===== src/Raft/Vote/Rules.antt =====
-- When RequestVote grants a vote.
use mit_distributed_system.Prelude.{
  ℕ, ◌-◌, ◌≤◌, ◌<◌, ◌≡◌, ◌⊎◌, ◌↔◌, pos, minus_one, true, false, arith, ok, Outcome, ==ℤ_iff, inl,
  inr, ltb, leb, Bool, ◌==◌, ◌==ℤ◌, ◌&&◌, ◌||◌, Bool-cases, lt→ltb, le→leb, lt→leb_false,
  le→ltb_false,
}
use native.Mathlib.Decide.{dec_lt}
use mathlib.Core.Path.{refl}
use mit_distributed_system.Raft.State.{Raft}
use mit_distributed_system.Raft.Log.{get_log_length, get_term_of_log}
use mit_distributed_system.Raft.Persist.{Codec, persist}
use mit_distributed_system.Raft.Vote.{
  RequestVoteArgs, RequestVoteReply, is_newer_than_me, consider_vote, request_vote, vote_reply,
  grant_vote, step_down,
}

-- The candidate's last entry is at least as recent as (term, index), by term and then by index.
abbrev pub UpToDate : RequestVoteArgs → ℕ → ℕ → Type 0
UpToDate args last_term last_index =
    (last_term < args.last_log_term)
    ⊎ ((last_term ≡ args.last_log_term) × (last_index ≤ args.last_log_index))

abbrev pub VoteIsFree : {C : Type 0} → Raft C → RequestVoteArgs → Type 0
VoteIsFree rf args = (rf.voted_for ≡ minus_one) ⊎ (rf.voted_for ≡ pos args.candidate_id)

-- The peer has no vote in the term of the request, or has voted for this candidate.
abbrev pub MayVote : {C : Type 0} → Raft C → RequestVoteArgs → Type 0
MayVote rf args =
    (rf.current_term < args.term) ⊎ ((rf.current_term ≡ args.term) × VoteIsFree rf args)

abbrev pub LogAllows : {C : Type 0} → Raft C → RequestVoteArgs → ℕ → Type 0
LogAllows rf args last_term =
    (get_log_length rf ≡ 1) ⊎ UpToDate args last_term (get_log_length rf - 1)

module _ {C : Type 0} (codec : Codec C) where
  -- The handler returns, and grants the vote exactly under the two conditions.
  abbrev pub Decides : Outcome (Raft C × RequestVoteReply) → Type 0 → Type 0
  Decides r P =
      (answer : Raft C × RequestVoteReply) × (r ≡ ok answer) × ((answer.1.vote_granted ≡ true) ↔ P)

  abbrev newer : Raft C → RequestVoteArgs → ℕ → Bool
  newer rf args last_term =
      get_log_length rf == 1
      || (ltb last_term args.last_log_term
          || (args.last_log_term == last_term && leb (get_log_length rf - 1) args.last_log_index))

  abbrev free : Raft C → RequestVoteArgs → Bool
  free rf args = rf.voted_for ==ℤ minus_one || rf.voted_for ==ℤ pos args.candidate_id

  newer_lem :
      (rf : Raft C) (args : RequestVoteArgs) (last_term : ℕ)
      → get_term_of_log rf (get_log_length rf - 1) ≡ ok last_term
      → is_newer_than_me rf args ≡ ok (newer rf args last_term)
  unfolding is_newer_than_me
  newer_lem rf args last_term h = ground arith

  newer_iff :
      (rf : Raft C) (args : RequestVoteArgs) (last_term : ℕ)
      → (newer rf args last_term ≡ true) ↔ LogAllows rf args last_term
  newer_iff rf args last_term = (ground arith, ground arith)

  free_iff : (rf : Raft C) (args : RequestVoteArgs) → (free rf args ≡ true) ↔ VoteIsFree rf args
  free_iff rf args = (
    ground (arith, ==ℤ_iff rf.voted_for minus_one, ==ℤ_iff rf.voted_for (pos args.candidate_id)),
    ground (arith, ==ℤ_iff rf.voted_for minus_one, ==ℤ_iff rf.voted_for (pos args.candidate_id)),
  )

  consider_vote_decision :
      (rf : Raft C) (args : RequestVoteArgs) (last_term : ℕ)
      → get_term_of_log rf (get_log_length rf - 1) ≡ ok last_term
      → Decides (consider_vote codec rf args) (VoteIsFree rf args × LogAllows rf args last_term)
  unfolding consider_vote
  consider_vote_decision rf args last_term h = elim (Bool-cases (free rf args)) [
    | inl yes_free ↦ elim (Bool-cases (newer rf args last_term)) [
      | inl yes_newer ↦ (
        vote_reply codec (grant_vote codec rf args.candidate_id) true,
        rw (yes_free, newer_lem rf args last_term h, yes_newer) refl,
        (
          (λ _. ((free_iff rf args).0 yes_free, (newer_iff rf args last_term).0 yes_newer)),
          (λ _. refl),
        ),
      )
      | inr not_newer ↦ (
        vote_reply codec rf false,
        rw (yes_free, newer_lem rf args last_term h, not_newer) refl,
        ((λ e. cc), (λ p. let e = (newer_iff rf args last_term).1 p.1 in cc)),
      )
    ]
    | inr not_free ↦ (
      vote_reply codec rf false,
      rw not_free refl,
      ((λ e. cc), (λ p. let e = (free_iff rf args).1 p.0 in cc)),
    )
  ]

  -- While the log is not empty, RequestVote returns; and it grants the vote exactly if the request's
  -- term is newer, or is the current one and the vote is free or the candidate's already, and the
  -- log is empty of commands or the candidate's is at least as recent.
  pub request_vote_decision :
      (rf : Raft C) (args : RequestVoteArgs) (last_term : ℕ)
      → get_term_of_log rf (get_log_length rf - 1) ≡ ok last_term
      → Decides (request_vote codec rf args) (MayVote rf args × LogAllows rf args last_term)
  unfolding request_vote persist
  request_vote_decision rf args last_term h = elim (dec_lt rf.current_term args.term) [
    | yes newer_term ↦
        let decision =
          consider_vote_decision (step_down codec rf args.term) args last_term
            (unfold get_term_of_log in h) in
        (
          decision.0,
          rw (lt→ltb _ _ newer_term, le→leb rf.current_term args.term (omega arith)) decision.1,
          ((λ g. (inl newer_term, (decision.2.0 g).1)), (λ p. decision.2.1 (inl refl, p.1))),
        )
    | no not_newer ↦ elim (dec_lt args.term rf.current_term) [
      | yes old ↦ (
        vote_reply codec rf false,
        rw (lt→leb_false rf.current_term args.term old) refl,
        ((λ e. cc), (λ p. absurd (not_old p.0 old))),
      )
      | no same ↦
          let decision = consider_vote_decision rf args last_term h in
          (
            decision.0,
            rw
                (
                  le→leb rf.current_term args.term (omega arith),
                  le→ltb_false rf.current_term args.term (omega arith),
                )
                decision.1,
            (
              (λ g. (inr (omega arith, (decision.2.0 g).0), (decision.2.0 g).1)),
              (λ p. decision.2.1 (free_now p.0 not_newer, p.1)),
            ),
          )
    ]
  ]
    where
      not_old : MayVote rf args → args.term < rf.current_term → ⊥
      not_old m old = omega arith

      free_now : MayVote rf args → ¬ (rf.current_term < args.term) → VoteIsFree rf args
      free_now (inl newer_term) not_newer = absurd (not_newer newer_term)
      free_now (inr m) not_newer = m.1
