-- ===== src/Raft/Append/Conflict.antt =====
-- The hint of a refused AppendEntries.
use native.Mathlib.Decide.{dec_le}
use mit_distributed_system.Prelude.{
  ℕ, zero, suc, ◌≤◌, ◌<◌, ◌≡◌, ◌≢◌, refl, ◌⊎◌, inl, inr, arith, ok, ◌==◌, Bool-cases, ==_iff, true,
  false, ltb, leb, ◌&&◌, ◌∙◌, ap,
}
use mit_distributed_system.Raft.State.{Raft}
use mit_distributed_system.Raft.Log.{get_log_length, get_term_of_log}
use mit_distributed_system.Raft.Log.Laws.{get_term_of_log_total}
use mit_distributed_system.Raft.Append.{back_up}

module _ {C : Type 0} (rf : Raft C) (conflict_term : ℕ) where
  -- `r` is where the walk back from `n` over one term ends.
  pub record BacksUp (n r : ℕ) : Type 0 where
    pub below : r ≤ n
    pub nonzero : 1 ≤ n → 1 ≤ r
    pub passed : (j : ℕ) → r < j → j ≤ n → get_term_of_log rf j ≡ ok conflict_term
    pub stopped : (r ≤ 1) ⊎ (r < rf.last_included_index) ⊎ (get_term_of_log rf r ≢ ok conflict_term)

  stops_at_once :
      (n : ℕ)
      → (n ≤ 1) ⊎ (n < rf.last_included_index) ⊎ (get_term_of_log rf n ≢ ok conflict_term)
      → BacksUp n n
  stops_at_once n why = record {
    below = omega arith;
    nonzero = λ h. h;
    passed = λ j h k. absurd (omega arith);
    stopped = why;
  }

  goes_on :
      (n r : ℕ)
      → 1 ≤ n
      → get_term_of_log rf (suc n) ≡ ok conflict_term
      → BacksUp n r
      → BacksUp (suc n) r
  goes_on n r some_n here b = record {
    below = omega (arith, b.below);
    nonzero = λ h. b.nonzero some_n;
    passed = λ j h k. elim (dec_le j n) [
      | yes le ↦ b.passed j h le
      | no gt ↦ let e : j ≡ suc n = omega arith in rw e here
    ];
    stopped = b.stopped;
  }

  abbrev pub Walk : ℕ → Type 0
  Walk n = (r : ℕ) × (back_up rf conflict_term n ≡ ok r) × BacksUp n r

  Walk-suc :
      (n t : ℕ)
      → (ltb 1 (suc n) && leb rf.last_included_index (suc n)) ≡ true
      → get_term_of_log rf (suc n) ≡ ok t
      → Walk n
      → Walk (suc n)
  unfolding back_up
  Walk-suc n t more e (r, q, b) = elim (Bool-cases (t == conflict_term)) [
    | inl same ↦ (
      r,
      rw (more, e, same) q,
      goes_on n r (ground arith) (e ∙ ap ok ((==_iff t conflict_term).0 same)) b,
    )
    | inr other ↦
        (suc n, rw (more, e, other) refl, stops_at_once (suc n) (inr (inr λ h. ground arith)))
  ]

  -- The walk returns from every index that the log has.
  pub back_up-BacksUp : (n : ℕ) → n < get_log_length rf → Walk n
  unfolding back_up
  back_up-BacksUp zero h = (zero, refl, stops_at_once zero (omega arith))
  back_up-BacksUp (suc n) h =
      elim (Bool-cases (ltb 1 (suc n) && leb rf.last_included_index (suc n))) [
        | inr stop ↦ (suc n, rw stop refl, stops_at_once (suc n) (why stop))
        | inl more ↦
            let (t, e) = get_term_of_log_total rf (suc n) (ground arith) h in
            Walk-suc n t more e (back_up-BacksUp n (omega arith))
      ]
    where
      why :
          (ltb 1 (suc n) && leb rf.last_included_index (suc n)) ≡ false
          → (suc n ≤ 1)
            ⊎ (suc n < rf.last_included_index)
            ⊎ (get_term_of_log rf (suc n) ≢ ok conflict_term)
      why stop = ground arith
