-- ===== src/Raft/Append/Merge.antt =====
-- The copying loop of AppendEntries against a merge of lists.
use mathlib.Core.List.{append-nil}
use mit_distributed_system.Prelude.{
  ℕ, ◌+◌, ◌-◌, ◌≤◌, ◌<◌, ◌≡◌, refl, ◌∙◌, ap, List, [], ◌∷◌, ◌++◌, arith, ok, length, take, drop,
  ◌==◌, if◌then◌else◌, inl, inr, Bool-cases, length-append, get_elem?-append_length,
  take-append_length, append-snoc, take-append-drop, length-take, suc, true, false, ==_iff,
}
use mit_distributed_system.Raft.State.{Raft, LogEntry}
use mit_distributed_system.Raft.Log.{get_log_length, get_term_of_log}
use mit_distributed_system.Raft.Append.{place_entry, copy_entries, with_log}

module _ {C : Type 0} where
  -- Keep what agrees by term; from the first disagreement on, or past the end, take the new entries.
  unfoldable pub merge : List (LogEntry C) → List (LogEntry C) → List (LogEntry C)
  merge old [] = old
  merge [] (e ∷ es) = e ∷ es
  merge (o ∷ old) (e ∷ es) =
      let rest = merge old es in if o.term == e.term then o ∷ rest else e ∷ es

  -- `old` has an entry of the same term at every position of `es`.
  abbrev pub Agrees : List (LogEntry C) → List (LogEntry C) → Type 0
  Agrees old [] = Unit {0}
  Agrees [] (e ∷ es) = ⊥
  Agrees (o ∷ old) (e ∷ es) = (o.term ≡ e.term) × Agrees old es

  -- A request that brings nothing new, such as one that arrives late, truncates nothing.
  pub merge-Agrees : (old es : List (LogEntry C)) → Agrees old es → merge old es ≡ old
  unfolding merge
  merge-Agrees old [] h = refl
  merge-Agrees [] (e ∷ es) h = absurd h
  merge-Agrees (o ∷ old) (e ∷ es) h =
      rw ((==_iff o.term e.term).1 h.0, merge-Agrees old es h.1) refl

  Agrees-refl : (es : List (LogEntry C)) → Agrees es es
  Agrees-refl [] = tt
  Agrees-refl (e ∷ es) = (refl, Agrees-refl es)

  -- After the merge every entry of the request is there, by term.
  pub Agrees-merge : (old es : List (LogEntry C)) → Agrees (merge old es) es
  unfolding merge
  Agrees-merge old [] = tt
  Agrees-merge [] (e ∷ es) = Agrees-refl (e ∷ es)
  Agrees-merge (o ∷ old) (e ∷ es) = elim (Bool-cases (o.term == e.term)) [
    | inl same ↦ rw same ((==_iff o.term e.term).0 same, Agrees-merge old es)
    | inr other ↦ rw other (Agrees-refl (e ∷ es))
  ]

  merge_nil : (es : List (LogEntry C)) → merge [] es ≡ es
  unfolding merge
  merge_nil [] = refl
  merge_nil (e ∷ es) = refl

  module _ (rf : Raft C) where
    -- `front` is the part of the log that the loop has passed, and `old` what is behind it.
    place_past :
        (front : List (LogEntry C)) (index : ℕ) (e : LogEntry C)
        → index ≡ rf.last_included_index + length front
        → place_entry (with_log rf front) index e ≡ ok (with_log rf (front ++ e ∷ []))
    unfolding place_entry
    place_past front index e at = ground arith

    place_same :
        (front old : List (LogEntry C)) (index : ℕ) (o e : LogEntry C)
        → (o.term == e.term) ≡ true
        → index ≡ rf.last_included_index + length front
        → 1 ≤ length front
        → place_entry (with_log rf (front ++ o ∷ old)) index e ≡ ok (with_log rf (front ++ o ∷ old))
    unfolding place_entry get_term_of_log
    place_same front old index o e same at some_front =
        ground (arith, length-append front (o ∷ old), get_elem?-append_length front old o)

    place_other :
        (front old : List (LogEntry C)) (index : ℕ) (o e : LogEntry C)
        → (o.term == e.term) ≡ false
        → index ≡ rf.last_included_index + length front
        → 1 ≤ length front
        → place_entry (with_log rf (front ++ o ∷ old)) index e ≡ ok (with_log rf (front ++ e ∷ []))
    unfolding place_entry get_term_of_log
    place_other front old index o e other at some_front = ground (
      arith,
      length-append front (o ∷ old),
      get_elem?-append_length front old o,
      take-append_length front (o ∷ old),
    )

    copy_past :
        (front es : List (LogEntry C)) (index : ℕ)
        → index ≡ rf.last_included_index + length front
        → copy_entries (with_log rf front) index es ≡ ok (with_log rf (front ++ es))
    unfolding copy_entries
    copy_past front [] index at = rw append-nil
    copy_past front (e ∷ es) index at = rw (place_past front index e at) (
        copy_past (front ++ e ∷ []) es (suc index) (omega (arith, length-append front (e ∷ [])))
        ∙ ap (λ l. ok (with_log rf l)) (append-snoc front es e))

    copy_entries-merge :
        (front old es : List (LogEntry C)) (index : ℕ)
        → index ≡ rf.last_included_index + length front
        → 1 ≤ length front
        → copy_entries (with_log rf (front ++ old)) index es
          ≡ ok (with_log rf (front ++ merge old es))
    unfolding copy_entries merge
    copy_entries-merge front old [] index at h = refl
    copy_entries-merge front [] (e ∷ es) index at h =
        rw append-nil (copy_past front (e ∷ es) index at)
    copy_entries-merge front (o ∷ old) (e ∷ es) index at h = elim (Bool-cases (o.term == e.term)) [
      | inl same ↦
          rw (place_same front old index o e same at h, same)
            (rw (append-snoc front old o, append-snoc front (merge old es) o) at
              (copy_entries-merge (front ++ o ∷ []) old es (suc index)
                (omega (arith, length-append front (o ∷ [])))
                (omega (arith, length-append front (o ∷ [])))))
      | inr other ↦
          rw (place_other front old index o e other at h, other)
            (copy_past (front ++ e ∷ []) es (suc index)
                (omega (arith, length-append front (e ∷ [])))
              ∙ ap (λ l. ok (with_log rf l)) (append-snoc front es e))
    ]

    -- From a previous index inside the log, the loop never stops the process, and what it leaves is
    -- the log up to that index and then the merge of the rest with the entries.
    pub copy_entries-eq-merge :
        (prev : ℕ) (es : List (LogEntry C))
        → rf.last_included_index ≤ prev
        → prev < get_log_length rf
        → copy_entries rf (prev + 1) es
          ≡ ok (
              with_log rf (
                take (prev + 1 - rf.last_included_index) rf.log
                ++ merge (drop (prev + 1 - rf.last_included_index) rf.log) es))
    copy_entries-eq-merge prev es above within =
        let kept = prev + 1 - rf.last_included_index in
        rw (take-append-drop kept rf.log) at (
          copy_entries-merge (take kept rf.log) (drop kept rf.log) es (prev + 1)
            (omega (arith, length-take kept rf.log)) (omega (arith, length-take kept rf.log)))
