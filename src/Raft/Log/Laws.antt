-- ===== src/Raft/Log/Laws.antt =====
-- When the log accessors return, and what.
use native.Mathlib.Decide.{dec_lt}
use mit_distributed_system.Prelude.{
  ℕ, ◌+◌, ◌-◌, ◌≤◌, ◌<◌, ◌≡◌, List, arith, ok, length, get_elem?, get_elem?_total, length-take,
  length-drop, drop, some,
}
use mit_distributed_system.Raft.State.{Raft, LogEntry}
use mit_distributed_system.Raft.Log.{get_log_length, get_term_of_log, get_logs}

module _ {C : Type 0} (rf : Raft C) where
  -- Above the last included index and below the end, there is an entry.
  pub entry_in_range :
      (i : ℕ)
      → rf.last_included_index < i
      → i < get_log_length rf
      → (e : LogEntry C) × (get_elem? rf.log (i - rf.last_included_index) ≡ some e)
  entry_in_range i h k = get_elem?_total rf.log _ (omega arith)

  pub get_term_of_log_entry :
      (i : ℕ) (e : LogEntry C)
      → get_elem? rf.log (i - rf.last_included_index) ≡ some e
      → rf.last_included_index < i
      → i < get_log_length rf
      → get_term_of_log rf i ≡ ok e.term
  unfolding get_term_of_log
  get_term_of_log_entry i e q h k = ground arith

  pub get_term_of_log_included :
      1 ≤ length rf.log → get_term_of_log rf rf.last_included_index ≡ ok rf.last_included_term
  unfolding get_term_of_log
  get_term_of_log_included h = ground arith

  -- From the last included index up to the end, every index has a term.
  pub get_term_of_log_total :
      (i : ℕ)
      → rf.last_included_index ≤ i
      → i < get_log_length rf
      → (t : ℕ) × (get_term_of_log rf i ≡ ok t)
  get_term_of_log_total i h k = elim (dec_lt rf.last_included_index i) [
    | yes above ↦
        let (e, q) = entry_in_range i above k in (e.term, get_term_of_log_entry i e q above k)
    | no at ↦ (
      rf.last_included_term,
      let same : i ≡ rf.last_included_index = omega arith in
          rw same (get_term_of_log_included (omega arith)),
    )
  ]

  pub length-get_logs :
      (start end : ℕ) {xs : List (LogEntry C)}
      → get_logs rf start end ≡ ok xs
      → length xs + start ≡ end
  unfolding get_logs
  length-get_logs start end h = ground (
    arith,
    length-take (end - start) (drop (start - rf.last_included_index) rf.log),
    length-drop (start - rf.last_included_index) rf.log,
  )

module _ {C : Type 0} where
  pub get_term_of_log_range :
      (rf : Raft C) (i : ℕ) {t : ℕ}
      → get_term_of_log rf i ≡ ok t
      → (rf.last_included_index ≤ i) × (i < get_log_length rf)
  unfolding get_term_of_log
  get_term_of_log_range rf i h = ground arith

  -- Two peers with the same log behind the same snapshot position.
  abbrev pub SameLog : Raft C → Raft C → Type 0
  SameLog rf rf' =
      (rf.log ≡ rf'.log)
      × (rf.last_included_index ≡ rf'.last_included_index)
      × (rf.last_included_term ≡ rf'.last_included_term)

  pub get_term_of_log-SameLog :
      (rf rf' : Raft C) (i : ℕ) → SameLog rf rf' → get_term_of_log rf i ≡ get_term_of_log rf' i
  unfolding get_term_of_log
  get_term_of_log-SameLog rf rf' i h = ground arith
