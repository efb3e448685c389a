-- ===== src/Raft/Commit/Delivery.antt =====
-- What applyLoop (src/raft/raft.go) delivers to the service.
use mit_distributed_system.Prelude.{
  ℕ, zero, suc, ◌+◌, ◌-◌, ◌≤◌, ◌<◌, ◌≡◌, refl, List, [], ◌∷◌, ◌++◌, le→ltb_false, lt→leb_false, ok,
  ◌>>=◌, length, arith, get_elem?, get_elem?_total, ap, sym, some, ◌∙◌, drop, take, length-take,
  length-drop,
}
use mit_distributed_system.Raft.State.{Raft, LogEntry, ApplyMsg, command_msg}
use mit_distributed_system.Raft.Log.{get_log_length, get_logs}
use mit_distributed_system.Raft.Commit.{
  apply_messages, fetch_batch, finish_batch, apply_round, take_notification,
}

get_elem?-drop :
    {A : Type 0} (n i : ℕ) (xs : List A) → get_elem? (drop n xs) i ≡ get_elem? xs (n + i)
get_elem?-drop zero i xs = ground arith
get_elem?-drop (suc n) i [] = refl
get_elem?-drop (suc n) i (x ∷ xs) = ground (arith, get_elem?-drop n i xs)

get_elem?-take :
    {A : Type 0} (n i : ℕ) (xs : List A) → i < n → get_elem? (take n xs) i ≡ get_elem? xs i
get_elem?-take zero i xs h = absurd (omega arith)
get_elem?-take (suc n) i [] h = refl
get_elem?-take (suc n) zero (x ∷ xs) h = refl
get_elem?-take (suc n) (suc i) (x ∷ xs) h = get_elem?-take n i xs (omega arith)

module _ {C : Type 0} where
  length-apply_messages :
      (index : ℕ) (es : List (LogEntry C)) → length (apply_messages index es) ≡ length es
  unfolding apply_messages
  length-apply_messages index [] = refl
  length-apply_messages index (e ∷ es) = ap suc (length-apply_messages (suc index) es)

  get_elem?-apply_messages :
      (index : ℕ) (es : List (LogEntry C)) (k : ℕ) (e : LogEntry C)
      → get_elem? es k ≡ some e
      → get_elem? (apply_messages index es) k ≡ some (command_msg e.command (index + k))
  unfolding apply_messages
  get_elem?-apply_messages index [] k e h = absurd (ground arith)
  get_elem?-apply_messages index (x ∷ es) zero e h = ground arith
  get_elem?-apply_messages index (x ∷ es) (suc k) e h =
      get_elem?-apply_messages (suc index) es k e h
      ∙ ap (λ i. some (command_msg e.command i)) (omega arith)

module _ {C : Type 0} (rf : Raft C) where
  -- The entries `es` are those of the log from the index `start` up to the commit index.
  pub record Batch (start : ℕ) (es : List (LogEntry C)) : Type 0 where
    pub count : length es + start ≡ suc rf.commit_index
    pub entries :
        (k : ℕ)
        → k < length es
        → get_elem? es k ≡ get_elem? rf.log (start + k - rf.last_included_index)

  -- The batch of a peer that is behind its commit index.
  pub next_batch : List (LogEntry C)
  next_batch =
      take (rf.commit_index + 1 - (rf.last_applied + 1))
        (drop (rf.last_applied + 1 - rf.last_included_index) rf.log)

  pub fetch_batch_lem :
      rf.last_included_index ≤ rf.last_applied
      → rf.last_applied < rf.commit_index
      → rf.commit_index < get_log_length rf
      → fetch_batch rf ≡ ok next_batch
  unfolding fetch_batch get_logs next_batch
  fetch_batch_lem covered more inside =
      rw
        (
          le→ltb_false rf.commit_index (suc rf.last_applied) (omega arith),
          le→ltb_false (rf.last_applied + 1) rf.last_included_index (omega arith),
          le→ltb_false (get_log_length rf) (rf.commit_index + 1) (omega arith),
          lt→leb_false (rf.last_applied + 1) rf.last_included_index (omega arith),
          le→ltb_false (rf.commit_index + 1) (rf.last_applied + 1) (omega arith),
        )
        refl

  fetch_batch_notified :
      rf.last_included_index ≤ rf.last_applied
      → rf.last_applied < rf.commit_index
      → rf.commit_index < get_log_length rf
      → fetch_batch (take_notification rf) ≡ ok next_batch
  unfolding fetch_batch get_logs
  fetch_batch_notified covered more inside = fetch_batch_lem covered more inside

  pub next_batch-Batch :
      rf.last_included_index ≤ rf.last_applied
      → rf.last_applied < rf.commit_index
      → rf.commit_index < get_log_length rf
      → Batch (suc rf.last_applied) next_batch
  unfolding next_batch
  next_batch-Batch covered more inside =
      let n = rf.commit_index + 1 - (rf.last_applied + 1) in
      let d = rf.last_applied + 1 - rf.last_included_index in
      let size = length-take n (drop d rf.log) in
      let rest = length-drop d rf.log in
      record {
        count = omega (arith, size, rest);
        entries = λ k h.
            get_elem?-take n k (drop d rf.log) (omega (arith, size, rest))
            ∙ (get_elem?-drop d k rf.log ∙ ap (get_elem? rf.log) (omega arith));
      }

  -- The messages are the commands of the log behind the applied index up to the commit index, each with
  -- its index.
  pub record Delivers (messages : List (ApplyMsg C)) : Type 0 where
    pub count : length messages + rf.last_applied ≡ rf.commit_index
    pub each :
        (k : ℕ)
        → k < length messages
        → (e : LogEntry C) × (get_elem? rf.log (suc rf.last_applied + k - rf.last_included_index)
            ≡ some e)
          × (get_elem? messages k ≡ some (command_msg e.command (suc rf.last_applied + k)))

  next_batch-Delivers :
      Batch (suc rf.last_applied) next_batch
      → Delivers (apply_messages (rf.last_applied + 1) next_batch)
  next_batch-Delivers batch =
      let size = length-apply_messages (rf.last_applied + 1) next_batch in
      record {
        count = omega (arith, size, batch.count);
        each = λ k h.
            let (e, at) = get_elem?_total next_batch k (omega (arith, size)) in
            (
              e,
              sym (batch.entries k (omega (arith, size))) ∙ at,
              get_elem?-apply_messages (rf.last_applied + 1) next_batch k e at
                  ∙ ap (λ i. some (command_msg e.command i)) (omega arith),
            );
      }

  -- A peer that is behind its commit index, whose snapshot covers nothing that is still to be applied, and
  -- whose commit index is inside the log, delivers at a notification the commands of the entries behind its
  -- applied index up to its commit index, in order, each with its index in the log, and nothing else; then
  -- all that is committed is applied.
  pub apply_round-Delivers :
      rf.last_included_index ≤ rf.last_applied
      → rf.last_applied < rf.commit_index
      → rf.commit_index < get_log_length rf
      → (new : Raft C) × (messages : List (ApplyMsg C)) × (apply_round rf ≡ ok new)
        × Delivers messages
        × (new.apply_ch ≡ rf.apply_ch ++ messages)
        × (new.last_applied ≡ rf.commit_index)
  unfolding apply_round finish_batch
  apply_round-Delivers covered more inside =
      let batch = next_batch-Batch covered more inside in
      (
        finish_batch (take_notification rf) (rf.last_applied + 1) next_batch,
        apply_messages (rf.last_applied + 1) next_batch,
        ap
            (λ o. o >>= λ entries.
              ok (finish_batch (take_notification rf) (rf.last_applied + 1) entries))
            (fetch_batch_notified covered more inside),
        next_batch-Delivers batch,
        refl,
        omega (arith, batch.count),
      )
