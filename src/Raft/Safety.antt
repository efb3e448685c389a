-- ===== src/Raft/Safety.antt =====
-- Runs of a peer: terms, votes, and what a restart finds.
use mit_distributed_system.Prelude.{arith, ◌∙◌, sym}
use mit_distributed_system.Raft.State.{Raft}
use mit_distributed_system.Raft.Persist.{Codec}
use mit_distributed_system.Raft.Leader.{leader_init}
use mit_distributed_system.Raft.Commit.{finish_batch}
use mit_distributed_system.Raft.Evolve
use mit_distributed_system.Raft.Evolve.{Evolves}
use mit_distributed_system.Raft.Step.{PlainStep, Step, Run}

module _ {C : Type 0} (codec : Codec C) where
  Evolves-refl : (rf : Raft C) → Evolves rf rf
  Evolves-refl rf = ground arith

  Evolves-trans : {a b c : Raft C} → Evolves a b → Evolves b c → Evolves a c
  Evolves-trans p q = record {
    term_grows = omega (arith, p.term_grows, q.term_grows);
    vote_kept = λ e n.
        let first = p.vote_kept (omega (arith, p.term_grows, q.term_grows)) n in
        q.vote_kept (omega (arith, p.term_grows, q.term_grows)) (λ m. n (sym first ∙ m)) ∙ first;
  }

  PlainStep-Evolves : {rf rf' : Raft C} → PlainStep codec rf rf' → Evolves rf rf'
  unfolding leader_init finish_batch
  PlainStep-Evolves {rf} (PlainStep.vote_requested args reply h) =
      Evolve.request_vote-Evolves codec rf args h
  PlainStep-Evolves {rf} (PlainStep.vote_replied this_term votes reply h) =
      ground (arith, Evolve.handle_vote_reply-Evolves codec rf this_term votes reply)
  PlainStep-Evolves {rf} (PlainStep.timer_ticked h) = ground arith
  PlainStep-Evolves {rf} (PlainStep.election_timed_out h) =
      ground (arith, Evolve.election_timeout-Evolves codec rf)
  PlainStep-Evolves {rf} (PlainStep.election_began h) =
      ground (arith, Evolve.do_election-Evolves codec rf)
  PlainStep-Evolves {rf} (PlainStep.lead_began h) = ground arith
  PlainStep-Evolves {rf} (PlainStep.entries_received args reply h) =
      Evolve.append_entries-Evolves codec rf args h
  PlainStep-Evolves {rf} (PlainStep.command_started command answer h) =
      ground (arith, Evolve.start-SameVote codec rf command h)
  PlainStep-Evolves {rf} (PlainStep.append_replied to args reply next h) =
      Evolve.handle_append_reply-Evolves codec rf to args reply h
  PlainStep-Evolves {rf} (PlainStep.snapshot_replied to args term next h) =
      Evolve.handle_snapshot_reply-Evolves codec rf to args term h
  PlainStep-Evolves {rf} (PlainStep.heartbeat_replied from args reply h) =
      Evolve.handle_heartbeat_reply-Evolves codec rf from args reply h
  PlainStep-Evolves {rf} (PlainStep.commit_tried this_term i next h) =
      ground (arith, Evolve.commit_round-SameVote codec rf this_term i h)
  PlainStep-Evolves {rf} (PlainStep.notified h) = ground arith
  PlainStep-Evolves {rf} (PlainStep.batch_finished next_applied entries h) = ground arith
  PlainStep-Evolves {rf} (PlainStep.killed h) = ground arith

  Step-Evolves : {rf rf' : Raft C} → Step codec rf rf' → Evolves rf rf'
  Step-Evolves (Step.plain p) = PlainStep-Evolves p
  Step-Evolves {rf} (Step.snapshot_taken index snapshot h) =
      ground (arith, Evolve.take_snapshot-SameVote codec rf index snapshot h)
  Step-Evolves {rf} (Step.snapshot_received args term h) =
      Evolve.install_snapshot-Evolves codec rf args h

  -- Whatever a peer does and in whatever order, without a restart its term never falls, and a vote
  -- that it has given stays the same for as long as the term does.
  pub Run-Evolves : {rf rf' : Raft C} → Run codec rf rf' → Evolves rf rf'
  Run-Evolves {rf} Run.here = Evolves-refl rf
  Run-Evolves (Run.next r s) = Evolves-trans (Run-Evolves r) (Step-Evolves s)
