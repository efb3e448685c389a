-- ===== src/Raft/Crash.antt =====
-- What a restart finds: Make over the persister that a run has left.
use mit_distributed_system.Prelude.{
  ℕ, ◌≤◌, ◌<◌, ◌≡◌, refl, ok, arith, sym, pos, le→leb, lt→ltb, true, false, ap, ◌>>=◌, subst,
}
use mit_distributed_system.Gob.{Bytes}
use mit_distributed_system.Raft.State.{Raft}
use mit_distributed_system.Raft.Persist.{Codec, persist, persistent_state, read_persist}
use mit_distributed_system.Raft.Persist.RoundTrip.{restored, read_persist-persist}
use mit_distributed_system.Raft.Vote.{
  RequestVoteArgs, request_vote, election_timeout, consider_vote, is_newer_than_me, grant_vote,
  step_down,
}
use mit_distributed_system.Raft.Leader.{leader_init}
use mit_distributed_system.Raft.Commit.{finish_batch}
use mit_distributed_system.Raft.Snapshot.{take_snapshot, save_snapshot}
use mit_distributed_system.Raft.Make.{make, fresh, skip_snapshotted}
use mit_distributed_system.Raft.Durable
use mit_distributed_system.Raft.Durable.{IsSaved}
use mit_distributed_system.Raft.Step.{PlainStep, PlainRun}

module _ {C : Type 0} (codec : Codec C) where
  PlainStep-IsSaved :
      {rf rf' : Raft C} → PlainStep codec rf rf' → IsSaved codec rf → IsSaved codec rf'
  unfolding leader_init finish_batch persistent_state election_timeout
  PlainStep-IsSaved {rf} (PlainStep.vote_requested args reply h) s =
      Durable.request_vote-Saves codec rf args h s
  PlainStep-IsSaved {rf} (PlainStep.vote_replied this_term votes reply h) s =
      ground (arith, Durable.handle_vote_reply-Saves codec rf this_term votes reply s)
  PlainStep-IsSaved {rf} (PlainStep.timer_ticked h) s = ground arith
  PlainStep-IsSaved {rf} (PlainStep.election_timed_out h) s = ground arith
  PlainStep-IsSaved {rf} (PlainStep.election_began h) s =
      ground (arith, Durable.do_election-Saves codec rf)
  PlainStep-IsSaved {rf} (PlainStep.lead_began h) s = ground arith
  PlainStep-IsSaved {rf} (PlainStep.entries_received args reply h) s =
      Durable.append_entries-Saves codec rf args h s
  PlainStep-IsSaved {rf} (PlainStep.command_started command answer h) s =
      Durable.start-Saves codec rf command h s
  PlainStep-IsSaved {rf} (PlainStep.append_replied to args reply next h) s =
      Durable.handle_append_reply-Saves codec rf to args reply h s
  PlainStep-IsSaved {rf} (PlainStep.snapshot_replied to args term next h) s =
      Durable.handle_snapshot_reply-Saves codec rf to args term h s
  PlainStep-IsSaved {rf} (PlainStep.heartbeat_replied from args reply h) s =
      Durable.handle_heartbeat_reply-Saves codec rf from args reply h s
  PlainStep-IsSaved {rf} (PlainStep.commit_tried this_term i next h) s =
      Durable.commit_round-Saves codec rf this_term i h s
  PlainStep-IsSaved {rf} (PlainStep.notified h) s = ground arith
  PlainStep-IsSaved {rf} (PlainStep.batch_finished next_applied entries h) s = ground arith
  PlainStep-IsSaved {rf} (PlainStep.killed h) s = ground arith

  PlainRun-IsSaved :
      {rf rf' : Raft C} → PlainRun codec rf rf' → IsSaved codec rf → IsSaved codec rf'
  PlainRun-IsSaved PlainRun.here s = s
  PlainRun-IsSaved (PlainRun.next r p) s = PlainStep-IsSaved p (PlainRun-IsSaved r s)

  -- The peer that Make builds from what `rf` has persisted.
  abbrev pub Restarts : Raft C → Raft C → Type 0
  Restarts rf new =
      (new.current_term ≡ rf.current_term)
      × (new.voted_for ≡ rf.voted_for)
      × (new.log ≡ rf.log)
      × (new.last_included_index ≡ rf.last_included_index)
      × (new.last_included_term ≡ rf.last_included_term)
      × (new.commit_index ≡ rf.last_included_index)
      × (new.last_applied ≡ rf.last_included_index)

  make-IsSaved :
      (rf : Raft C) (peers me : ℕ)
      → IsSaved codec rf
      → (new : Raft C) × (make codec peers me rf.persister ≡ ok new) × Restarts rf new
  unfolding make skip_snapshotted persist
  make-IsSaved rf peers me s = (
    skip_snapshotted (restored blank rf),
    ap (λ o. o >>= λ new. ok (skip_snapshotted new)) read,
    (
      ground arith,
      ground arith,
      ground arith,
      ground arith,
      ground arith,
      ground arith,
      ground arith,
    ),
  )
    where
      blank : Raft C
      blank = fresh peers me rf.persister

      read : read_persist codec blank rf.persister.raftstate ≡ ok (restored blank rf)
      read =
          subst (λ bytes. read_persist codec blank bytes ≡ ok (restored blank rf)) (sym s)
            (read_persist-persist codec rf blank)

  -- After any run without snapshots from a peer whose state was persisted, a restart succeeds and
  -- finds the term, the vote, the log and the snapshot position of the moment of the crash.
  pub restart_restores :
      {rf rf' : Raft C} (peers me : ℕ)
      → PlainRun codec rf rf'
      → IsSaved codec rf
      → (new : Raft C) × (make codec peers me rf'.persister ≡ ok new) × Restarts rf' new
  restart_restores {rf' = rf'} peers me run s = make-IsSaved rf' peers me (PlainRun-IsSaved run s)

  -- A snapshot that trims the log leaves an empty persisted state, so that a restart before the next
  -- write to the persister begins in term 0 with no vote and no log.
  pub take_snapshot-loses :
      (rf rf' : Raft C) (index peers me : ℕ) (snapshot : Bytes)
      → rf.dead ≡ false
      → rf.last_included_index < index
      → index ≤ rf.commit_index
      → index ≤ rf.last_applied
      → take_snapshot codec rf index snapshot ≡ ok rf'
      → make codec peers me rf'.persister ≡ ok (fresh peers me rf'.persister)
  unfolding take_snapshot save_snapshot read_persist make skip_snapshotted
  take_snapshot-loses rf rf' index peers me snapshot alive new committed applied h = ground arith

  -- So the peer can vote twice in one term: after such a snapshot and a restart it grants its vote of
  -- any term from 1 on to any candidate, whatever it had voted before.
  pub take_snapshot-double_vote :
      (rf rf' : Raft C) (index peers me : ℕ) (snapshot : Bytes) (args : RequestVoteArgs)
      → rf.dead ≡ false
      → rf.last_included_index < index
      → index ≤ rf.commit_index
      → index ≤ rf.last_applied
      → take_snapshot codec rf index snapshot ≡ ok rf'
      → 1 ≤ args.term
      → (new : Raft C) × (make codec peers me rf'.persister ≡ ok new)
        × (new' : Raft C) × (request_vote codec new args
            ≡ ok (new', record { term = args.term; vote_granted = true }))
        × (new'.voted_for ≡ pos args.candidate_id)
  unfolding request_vote consider_vote is_newer_than_me persist
  take_snapshot-double_vote rf rf' index peers me snapshot args alive new committed applied h t = (
    blank,
    take_snapshot-loses rf rf' index peers me snapshot alive new committed applied h,
    grant_vote codec (step_down codec blank args.term) args.candidate_id,
    rw (le→leb 0 args.term (omega arith), lt→ltb 0 args.term t) refl,
    refl,
  )
    where
      blank : Raft C
      blank = fresh peers me rf'.persister
