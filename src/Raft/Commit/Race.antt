-- ===== src/Raft/Commit/Race.antt =====
-- InstallSnapshot between the two parts of a round of applyLoop (src/raft/raft.go), which delivers its
-- batch and raises lastApplied with no lock held.
use mit_distributed_system.Prelude.{ℕ, suc, ◌+◌, ◌≤◌, ◌<◌, ◌≡◌, refl, List, [], lt→ltb, arith, ok}
use mit_distributed_system.Raft.State.{Raft, LogEntry}
use mit_distributed_system.Raft.Log.{get_log_length}
use mit_distributed_system.Raft.Persist.{Codec, persist, read_persist}
use mit_distributed_system.Raft.Snapshot.{
  InstallSnapshotArgs, raise_to, save_snapshot, install_snapshot,
}
use mit_distributed_system.Raft.Commit.{fetch_batch, finish_batch}
use mit_distributed_system.Raft.Commit.Delivery.{next_batch, next_batch-Batch, fetch_batch_lem}

module _ {C : Type 0} (codec : Codec C) where
  install_snapshot_raises :
      (rf : Raft C) (args : InstallSnapshotArgs) {rf' : Raft C} {term : ℕ}
      → install_snapshot codec rf args ≡ ok (rf', term)
      → rf.current_term ≤ args.term
      → rf.last_included_index < args.last_included_index
      → rf.last_applied < args.last_included_index
      → (rf'.last_applied ≡ args.last_included_index)
        × (rf'.commit_index ≡ raise_to codec rf.commit_index args.last_included_index)
  unfolding install_snapshot save_snapshot persist read_persist
  install_snapshot_raises rf args h current newer ahead = ground arith

  caught_up : (rf : Raft C) → rf.commit_index ≤ rf.last_applied → fetch_batch rf ≡ ok []
  unfolding fetch_batch
  caught_up rf h = rw (lt→ltb rf.commit_index (suc rf.last_applied) (omega arith)) refl

  -- When a peer installs a snapshot between fetching a batch that it is behind with and finishing that
  -- batch, its applied index ends above its commit index, and then nothing is delivered for any
  -- commit index up to that applied index.
  pub finish_batch-install_snapshot :
      (rf : Raft C) (args : InstallSnapshotArgs) {rf' : Raft C} {term : ℕ}
      → rf.last_included_index ≤ rf.last_applied
      → rf.last_applied < rf.commit_index
      → rf.commit_index < get_log_length rf
      → rf.current_term ≤ args.term
      → rf.last_applied < args.last_included_index
      → install_snapshot codec rf args ≡ ok (rf', term)
      → (es : List (LogEntry C)) × (fetch_batch rf ≡ ok es)
        × (rf'.commit_index < (finish_batch rf' (rf.last_applied + 1) es).last_applied)
        × ((c : ℕ)
            → c ≤ (finish_batch rf' (rf.last_applied + 1) es).last_applied
            → fetch_batch (record (finish_batch rf' (rf.last_applied + 1) es) { commit_index = c })
              ≡ ok [])
  unfolding finish_batch
  finish_batch-install_snapshot rf args {rf'} covered more inside current ahead h =
      let raised = install_snapshot_raises rf args h current (omega arith) ahead in
      let batch = next_batch-Batch rf covered more inside in
      (
        next_batch rf,
        fetch_batch_lem rf covered more inside,
        ground (arith, raised.0, raised.1, batch.count),
        λ c below.
            caught_up
              (record (finish_batch rf' (rf.last_applied + 1) (next_batch rf)) { commit_index = c })
              below,
      )
