-- ===== src/Raft/Vote.antt =====
-- Elections: the RequestVote handler of src/raft/raft.go, the candidate's loop over the replies in
-- sendRequestVoteToAll, doElection, and the time-out of followerMain. Timers and channels are left
-- to the environment, which chooses when an operation runs.
pub mod Rules
use mit_distributed_system.Prelude.{
  ℕ, ◌+◌, ◌-◌, ◌/◌, ℤ, pos, minus_one, ◌==ℤ◌, Bool, true, false, not, ◌&&◌, ◌||◌, ltb, leb, ◌==◌,
  if◌then◌else◌, Outcome, ok, ◌>>=◌,
}
use mit_distributed_system.Raft.State.{Raft, is_state, update_term, candidate_state, leader_state}
use mit_distributed_system.Raft.Log.{get_log_length, get_term_of_log}
use mit_distributed_system.Raft.Persist.{Codec, persist}

pub record RequestVoteArgs : Type 0 where
  pub term : ℕ
  pub candidate_id : ℕ
  pub last_log_index : ℕ
  pub last_log_term : ℕ

pub record RequestVoteReply : Type 0 where
  pub term : ℕ
  pub vote_granted : Bool

module _ {C : Type 0} where
  -- isNewerThanMe
  unfoldable pub is_newer_than_me : Raft C → RequestVoteArgs → Outcome Bool
  is_newer_than_me rf args = if get_log_length rf == 1 then ok true else do
    last_term ← get_term_of_log rf (get_log_length rf - 1)
    ok (
        ltb last_term args.last_log_term
        || (args.last_log_term == last_term && leb (get_log_length rf - 1) args.last_log_index))

module _ {C : Type 0} (codec : Codec C) where
  -- currentTerm = term, votedFor = -1, state = followerState, persist(): the reaction of every
  -- handler to a newer term.
  abbrev pub step_down : Raft C → ℕ → Raft C
  step_down rf term = persist codec (update_term rf term)

  abbrev pub grant_vote : Raft C → ℕ → Raft C
  grant_vote rf candidate = persist codec (record rf {
    raft_state = record rf.raft_state { voted_for = pos candidate; reset_election_timer = true };
  })

  abbrev pub vote_reply : Raft C → Bool → Raft C × RequestVoteReply
  vote_reply rf granted = (rf, record { term = rf.current_term; vote_granted = granted })

  -- the part of the handler below the check of the term
  unfoldable pub consider_vote : Raft C → RequestVoteArgs → Outcome (Raft C × RequestVoteReply)
  consider_vote rf args =
      if rf.voted_for ==ℤ minus_one || rf.voted_for ==ℤ pos args.candidate_id
      then (do
        newer ← is_newer_than_me rf args
        ok (
            if newer
            then vote_reply (grant_vote rf args.candidate_id) true
            else vote_reply rf false))
      else ok (vote_reply rf false)

  unfoldable pub request_vote : Raft C → RequestVoteArgs → Outcome (Raft C × RequestVoteReply)
  unfolding consider_vote
  request_vote rf args =
      if leb rf.current_term args.term
      then consider_vote (if ltb rf.current_term args.term then step_down rf args.term else rf) args
      else ok (vote_reply rf false)

  -- The state changes of doElection, which then starts sendRequestVoteToAll.
  unfoldable pub do_election : Raft C → Raft C
  do_election rf = persist codec (record rf {
    raft_state = record rf.raft_state { current_term = rf.current_term + 1; voted_for = pos rf.me };
  })

  -- The end of followerMain's wait.
  unfoldable pub election_timeout : Raft C → Raft C
  election_timeout rf = record rf { raft_state = record rf.raft_state { state = candidate_state } }

  -- A tick of followerMain's wait, which starts anew if the timer was reset.
  abbrev pub timer_tick : Raft C → Raft C
  timer_tick rf =
      if rf.reset_election_timer
      then record rf { raft_state = record rf.raft_state { reset_election_timer = false } }
      else rf

  -- One request of sendRequestVoteToAll: the same for every peer but `me`.
  unfoldable pub vote_request : Raft C → ℕ → Outcome RequestVoteArgs
  vote_request rf this_term = do
    last_term ← get_term_of_log rf (get_log_length rf - 1)
    ok (record {
      term = this_term;
      candidate_id = rf.me;
      last_log_index = get_log_length rf - 1;
      last_log_term = last_term;
    })

  -- One round of the loop over the replies, at an answer that arrived (reply.ok): `none` is the
  -- loop's break; the count is grantedVoteSum.
  abbrev pub count_vote : Raft C → ℕ → Raft C × ℕ
  count_vote rf votes =
      if ltb (rf.peers / 2) (votes + 1) && is_state rf.raft_state candidate_state
      then (
        record rf {
          raft_state = record rf.raft_state { state = leader_state };
          leader_init_done = false;
        },
        votes + 1,
      )
      else (rf, votes + 1)

  unfoldable pub handle_vote_reply : Raft C → ℕ → ℕ → RequestVoteReply → Raft C × ℕ × Bool
  handle_vote_reply rf this_term votes reply =
      if ltb this_term rf.current_term || not (is_state rf.raft_state candidate_state)
      then (rf, votes, false)
      else let stepped = if ltb rf.current_term reply.term then step_down rf reply.term else rf in
        if reply.vote_granted
        then (let (rf', votes') = count_vote stepped votes in (rf', votes', true))
        else (stepped, votes, true)
