-- ===== src/Tasks.antt =====
-- The handlers of zeroraft/src/role/common.rs and the methods of node.rs that they call, a step at a
-- time: what the other tasks of a node do may come between any two of their accesses to the shared state.
pub mod Alone
pub mod Interleaved
use zeroraft.Base.{
  ℕ, ◌+◌, ◌≤◌, ◌<◌, List, [], ◌∷◌, Bool, true, false, Option, none, some, Action, ok, err, panic,
  blocked, after, modify, if◌then◌else◌, ltb, ◌==◌, ◌&&◌, ◌||◌, is_some, length, min,
}
use zeroraft.Store.{NodeId, LogEntry, State}
use zeroraft.Rpc.{
  AppendEntriesRequest, AppendEntriesResponseReason, RequestVoteRequest, RequestVoteResponseReason,
  Sender,
}
use zeroraft.Node.{
  World, Node, TaskState, follower, set_node, on_state, change_state, increment_term, vote_for_self,
  update_last_heard_from_leader, update_leader_id,
}
use zeroraft.Role.Common.{answer_vote, answer_append, term_differs}
use zeroraft.Safety.{Ballot, Move, vote_request, append_request, campaign, learn_term, turn, write}

-- What is left to do of a handler. `look` is a read of the shared state, `perform` a write or a send, and
-- `cast` marks a vote of the node in a list that the program does not have.
pub data Task (W : Type 0) : Type 0 where
  done : Task W
  look : (W → Task W) → Task W
  perform : Action W (Unit {0}) → Task W → Task W
  cast : (W → Ballot) → Task W → Task W

-- The task with nothing in between.
unfoldable pub uninterrupted : {W : Type 0} → Task W → Action W (Unit {0})
uninterrupted done w = ok tt w
uninterrupted (look k) w = uninterrupted (k w) w
uninterrupted (perform m t) w = elim (m w) [
  | ok _ w' ↦ uninterrupted t w'
  | err e w' ↦ err e w'
  | panic w' ↦ panic w'
  | blocked w' ↦ blocked w'
]
uninterrupted (cast _ t) w = uninterrupted t w

module _ {S R P : Type 0} where
  abbrev pub set_term : ℕ → Action (World S R P) (Unit {0})
  set_term t = modify (set_node (λ n. record n { current_term = t }))

  abbrev pub set_vote : NodeId → Action (World S R P) (Unit {0})
  set_vote c = modify (set_node (λ n. record n { voted_for = some c }))

  -- `VoteSession::initialize`; the vote is one in the term that the node is in then.
  unfoldable pub campaign_task : Task (World S R P)
  unfolding increment_term vote_for_self
  campaign_task =
      perform increment_term (perform vote_for_self (cast (λ w. (w.current_term, w.id)) done))

module _ {S R P : Type 0} (st : State S R) where
  -- The end of `respond_to_request_vote`, by the last index and the last term that were read.
  unfoldable pub check_log : RequestVoteRequest → Sender → ℕ → NodeId → ℕ → ℕ → Task (World S R P)
  unfolding answer_vote
  check_log request tx our_term our_id last_index last_term =
      if ltb request.last_log_term last_term
        || (last_term == request.last_log_term && ltb request.last_log_index last_index)
      then perform (answer_vote tx our_term our_id false RequestVoteResponseReason.incomplete_log)
          done
      else perform (answer_vote tx our_term our_id true RequestVoteResponseReason.ok)
          (cast (λ _. (request.term, request.candidate_id)) done)

  -- `update_current_term_and_voted_for` and what follows it.
  unfoldable pub take_vote : RequestVoteRequest → Sender → ℕ → NodeId → Task (World S R P)
  unfolding check_log on_state change_state
  take_vote request tx our_term our_id = perform (on_state (st.store_current_term request.term)) (
      perform (on_state (st.store_voted_for request.candidate_id)) (
        perform (set_term request.term) (
          perform (set_vote request.candidate_id) (
            perform (change_state follower) (
              look λ u. look λ v.
                check_log request tx our_term our_id (st.get_last_index u.state)
                  (st.get_last_term v.state))))))

  unfoldable pub check_stale : RequestVoteRequest → Sender → ℕ → NodeId → Task (World S R P)
  unfolding take_vote answer_vote
  check_stale request tx our_term our_id =
      if ltb request.term our_term
      then perform (answer_vote tx our_term our_id false RequestVoteResponseReason.stale_term) done
      else take_vote request tx our_term our_id

  -- `respond_to_request_vote`
  unfoldable pub vote_task : RequestVoteRequest → Sender → Task (World S R P)
  unfolding check_stale answer_vote
  vote_task request tx = look λ w.
      if w.current_term == request.term
      then (look λ v.
          if is_some v.voted_for
          then perform
              (answer_vote tx w.current_term w.id false RequestVoteResponseReason.already_voted)
              done
          else check_stale request tx w.current_term w.id)
      else check_stale request tx w.current_term w.id

  unfoldable pub replace_task : AppendEntriesRequest R → Sender → ℕ → NodeId → Task (World S R P)
  unfolding answer_append on_state
  replace_task request tx our_term our_id =
      perform (on_state (st.remove_entries_after request.prev_log_index)) (
        perform (on_state (st.append_entries request.entries)) (
          look λ w.
            perform
              (on_state (
                st.set_last_commit_index
                  (min request.last_commit_index (st.get_last_index w.state))))
              (perform
                (answer_append tx our_term our_id true (length request.entries)
                  AppendEntriesResponseReason.ok)
                done)))

  -- The two checks of the previous entry; the second one reads the store again.
  unfoldable pub check_previous :
      AppendEntriesRequest R → Sender → ℕ → NodeId → ℕ → Task (World S R P)
  unfolding replace_task answer_append term_differs
  check_previous request tx our_term our_id last_index =
      if ltb last_index request.prev_log_index
      then perform
          (answer_append tx our_term our_id false 0 AppendEntriesResponseReason.log_mismatch) done
      else look λ w.
        if term_differs (st.get_entry request.prev_log_index w.state) request.prev_log_term
        then perform
            (answer_append tx our_term our_id false 0 AppendEntriesResponseReason.log_mismatch) done
        else replace_task request tx our_term our_id

  unfoldable pub take_leader : AppendEntriesRequest R → Sender → ℕ → NodeId → ℕ → Task (World S R P)
  unfolding check_previous on_state change_state update_last_heard_from_leader update_leader_id
  take_leader request tx our_term our_id last_index =
      perform (on_state (st.store_current_term request.term)) (
        perform (set_term request.term) (
          perform update_last_heard_from_leader (
            perform (update_leader_id request.leader_id) (
              perform (change_state follower)
                (check_previous request tx our_term our_id last_index)))))

  -- `respond_to_append_entries`
  unfoldable pub append_task : AppendEntriesRequest R → Sender → Task (World S R P)
  unfolding take_leader answer_append
  append_task request tx = look λ w. look λ v.
      if ltb request.term w.current_term
      then perform
          (answer_append tx w.current_term w.id false 0 AppendEntriesResponseReason.stale_term) done
      else take_leader request tx w.current_term w.id (st.get_last_index v.state)

  -- What a task of a session does to step down: `update_current_term`, `change_to_follower_state`.
  unfoldable pub learn_task : ℕ → Task (World S R P)
  unfolding on_state change_state
  learn_task t =
      perform (on_state (st.store_current_term t))
        (perform (set_term t) (perform (change_state follower) done))

  unfoldable pub task_of : Move S R → Task (World S R P)
  unfolding vote_task append_task campaign_task learn_task change_state on_state
  task_of (vote_request request tx) = vote_task request tx
  task_of (append_request request tx) = append_task request tx
  task_of campaign = campaign_task
  task_of (learn_term t) = learn_task t
  task_of (turn s) = perform (change_state s) done
  task_of (write m) = perform (on_state m) done
