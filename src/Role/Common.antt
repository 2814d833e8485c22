-- ===== src/Role/Common.antt =====
-- zeroraft/src/role/common.rs: how a node of any role answers the two RPCs.
pub mod Term
pub mod Vote
pub mod Append
pub mod Again
use zeroraft.Base.{
  ℕ, Bool, true, false, ◌&&◌, ◌||◌, Option, none, some, Action, ◌>>=◌, ◌>>◌, gets, ltb, ◌==◌,
  if◌then◌else◌, is_some, length, min,
}
use zeroraft.Store.{NodeId, LogEntry, State}
use zeroraft.Rpc.{
  AppendEntriesRequest, AppendEntriesResponseReason, RequestVoteRequest, RequestVoteResponseReason,
  Sender, vote_reply, append_reply,
}
use zeroraft.Node.{
  get_current_term, get_id, get_voted_for, World, send, on_state, change_to_follower_state,
  update_last_heard_from_leader, update_leader_id, update_current_term,
  update_current_term_and_voted_for,
}

-- `if let Some(entry) = … { if entry.term != prev_log_term { … } }`
unfoldable pub term_differs : {R : Type 0} → Option (LogEntry R) → ℕ → Bool
term_differs none t = false
term_differs (some e) t = if e.term == t then false else true

module _ {S R P : Type 0} where
  -- A response that carries the term that the node had when the request came.
  unfoldable pub answer_vote :
      Sender → ℕ → NodeId → Bool → RequestVoteResponseReason → Action (World S R P) (Unit {0})
  unfolding send
  answer_vote tx term id granted reason =
      send tx.live
        (vote_reply (record { term = term; vote_granted = granted; id = id; reason = reason }))

  unfoldable pub answer_append :
      Sender → ℕ → NodeId → Bool → ℕ → AppendEntriesResponseReason → Action (World S R P) (Unit {0})
  unfolding send
  answer_append tx term id success len reason = send tx.live (
      append_reply (record { term = term; success = success; id = id; len = len; reason = reason }))

  module _ (st : State S R) where
    -- The last log of the node is ahead of the candidate's.
    unfoldable pub is_ahead : RequestVoteRequest → World S R P → Bool
    is_ahead request w =
        ltb request.last_log_term (st.get_last_term w.state)
        || (st.get_last_term w.state == request.last_log_term
            && ltb request.last_log_index (st.get_last_index w.state))

    unfoldable pub respond_to_request_vote :
        RequestVoteRequest → Sender → Action (World S R P) (Unit {0})
    unfolding answer_vote is_ahead update_current_term_and_voted_for change_to_follower_state
    respond_to_request_vote request tx = do
      our_term ← gets get_current_term
      our_id ← gets get_id
      voted_for ← gets get_voted_for
      if our_term == request.term && is_some voted_for
          then answer_vote tx our_term our_id false RequestVoteResponseReason.already_voted
          else if ltb request.term our_term
          then answer_vote tx our_term our_id false RequestVoteResponseReason.stale_term
          else do
            update_current_term_and_voted_for st request.term request.candidate_id
            change_to_follower_state
            ahead ← gets (is_ahead request)
            if ahead
                then answer_vote tx our_term our_id false RequestVoteResponseReason.incomplete_log
                else answer_vote tx our_term our_id true RequestVoteResponseReason.ok

    -- Truncate after `prev_log_index`, append, and follow the leader's commit index.
    unfoldable pub replace_entries : AppendEntriesRequest R → Action (World S R P) (Unit {0})
    unfolding on_state
    replace_entries request = do
      on_state (st.remove_entries_after request.prev_log_index)
      on_state (st.append_entries request.entries)
      our_last_log_index ← gets (λ w. st.get_last_index w.state)
      on_state (st.set_last_commit_index (min request.last_commit_index our_last_log_index))

    unfoldable pub respond_to_append_entries :
        AppendEntriesRequest R → Sender → Action (World S R P) (Unit {0})
    unfolding answer_append term_differs replace_entries update_current_term
        update_last_heard_from_leader update_leader_id change_to_follower_state
    respond_to_append_entries request tx = do
      our_term ← gets get_current_term
      our_id ← gets get_id
      our_last_log_index ← gets (λ w. st.get_last_index w.state)
      if ltb request.term our_term
          then answer_append tx our_term our_id false 0 AppendEntriesResponseReason.stale_term
          else do
            update_current_term st request.term
            update_last_heard_from_leader
            update_leader_id request.leader_id
            change_to_follower_state
            entry ← gets (λ w. st.get_entry request.prev_log_index w.state)
            if ltb our_last_log_index request.prev_log_index
                  || term_differs entry request.prev_log_term
                then answer_append tx our_term our_id false 0
                    AppendEntriesResponseReason.log_mismatch
                else do
                  replace_entries request
                  answer_append tx our_term our_id true (length request.entries)
                      AppendEntriesResponseReason.ok
