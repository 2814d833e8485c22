-- ===== src/Tasks/Alone.antt =====
-- A handler that no other task comes between.
use zeroraft.Base.{◌≡◌, refl, ap, after, arith}
use zeroraft.Store.{State}
use zeroraft.Rpc.{AppendEntriesRequest, RequestVoteRequest, Sender}
use zeroraft.Node.{
  World, on_state, update_current_term, change_state, change_to_follower_state, increment_term,
  vote_for_self,
}
use zeroraft.Role.Common.{respond_to_request_vote, respond_to_append_entries}
use zeroraft.Role.Candidate.{initialize}
use zeroraft.Safety.{Move, vote_request, append_request, campaign, learn_term, turn, write, make}
use zeroraft.Tasks.{uninterrupted, task_of, vote_task, append_task, campaign_task, learn_task}

module _ {S R P : Type 0} (st : State S R) where
  uninterrupted-vote_task :
      (request : RequestVoteRequest) (tx : Sender) (w : World S R P)
      → uninterrupted (vote_task st request tx) w ≡ respond_to_request_vote st request tx w
  unfolding uninterrupted vote_task respond_to_request_vote
  uninterrupted-vote_task request tx w = ground arith

  uninterrupted-append_task :
      (request : AppendEntriesRequest R) (tx : Sender) (w : World S R P)
      → uninterrupted (append_task st request tx) w ≡ respond_to_append_entries st request tx w
  unfolding uninterrupted append_task respond_to_append_entries
  uninterrupted-append_task request tx w = ground arith

  uninterrupted-task_of :
      (m : Move S R) (w : World S R P) → after (uninterrupted (task_of st m) w) ≡ make st m w
  unfolding uninterrupted task_of make campaign_task learn_task initialize increment_term
      vote_for_self update_current_term change_state change_to_follower_state on_state
  uninterrupted-task_of (vote_request q tx) w = ap after (uninterrupted-vote_task q tx w)
  uninterrupted-task_of (append_request q tx) w = ap after (uninterrupted-append_task q tx w)
  uninterrupted-task_of campaign w = refl
  uninterrupted-task_of (learn_term t) w = ground arith
  uninterrupted-task_of (turn s) w = refl
  uninterrupted-task_of (write m) w = ground arith

  -- A handler during which no other task touches the shared state ends as its one-step model does, and
  -- leaves the same state: both RPC handlers, however they end, and every move.
  uninterrupted-atomic :
      (q : RequestVoteRequest) (a : AppendEntriesRequest R) (tx : Sender) (m : Move S R)
      (w : World S R P)
      → (uninterrupted (vote_task st q tx) w ≡ respond_to_request_vote st q tx w)
        × (uninterrupted (append_task st a tx) w ≡ respond_to_append_entries st a tx w)
        × (after (uninterrupted (task_of st m) w) ≡ make st m w)
  uninterrupted-atomic q a tx m w =
      (uninterrupted-vote_task q tx w, uninterrupted-append_task a tx w, uninterrupted-task_of m w)
