-- ===== src/Role/Common/Term.antt =====
-- The term of a node while it answers one of the RPCs of zeroraft/src/role/common.rs.
use zeroraft.Base.{◌≤◌, arith, after}
use zeroraft.Store.{State}
use zeroraft.Rpc.{AppendEntriesRequest, RequestVoteRequest, Sender}
use zeroraft.Node.{World}
use zeroraft.Role.Common.{respond_to_request_vote, respond_to_append_entries}

module _ {S R P : Type 0} (st : State S R) (w : World S R P) (tx : Sender) where
  pub vote_term_le :
      (request : RequestVoteRequest)
      → w.current_term ≤ (after (respond_to_request_vote st request tx w)).current_term
  unfolding respond_to_request_vote
  vote_term_le request = ground arith

  pub append_term_le :
      (request : AppendEntriesRequest R)
      → w.current_term ≤ (after (respond_to_append_entries st request tx w)).current_term
  unfolding respond_to_append_entries
  append_term_le request = ground arith
