-- ===== src/Role/Common/Vote.antt =====
-- `respond_to_request_vote` of zeroraft/src/role/common.rs: its answer, and what it leaves behind.
use zeroraft.Base.{
  ℕ, ◌≤◌, ◌<◌, ◌≡◌, ◌⊎◌, true, none, some, List, ◌∷◌, arith, Returns, length, last?, ok,
}
use zeroraft.Store.{State, LogEntry}
use zeroraft.Store.Laws.{View, IsState, IsReliable, term_or_zero, vote_writes}
use zeroraft.Rpc.{RequestVoteRequest, RequestVoteResponse, vote_reply}
use zeroraft.Node.{World, follower}
use zeroraft.Role.Common.{respond_to_request_vote}

-- The vote of the node in this term is still free.
abbrev pub MayVote : {S R P : Type 0} → World S R P → RequestVoteRequest → Type 0
MayVote w request =
    (w.current_term < request.term) ⊎ (w.current_term ≡ request.term) × (w.voted_for ≡ none)

-- The candidate's last entry is of a later term than the log's, or of the same term at no smaller
-- an index.
abbrev pub IsUpToDate : {R : Type 0} → List (LogEntry R) → RequestVoteRequest → Type 0
IsUpToDate log request =
    (term_or_zero (last? log) < request.last_log_term)
    ⊎ (term_or_zero (last? log) ≡ request.last_log_term) × (length log ≤ request.last_log_index)

-- How the node `w` answers `request` by the response `r`, and the node `w'` that it is then.
pub record VoteAnswer {S R P : Type 0} (view : S → View R) (request : RequestVoteRequest)
    (w w' : World S R P) (r : RequestVoteResponse) : Type 0 where
  -- One response, of the node's id and its term before the call.
  pub sent : w'.sent ≡ vote_reply r ∷ w.sent
  pub from : r.id ≡ w.id
  pub term : r.term ≡ w.current_term
  pub granted_if : MayVote w request × IsUpToDate (view w.state).log request → r.vote_granted ≡ true
  pub free : r.vote_granted ≡ true → MayVote w request
  pub up_to_date : r.vote_granted ≡ true → IsUpToDate (view w.state).log request
  pub term_taken : r.vote_granted ≡ true → w'.current_term ≡ request.term
  pub vote_cast : r.vote_granted ≡ true → w'.voted_for ≡ some request.candidate_id
  pub steps_down : r.vote_granted ≡ true → w'.current_state ≡ follower
  pub log_kept : (view w'.state).log ≡ (view w.state).log
  pub commit_kept : (view w'.state).commit ≡ (view w.state).commit
  pub membership_kept : (view w'.state).membership ≡ (view w.state).membership

module _ {S R P : Type 0} {base : ℕ} {st : State S R} (laws : IsState base st) where
  open laws use {view}

  -- Over a lawful store that does not fail, with the requester still there, the call ends with `Ok`
  -- and one response, of the node's id and its term before the call. The vote is granted exactly if
  -- the request is of a later term, or of this term and no vote was cast yet, and the candidate's log
  -- is up to date. A granted vote is recorded under the request's term, the node is a follower then,
  -- and in any case the log, the commit index and the membership stay as they were.
  pub respond_to_request_vote_lem :
      IsReliable st
      → (request : RequestVoteRequest) (w : World S R P)
      → Returns
          (respond_to_request_vote st request (record { live = true }) w)
          λ w'. (r : RequestVoteResponse) × VoteAnswer view request w w' r
  unfolding respond_to_request_vote
  respond_to_request_vote_lem rel request w =
      let (s₁, s₂, e₁, e₂, kept) = vote_writes laws rel request.term request.candidate_id w.state in
      go s₁ s₂ e₁ e₂ kept (laws.last_term_lem s₂) (laws.last_index_lem s₂)
    where
      go :
          (s₁ s₂ : S)
          → st.store_current_term request.term w.state ≡ ok tt s₁
          → st.store_voted_for request.candidate_id s₁ ≡ ok tt s₂
          → view s₂ ≡ record (view w.state) { vote = some request.candidate_id }
          → st.get_last_term s₂ ≡ term_or_zero (last? (view s₂).log)
          → st.get_last_index s₂ ≡ length (view s₂).log
          → Returns
              (respond_to_request_vote st request (record { live = true }) w)
              λ w'. (r : RequestVoteResponse) × VoteAnswer view request w w' r
      go s₁ s₂ e₁ e₂ kept t i = ground arith
