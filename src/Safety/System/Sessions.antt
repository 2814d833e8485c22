-- ===== src/Safety/System/Sessions.antt =====
-- What the handlers of a vote session do to its counter, its results and its node.
use zeroraft.Base.{
  ℕ, ◌+◌, ◌≤◌, ◌<◌, ◌≡◌, ◌⊎◌, inl, inr, refl, List, [], ◌∷◌, ◌++◌, true, ok, after, arith,
}
use zeroraft.Store.{State, NodeId}
use zeroraft.Rpc.{
  RequestVoteRequest, RequestVoteResponse, RequestVoteResponseReason, Sender, PeerRpc, rpc,
  vote_reply,
}
use zeroraft.Node.{World, send_request_vote_rpc}
use zeroraft.Role.Common.{respond_to_request_vote}
use zeroraft.Role.Candidate.{Election, VoteSession, initialize, on_vote_response, granted}
use zeroraft.Safety.{vote_request, learn_term, campaign, make, cast}
use zeroraft.Safety.Session.{IsVote, grants, needed}

pub grants-append : (xs ys : List RequestVoteResponse) → grants (xs ++ ys) ≡ grants xs + grants ys
grants-append [] ys = omega arith
grants-append (x ∷ xs) ys = ground (arith, grants-append xs ys)

module _ {S R P : Type 0} (st : State S R) where
  -- A response adds at most its vote, and the session tells of a victory only above the threshold.
  pub heard-counted :
      (n : ℕ) (r : RequestVoteResponse) (e : Election S R P)
      → let e' = after (on_vote_response st n r e) in
        (e'.granted_votes ≤ e.granted_votes + grants (r ∷ []))
        × (e'.results ≡ granted ∷ []
            → (e.results ≡ granted ∷ []) ⊎ (needed n < e.granted_votes + grants (r ∷ [])))
  unfolding on_vote_response
  heard-counted n r e = (ground arith, λ h. ground arith)

  -- It leaves the node, or is the move that learns a term.
  pub heard-world :
      (n : ℕ) (r : RequestVoteResponse) (e : Election S R P)
      → IsVote r ⊎ (e.current_term ≤ r.term)
      → ((after (on_vote_response st n r e)).world ≡ e.world)
        ⊎ ((after (on_vote_response st n r e)).world ≡ make st (learn_term r.term) e.world)
          × (e.current_term ≤ r.term)
  unfolding on_vote_response make
  heard-world n r e (inl v) = inl (ground arith)
  heard-world n r e (inr h) = go r.reason refl
    where
      go :
          (x : RequestVoteResponseReason)
          → r.reason ≡ x
          → ((after (on_vote_response st n r e)).world ≡ e.world)
            ⊎ ((after (on_vote_response st n r e)).world ≡ make st (learn_term r.term) e.world)
              × (e.current_term ≤ r.term)
      go RequestVoteResponseReason.stale_term q = inr (ground arith, h)
      go RequestVoteResponseReason.incomplete_log q = inr (ground arith, h)
      go RequestVoteResponseReason.already_voted q = inl (ground arith)
      go RequestVoteResponseReason.ok q = inl (ground arith)

  -- A request carries the term and the id of the node.
  pub asked_lem :
      (m : NodeId) (w w' : World S R P) (q : RequestVoteRequest) (tx : Sender)
      → send_request_vote_rpc st m w ≡ ok tt w'
      → w'.sent ≡ rpc m (PeerRpc.request_vote q tx) ∷ w.sent
      → (w'.node ≡ w.node) × (q.term ≡ w.current_term) × (q.candidate_id ≡ w.id)
  unfolding send_request_vote_rpc
  asked_lem m w w' q tx e h = ground arith

  -- A granted response is a vote for the sender of the request.
  pub cast-granted :
      (q : RequestVoteRequest) (tx : Sender) (w : World S R P) (r : RequestVoteResponse)
      → (after (respond_to_request_vote st q tx (record w { sent = [] }))).sent ≡ vote_reply r ∷ []
      → r.vote_granted ≡ true
      → cast st (vote_request q tx) w ≡ (q.term, q.candidate_id) ∷ []
  unfolding cast
  cast-granted q tx w r e g = rw (e, cast) (rw g refl)

  -- A candidacy is a vote for oneself, counted once.
  pub opened_lem :
      (w w' : World S R P) (v : VoteSession)
      → initialize w ≡ ok v w'
      → (w' ≡ make st campaign w)
        × (cast st campaign w ≡ (w'.current_term, w.id) ∷ [])
        × (v.granted_votes ≡ 1)
        × (v.results ≡ [])
  unfolding cast
  opened_lem w w' v e = (ground arith, ground arith, ground arith, ground arith)
