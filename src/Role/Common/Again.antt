-- ===== src/Role/Common/Again.antt =====
-- A vote request that comes again: `respond_to_request_vote` of zeroraft/src/role/common.rs.
use zeroraft.Base.{ℕ, ◌≡◌, true, false, some, arith, ◌∷◌, ok, Returns-ok, refl}
use zeroraft.Store.{State}
use zeroraft.Store.Laws.{IsState, IsReliable}
use zeroraft.Rpc.{RequestVoteRequest, RequestVoteResponse, RequestVoteResponseReason, vote_reply}
use zeroraft.Node.{World}
use zeroraft.Role.Common.{respond_to_request_vote}
use zeroraft.Role.Common.Vote.{MayVote, IsUpToDate, respond_to_request_vote_lem}

module _ {S R P : Type 0} (st : State S R) where
  voted_already :
      (request : RequestVoteRequest) (w : World S R P)
      → w.current_term ≡ request.term
      → w.voted_for ≡ some request.candidate_id
      → respond_to_request_vote st request (record { live = true }) w
        ≡ ok tt (record w {
          sent =
              vote_reply (record {
                term = request.term;
                vote_granted = false;
                id = w.id;
                reason = RequestVoteResponseReason.already_voted;
              })
              ∷ w.sent;
        })
  unfolding respond_to_request_vote
  voted_already request w t v = ground arith

module _ {S R P : Type 0} {base : ℕ} {st : State S R} (laws : IsState base st)
    (rel : IsReliable st) where
  -- Over a lawful store that does not fail: a node that grants its vote and is then sent the same
  -- request again, as a candidate does that missed the response, refuses it as already voted, and
  -- nothing but this response is new of the node. So a lost response is a lost vote.
  pub respond_to_request_vote-again :
      (request : RequestVoteRequest) (w : World S R P)
      → MayVote w request
      → IsUpToDate (laws.view w.state).log request
      → (w₁ : World S R P) × (w₂ : World S R P) × (r₁ : RequestVoteResponse)
        × (r₂ : RequestVoteResponse) × (respond_to_request_vote st request
              (record { live = true })
              w
            ≡ ok tt w₁)
        × (w₁.sent ≡ vote_reply r₁ ∷ w.sent)
        × (r₁.vote_granted ≡ true)
        × (respond_to_request_vote st request (record { live = true }) w₁ ≡ ok tt w₂)
        × (w₂.sent ≡ vote_reply r₂ ∷ w₁.sent)
        × (r₂.vote_granted ≡ false)
        × (r₂.reason ≡ RequestVoteResponseReason.already_voted)
        × (w₂.node ≡ w₁.node)
  respond_to_request_vote-again request w may up =
      let (_, w₁, first, (r, a)) =
        Returns-ok (respond_to_request_vote st request (record { live = true }) w) _
          (respond_to_request_vote_lem laws rel request w) in
      let yes' = a.granted_if (may, up) in
      (
        w₁,
        _,
        r,
        _,
        first,
        a.sent,
        yes',
        voted_already st request w₁ (a.term_taken yes') (a.vote_cast yes'),
        refl,
        refl,
        refl,
        refl,
      )
