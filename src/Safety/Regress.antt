-- ===== src/Safety/Regress.antt =====
-- The response that lowers a candidate's term, and what it costs.
use zeroraft.Base.{
  ℕ, ◌+◌, ◌<◌, ◌≡◌, refl, ◌≢◌, ◌⊎◌, inl, inr, List, [], ◌∷◌, true, some, Returns, arith, ok, sym,
  subst, last?, length,
}
use zeroraft.Store.{State}
use zeroraft.Store.Laws.{IsState, IsReliable, Leaves-ok, term_or_zero, vote_writes}
use zeroraft.Rpc.{RequestVoteRequest, RequestVoteResponse, RequestVoteResponseReason}
use zeroraft.Node.{World, follower, u64_mod}
use zeroraft.Role.Common.Vote.{IsUpToDate}
use zeroraft.Role.Candidate.{Election, on_vote_response}
use zeroraft.Safety.{Move, vote_request, campaign, learn_term, ballots}
use zeroraft.Safety.Vote.{VotesOnce}

module _ {S R P : Type 0} (st : State S R) where
  -- Over a store whose writes do not fail, a candidate that hears of an incomplete log, or of a stale
  -- term, takes the term of that response
  -- whatever its own was, also a lower one, steps down and keeps its vote.
  on_vote_response-step_down :
      IsReliable st
      → (peers_len : ℕ) (r : RequestVoteResponse) (e : Election S R P)
      → (r.reason ≡ RequestVoteResponseReason.incomplete_log)
        ⊎ (r.reason ≡ RequestVoteResponseReason.stale_term)
      → Returns (on_vote_response st peers_len r e) λ e'.
        (e'.current_term ≡ r.term)
        × (e'.current_state ≡ follower)
        × (e'.voted_for ≡ e.voted_for)
        × (e'.session ≡ e.session)
  unfolding on_vote_response
  on_vote_response-step_down rel peers_len r e h =
      let (s, stored) = rel.stores_term_ok r.term e.state in ground arith

  -- Over a lawful store that does not fail: if a node runs for a term, then hears of a lower term `t`
  -- in a response, then is asked by another candidate for its vote in the term that it ran for, and
  -- that candidate's log is up to date, then it has voted for two candidates in one term.
  pub vote_twice :
      {base : ℕ} (laws : IsState base st)
      → IsReliable st
      → (w : World S R P) (t : ℕ) (request : RequestVoteRequest) → request.term ≡ w.current_term + 1
      → request.term < u64_mod
      → t < request.term
      → request.candidate_id ≢ w.id
      → IsUpToDate (laws.view w.state).log request
      → ¬ VotesOnce (
          ballots st
            (campaign ∷ learn_term t ∷ vote_request request (record { live = true }) ∷ [])
            w)
  unfolding ballots
  vote_twice laws rel w t request e h lower other fresh once =
      let (s₀, e₀) = rel.stores_term_ok t w.state in
      let v₀ = Leaves-ok laws.view _ s₀ _ (laws.stores_term t w.state) e₀ in
      let (s₁, s₂, e₁, e₂, v₂) = vote_writes laws rel request.term request.candidate_id s₀ in
      go s₀ s₁ s₂ e₀ v₀ e₁ e₂ v₂ (laws.last_term_lem s₂) (laws.last_index_lem s₂)
    where
      moves : List (Move S R)
      moves = campaign ∷ learn_term t ∷ vote_request request (record { live = true }) ∷ []

      go :
          (s₀ s₁ s₂ : S)
          → st.store_current_term t w.state ≡ ok tt s₀
          → laws.view s₀ ≡ laws.view w.state
          → st.store_current_term request.term s₀ ≡ ok tt s₁
          → st.store_voted_for request.candidate_id s₁ ≡ ok tt s₂
          → laws.view s₂ ≡ record (laws.view s₀) { vote = some request.candidate_id }
          → st.get_last_term s₂ ≡ term_or_zero (last? (laws.view s₂).log)
          → st.get_last_index s₂ ≡ length (laws.view s₂).log
          → ⊥
      go s₀ s₁ s₂ e₀ v₀ e₁ e₂ v₂ lt li =
          let cast : ballots st moves w
              ≡ (request.term, w.id) ∷ (request.term, request.candidate_id) ∷ [] =
            ground arith in
          other (sym (subst VotesOnce cast once _ _ (inl refl) (inr (inl refl)) refl))
