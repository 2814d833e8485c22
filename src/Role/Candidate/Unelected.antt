-- ===== src/Role/Candidate/Unelected.antt =====
-- A candidate that hears of a later term and wins its election before its loop looks at its state again.
use zeroraft.Base.{ℕ, ◌+◌, ◌/◌, ◌<◌, ◌≡◌, refl, ap, ◌∙◌, ◌%◌, insert_key, [], ◌∷◌, true, ok, arith}
use zeroraft.Store.{State}
use zeroraft.Store.Laws.{IsReliable}
use zeroraft.Rpc.{RequestVoteResponse, RequestVoteResponseReason}
use zeroraft.Node.{World, u64_mod, leader, follower}
use zeroraft.Role.Candidate.{Election, VoteSession, stop, granted, on_vote_response}
use zeroraft.Role.Candidate.Loop.{Campaign, candidate_step, vote_result}

module _ {S R P : Type 0} (st : State S R) where
  -- The response of a later term, which is taken by one task of the session.
  stale_lem :
      IsReliable st
      → (n : ℕ) (r : RequestVoteResponse) (e : Election S R P)
      → r.reason ≡ RequestVoteResponseReason.stale_term
      → (e' : Election S R P) × (on_vote_response st n r e ≡ ok stop e')
        × (e'.current_term ≡ r.term)
        × (e'.current_state ≡ follower)
        × (e'.session ≡ e.session)
  unfolding on_vote_response
  stale_lem rel n r e stale =
      let (s, stored) = rel.stores_term_ok r.term e.state in
      let w : World S R P = record e.world {
        node = record e.world.node { state = s; current_term = r.term; current_state = follower };
      } in
      (record e { world = w }, ground (arith, stale, stored), refl, refl, refl)

  -- The last vote that is missing.
  winning_lem :
      (n : ℕ) (r : RequestVoteResponse) (e : Election S R P)
      → r.reason ≡ RequestVoteResponseReason.ok
      → r.vote_granted ≡ true
      → e.listening ≡ true
      → e.results ≡ []
      → e.granted_votes + 1 < u64_mod
      → (n + 1) / 2 < e.granted_votes + 1
      → (e' : Election S R P) × (on_vote_response st n r e ≡ ok stop e')
        × (e'.world ≡ e.world)
        × (e'.results ≡ granted ∷ [])
  unfolding on_vote_response
  winning_lem n r e reason asked live silent small more =
      let v : VoteSession = record e.session {
        ack_peers = insert_key r.id e.ack_peers;
        granted_votes = (e.granted_votes + 1) % u64_mod;
        results = granted ∷ [];
      } in
      (record e { session = v }, ground (arith, reason, asked), refl, refl)

  -- The loop takes a victory, in whatever term the node is.
  takes_lem :
      (gen_range : ℕ → ℕ → ℕ) (c : Campaign S R P)
      → c.results ≡ granted ∷ []
      → (c' : Campaign S R P) × (candidate_step st gen_range vote_result c ≡ ok tt c')
        × (c'.current_state ≡ leader)
        × (c'.current_term ≡ c.current_term)
  unfolding candidate_step
  takes_lem gen_range c results =
      let e : Election S R P = record {
        world = record c.world { node = record c.world.node { current_state = leader } };
        session = record c.session { results = [] };
      } in
      (record c { election = e }, ground (arith, results), refl, refl)

  -- Over a store whose writes do not fail: let one task of a candidate's session take in a response
  -- with the reason stale term, then another task of the session the granted vote that was missing,
  -- with the count of votes below its end, and then the candidate's loop, for which no result was
  -- there before, take the result. Then each of the three returns, and the node is a leader in the
  -- term of the first response, whatever that term is.
  pub candidate_step-unelected :
      IsReliable st
      → (gen_range : ℕ → ℕ → ℕ) (n : ℕ) (c : Campaign S R P) (stale vote : RequestVoteResponse)
      → stale.reason ≡ RequestVoteResponseReason.stale_term
      → vote.reason ≡ RequestVoteResponseReason.ok
      → vote.vote_granted ≡ true
      → c.listening ≡ true
      → c.results ≡ []
      → c.granted_votes + 1 < u64_mod
      → (n + 1) / 2 < c.granted_votes + 1
      → (e₁ : Election S R P) × (e₂ : Election S R P) × (c' : Campaign S R P) × (on_vote_response st
            n stale c.election
          ≡ ok stop e₁)
        × (on_vote_response st n vote e₁ ≡ ok stop e₂)
        × (candidate_step st gen_range vote_result (record c { election = e₂ }) ≡ ok tt c')
        × (c'.current_state ≡ leader)
        × (c'.current_term ≡ stale.term)
  candidate_step-unelected rel gen_range n c r q stale reason asked live silent small more =
      let (e₁, first, term, _, same) = stale_lem rel n r c.election stale in
      let (e₂, second, world, results) =
        winning_lem n q e₁ reason asked (ap (λ v. v.listening) same ∙ live)
          (ap (λ v. v.results) same ∙ silent) (ground (arith, same)) (ground (arith, same)) in
      let (c', third, leads, kept) = takes_lem gen_range (record c { election = e₂ }) results in
      (e₁, e₂, c', first, second, third, leads, kept ∙ ap (λ w. w.current_term) world ∙ term)
