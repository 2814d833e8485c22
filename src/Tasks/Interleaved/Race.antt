-- ===== src/Tasks/Interleaved/Race.antt =====
-- What a task of a session can do between two steps of the vote handler.
use zeroraft.Base.{
  ℕ, ◌+◌, ◌<◌, ◌≡◌, refl, [], ok, after, arith, if◌then◌else◌, ◌==◌, is_some, false,
}
use zeroraft.Store.{State}
use zeroraft.Store.Laws.{IsReliable}
use zeroraft.Rpc.{RequestVoteRequest, RequestVoteResponseReason, Sender}
use zeroraft.Role.Common.{answer_vote}
use zeroraft.Node.{World, u64_mod, on_state, set_node}
use zeroraft.Tasks.{Task, done, look, perform, set_term, vote_task, check_stale, take_vote}
use zeroraft.Tasks.Interleaved.{looks, acts, meanwhile, learns, Steps, here, ◌▸◌}

module _ {S R P : Type 0} (st : State S R) where
  abbrev stored : S → World S R P → World S R P
  stored s w = set_node (λ n. record n { state = s }) w

  -- The handler is past its checks.
  enters :
      (q : RequestVoteRequest) (tx : Sender) (w : World S R P)
      → w.current_term < q.term
      → take_vote {P = P} st q tx w.current_term w.id ≡ (
          if w.current_term == q.term
          then (look λ v.
              if is_some v.voted_for
              then perform
                  (answer_vote tx w.current_term w.id false RequestVoteResponseReason.already_voted)
                  done
              else check_stale st q tx w.current_term w.id)
          else check_stale st q tx w.current_term w.id)
  unfolding check_stale
  enters q tx w l = ground arith

  -- Over a store whose writes do not fail: while a node takes the term of a vote request, which is later
  -- than its own, a task of a session may bring it into a term that is later still and below the end
  -- of the counter of terms; then the handler goes on, and the node goes back to the term of the
  -- request.
  pub vote_task-term_lowered :
      IsReliable st
      → (q : RequestVoteRequest) (tx : Sender) (w : World S R P) (t : ℕ) → w.current_term < q.term
      → q.term < t
      → t + 1 < u64_mod
      → (k k' : Task (World S R P)) × (u v : World S R P) × Steps st (vote_task st q tx) w [] k u []
        × (u.current_term ≡ t)
        × Steps st k u [] k' v []
        × (v.current_term ≡ q.term)
  unfolding vote_task check_stale take_vote on_state
  vote_task-term_lowered rel q tx w t l m b =
      let (s₁, e₁) = rel.stores_term_ok q.term w.state in
      let (s₂, e₂) = rel.votes_ok q.candidate_id s₁ in
      let w₁ = stored s₁ w in
      let w₂ = stored s₂ w in
      let f₁ : on_state (st.store_current_term q.term) w ≡ ok tt w₁ = ground (arith, e₁) in
      let f₂ : on_state (st.store_voted_for q.candidate_id) w₁ ≡ ok tt w₂ = ground (arith, e₂) in
      let u = after (set_term t w₂) in
      let v = after (set_term q.term u) in
      (
        _,
        _,
        u,
        v,
        here
            ▸ looks (enters q tx w l)
            ▸ acts (omega arith) f₁
            ▸ acts (omega arith) f₂
            ▸ meanwhile (learns t (omega arith) refl),
        refl,
        here ▸ acts (omega arith) refl,
        refl,
      )
