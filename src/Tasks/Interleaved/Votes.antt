-- ===== src/Tasks/Interleaved/Votes.antt =====
-- The votes of a node whose tasks are interleaved.
use zeroraft.Base.{
  ℕ, ◌≤◌, ◌<◌, ◌≡◌, inl, refl, ◌∙◌, List, ◌∷◌, some, none, after, All, arith, Bool, true, false,
  ltb, ◌==◌, ◌&&◌, ◌||◌, is_some, if◌then◌else◌,
}
use zeroraft.Store.{State, NodeId}
use zeroraft.Rpc.{RequestVoteRequest, RequestVoteResponseReason, Sender}
use zeroraft.Node.{World, change_state, follower}
use zeroraft.Role.Common.{answer_vote}
use zeroraft.Safety.{Ballot}
use zeroraft.Safety.Vote.{Recorded}
use zeroraft.Tasks.{
  done, look, perform, cast, set_term, check_log, take_vote, check_stale, vote_task,
}
use zeroraft.Tasks.Interleaved.Ensures.{
  Agree, Keeps, Inv, Quiet, Ensures, All-mono, Inv-kept, Ensures-Quiet, Ensures-modify, Ensures-if,
  on_state-Quiet, change_state-Quiet, send-Quiet, Ensures-last, Ensures-look,
}

-- All votes are of terms before `t`.
abbrev pub Before : ℕ → List Ballot → Type 0
Before t = All (λ (b : Ballot). b.0 < t)

Before-Agree :
    (t : ℕ) (c : NodeId) (vs : List Ballot)
    → Before t vs
    → All (λ (b : Ballot). t ≡ b.0 → c ≡ b.1) vs
Before-Agree t c vs h = All-mono _ _ vs (λ b l e. absurd (omega (arith, l, e))) h

module _ {S R P : Type 0} (st : State S R) where
  answer_vote-Quiet :
      (tx : Sender) (term : ℕ) (id : NodeId) (granted : Bool) (reason : RequestVoteResponseReason)
      → Quiet {P = P} st (answer_vote tx term id granted reason)
  unfolding answer_vote
  answer_vote-Quiet tx term id granted reason = send-Quiet st tx.live _

  -- A task that only answers.
  refuses :
      (tx : Sender) (term : ℕ) (id : NodeId) (granted : Bool) (reason : RequestVoteResponseReason)
      (w : World S R P) (vs : List Ballot)
      → Inv st w vs
      → Ensures st (perform (answer_vote tx term id granted reason) done) w vs
  refuses tx term id granted reason w vs inv =
      Ensures-last st _ w vs (answer_vote-Quiet tx term id granted reason) inv

  pub Before-Inv :
      (t : ℕ) (w : World S R P) (vs : List Ballot)
      → t ≤ w.current_term
      → Before t vs
      → Agree vs
      → Inv st w vs
  Before-Inv t w vs l h a = (All-mono _ (Recorded st w) vs (λ b k. inl (omega (arith, l, k))) h, a)

  -- The newest vote is for `c` in term `t`.
  pub Inv-cast :
      (t : ℕ) (c : NodeId) (w : World S R P) (vs : List Ballot)
      → t ≤ w.current_term
      → w.voted_for ≡ some c
      → Before t vs
      → Agree vs
      → Inv st w ((t, c) ∷ vs)
  Inv-cast t c w vs l e h a =
      ((ground (arith, l, e), (Before-Inv t w vs l h a).0), (Before-Agree t c vs h, a))

  Ensures-cast :
      (t : ℕ) (c : NodeId) (w : World S R P) (vs : List Ballot)
      → t ≤ w.current_term
      → w.voted_for ≡ some c
      → Before t vs
      → Agree vs
      → Ensures st (cast (λ _. (t, c)) done) w vs
  unfolding Ensures
  Ensures-cast t c w vs l e h a =
      (Before-Inv t w vs l h a, λ v k. Inv-cast t c v vs (omega (arith, l, k.0)) (k.1 ∙ e) h a)

  check_log-Ensures :
      (q : RequestVoteRequest) (tx : Sender) (our_term : ℕ) (our_id : NodeId) (i t : ℕ)
      (w : World S R P) (vs : List Ballot)
      → q.term ≤ w.current_term
      → w.voted_for ≡ some q.candidate_id
      → Before q.term vs
      → Agree vs
      → Ensures st (check_log st q tx our_term our_id i t) w vs
  unfolding check_log
  check_log-Ensures q tx our_term our_id i t w vs l e h a =
      let inv = Before-Inv q.term w vs l h a in
      Ensures-if st (ltb q.last_log_term t || (t == q.last_log_term && ltb q.last_log_index i))
        (perform (answer_vote tx our_term our_id false RequestVoteResponseReason.incomplete_log)
          done)
        (perform (answer_vote tx our_term our_id true RequestVoteResponseReason.ok)
          (cast (λ _. (q.term, q.candidate_id)) done))
        w vs (λ _. refuses tx our_term our_id false _ w vs inv)
        (λ _.
          Ensures-Quiet st _ _ w vs (answer_vote-Quiet tx our_term our_id true _) inv
            λ u k. Ensures-cast q.term q.candidate_id u vs (omega (arith, l, k.0)) (k.1 ∙ e) h a)

  -- From the last write to memory on.
  voted-Ensures :
      (q : RequestVoteRequest) (tx : Sender) (our_term : ℕ) (our_id : NodeId) (w : World S R P)
      (vs : List Ballot)
      → q.term ≤ w.current_term
      → w.voted_for ≡ some q.candidate_id
      → Before q.term vs
      → Agree vs
      → Ensures st
          (perform (change_state follower) (
            look λ u. look λ v.
              check_log st q tx our_term our_id
                (st.get_last_index u.state)
                (st.get_last_term v.state)))
          w
          vs
  voted-Ensures q tx our_term our_id w vs l e h a =
      let inv = λ (v : World S R P) (m : q.term ≤ v.current_term). Before-Inv q.term v vs m h a in
      Ensures-Quiet st _ _ w vs (change_state-Quiet st follower) (inv w l) λ u₁ k₁.
        let l₁ : q.term ≤ u₁.current_term = omega (arith, l, k₁.0) in
        Ensures-look st _ u₁ vs (inv u₁ l₁) λ u₂ k₂.
          let l₂ : q.term ≤ u₂.current_term = omega (arith, l₁, k₂.0) in
          Ensures-look st _ u₂ vs (inv u₂ l₂) λ u₃ k₃.
            check_log-Ensures q tx our_term our_id _ _ u₃ vs (omega (arith, l₂, k₃.0))
              (k₃.1 ∙ k₂.1 ∙ k₁.1 ∙ e) h a

  take_vote-Ensures :
      (q : RequestVoteRequest) (tx : Sender) (our_term : ℕ) (our_id : NodeId) (w : World S R P)
      (vs : List Ballot)
      → Inv st w vs
      → Before q.term vs
      → Ensures st (take_vote st q tx our_term our_id) w vs
  unfolding take_vote
  take_vote-Ensures q tx our_term our_id w vs inv h =
      Ensures-Quiet st _ _ w vs (on_state-Quiet st (st.store_current_term q.term)) inv λ u₁ k₁.
        let i₁ = Inv-kept st w u₁ vs k₁ inv in
        Ensures-Quiet st _ _ u₁ vs (on_state-Quiet st (st.store_voted_for q.candidate_id)) i₁
          λ u₂ k₂. Ensures-modify st _ _ u₂ vs (Inv-kept st u₁ u₂ vs k₂ i₁) λ u₃ k₃ _.
            Ensures-modify st _ _ (after (set_term q.term u₃)) vs
              (Before-Inv q.term (after (set_term q.term u₃)) vs (omega arith) h inv.1)
              λ u₄ k₄ _. voted-Ensures q tx our_term our_id _ vs k₄.0 refl h inv.1

  check_stale-Ensures :
      (q : RequestVoteRequest) (tx : Sender) (our_term : ℕ) (our_id : NodeId) (w : World S R P)
      (vs : List Ballot)
      → Inv st w vs
      → (our_term ≤ q.term → Before q.term vs)
      → Ensures st (check_stale st q tx our_term our_id) w vs
  unfolding check_stale
  check_stale-Ensures q tx our_term our_id w vs inv h =
      Ensures-if st (ltb q.term our_term)
        (perform (answer_vote tx our_term our_id false RequestVoteResponseReason.stale_term) done)
        (take_vote st q tx our_term our_id) w vs (λ _. refuses tx our_term our_id false _ w vs inv)
        (λ e. take_vote-Ensures q tx our_term our_id w vs inv (h (ground (arith, e))))

  -- What a vote of the past is once the node was in term `t` and its vote was `v`.
  Recorded-Before :
      (w v : World S R P) (t : ℕ) (vs : List Ballot)
      → All (Recorded st w) vs
      → Keeps w v
      → w.current_term ≤ t
      → (w.current_term ≡ t → v.voted_for ≡ none)
      → Before t vs
  Recorded-Before w v t vs h k l free =
      All-mono (Recorded st w) (λ (b : Ballot). b.0 < t) vs (λ b r. ground (arith, k.1, l, free)) h

  pub vote_task-Ensures :
      (q : RequestVoteRequest) (tx : Sender) (w : World S R P) (vs : List Ballot)
      → Inv st w vs
      → Ensures st (vote_task st q tx) w vs
  unfolding vote_task
  vote_task-Ensures q tx w vs inv = Ensures-look st _ w vs inv λ v k.
      let i = Inv-kept st w v vs k inv in
      Ensures-if st (v.current_term == q.term)
        (look λ u.
          if is_some u.voted_for
          then perform
              (answer_vote tx v.current_term v.id false RequestVoteResponseReason.already_voted)
              done
          else check_stale st q tx v.current_term v.id)
        (check_stale st q tx v.current_term v.id) v vs
        (λ same. Ensures-look st _ v vs i λ u m.
          Ensures-if st (is_some u.voted_for)
            (perform
              (answer_vote tx v.current_term v.id false RequestVoteResponseReason.already_voted)
              done)
            (check_stale st q tx v.current_term v.id) u vs
            (λ _. refuses tx v.current_term v.id false _ u vs (Inv-kept st v u vs m i))
            (λ free.
              check_stale-Ensures q tx v.current_term v.id u vs (Inv-kept st v u vs m i)
                (λ l. Recorded-Before v u q.term vs i.0 m l (λ _. ground (arith, free)))))
        (λ other. check_stale-Ensures q tx v.current_term v.id v vs i (λ l.
          Recorded-Before v v q.term vs i.0 (omega arith, refl, refl) l
            (λ e. absurd (ground (arith, other, e)))))
