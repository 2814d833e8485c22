-- ===== src/Tasks/Interleaved/Moves.antt =====
-- The moves of a node's main task but the vote handler, interleaved: they keep up that its votes agree.
use zeroraft.Base.{
  ℕ, ◌+◌, ◌≤◌, ◌<◌, ◌≡◌, refl, ◌∙◌, List, some, after, min, arith, Bool, true, false, ltb,
  if◌then◌else◌,
}
use zeroraft.Store.{State, NodeId}
use zeroraft.Rpc.{AppendEntriesRequest, AppendEntriesResponseReason, Sender}
use zeroraft.Node.{
  World, follower, increment_term, vote_for_self, update_last_heard_from_leader, update_leader_id,
}
use zeroraft.Role.Common.{answer_append, term_differs}
use zeroraft.Safety.{Ballot, Move, vote_request, append_request, campaign, learn_term, turn, write}
use zeroraft.Safety.Vote.{Recorded}
use zeroraft.Tasks.{
  done, look, perform, cast, set_term, replace_task, check_previous, take_leader, append_task,
  campaign_task, task_of,
}
use zeroraft.Tasks.Interleaved.{IsOwn}
use zeroraft.Tasks.Interleaved.Ensures.{
  Agree, Keeps, Inv, Quiet, Ensures, All-mono, Inv-kept, Ensures-Quiet, Ensures-modify, Ensures-if,
  on_state-Quiet, change_state-Quiet, send-Quiet, Ensures-last, Ensures-look,
}
use zeroraft.Tasks.Interleaved.Votes.{Before, Before-Inv, Inv-cast, vote_task-Ensures}

module _ {S R P : Type 0} (st : State S R) where
  answer_append-Quiet :
      (tx : Sender) (term : ℕ) (id : NodeId) (success : Bool) (len : ℕ)
      (reason : AppendEntriesResponseReason)
      → Quiet {P = P} st (answer_append tx term id success len reason)
  unfolding answer_append
  answer_append-Quiet tx term id success len reason = send-Quiet st tx.live _

  refuses_entries :
      (tx : Sender) (term : ℕ) (id : NodeId) (success : Bool) (len : ℕ)
      (reason : AppendEntriesResponseReason) (w : World S R P) (vs : List Ballot)
      → Inv st w vs
      → Ensures st (perform (answer_append tx term id success len reason) done) w vs
  refuses_entries tx term id success len reason w vs inv =
      Ensures-last st _ w vs (answer_append-Quiet tx term id success len reason) inv

  update_last_heard_from_leader-Quiet : Quiet {P = P} st update_last_heard_from_leader
  unfolding update_last_heard_from_leader
  update_last_heard_from_leader-Quiet v = (omega arith, refl, refl)

  update_leader_id-Quiet : (leader : NodeId) → Quiet {P = P} st (update_leader_id leader)
  unfolding update_leader_id
  update_leader_id-Quiet leader v = (omega arith, refl, refl)

  replace_task-Ensures :
      (q : AppendEntriesRequest R) (tx : Sender) (our_term : ℕ) (our_id : NodeId) (w : World S R P)
      (vs : List Ballot)
      → Inv st w vs
      → Ensures st (replace_task st q tx our_term our_id) w vs
  unfolding replace_task
  replace_task-Ensures q tx our_term our_id w vs inv =
      Ensures-Quiet st _ _ w vs (on_state-Quiet st (st.remove_entries_after q.prev_log_index)) inv
        λ u₁ k₁.
          let i₁ = Inv-kept st w u₁ vs k₁ inv in
          Ensures-Quiet st _ _ u₁ vs (on_state-Quiet st (st.append_entries q.entries)) i₁ λ u₂ k₂.
            let i₂ = Inv-kept st u₁ u₂ vs k₂ i₁ in
            Ensures-look st _ u₂ vs i₂ λ u₃ k₃.
              let i₃ = Inv-kept st u₂ u₃ vs k₃ i₂ in
              Ensures-Quiet st _ _ u₃ vs
                (on_state-Quiet st
                  (st.set_last_commit_index (min q.last_commit_index (st.get_last_index u₃.state))))
                i₃
                λ u₄ k₄.
                  refuses_entries tx our_term our_id true _ _ u₄ vs (Inv-kept st u₃ u₄ vs k₄ i₃)

  check_previous-Ensures :
      (q : AppendEntriesRequest R) (tx : Sender) (our_term : ℕ) (our_id : NodeId) (last_index : ℕ)
      (w : World S R P) (vs : List Ballot)
      → Inv st w vs
      → Ensures st (check_previous st q tx our_term our_id last_index) w vs
  unfolding check_previous
  check_previous-Ensures q tx our_term our_id last_index w vs inv =
      Ensures-if st (ltb last_index q.prev_log_index)
        (perform (answer_append tx our_term our_id false 0 AppendEntriesResponseReason.log_mismatch)
          done)
        (look λ v.
          if term_differs (st.get_entry q.prev_log_index v.state) q.prev_log_term
          then perform
              (answer_append tx our_term our_id false 0 AppendEntriesResponseReason.log_mismatch)
              done
          else replace_task st q tx our_term our_id)
        w vs (λ _. refuses_entries tx our_term our_id false 0 _ w vs inv)
        (λ _. Ensures-look st _ w vs inv λ v k.
          let i = Inv-kept st w v vs k inv in
          Ensures-if st (term_differs (st.get_entry q.prev_log_index v.state) q.prev_log_term)
            (perform
              (answer_append tx our_term our_id false 0 AppendEntriesResponseReason.log_mismatch)
              done)
            (replace_task st q tx our_term our_id) v vs
            (λ _. refuses_entries tx our_term our_id false 0 _ v vs i)
            (λ _. replace_task-Ensures q tx our_term our_id v vs i))

  -- The node is put into a term that is not lower than the one it was in at some time before.
  Inv-raised :
      (w v : World S R P) (vs : List Ballot)
      → Inv st w vs
      → w.current_term ≤ v.current_term
      → v.voted_for ≡ w.voted_for
      → Inv st v vs
  Inv-raised w v vs (h, a) l e =
      (All-mono (Recorded st w) (Recorded st v) vs (λ b r. ground (arith, l, e)) h, a)

  take_leader-Ensures :
      (q : AppendEntriesRequest R) (tx : Sender) (our_term : ℕ) (our_id : NodeId) (last_index : ℕ)
      (w v : World S R P) (vs : List Ballot)
      → Inv st w vs
      → Keeps w v
      → w.current_term ≤ q.term
      → Ensures st (take_leader st q tx our_term our_id last_index) v vs
  unfolding take_leader
  take_leader-Ensures q tx our_term our_id last_index w v vs inv k l =
      let i = Inv-kept st w v vs k inv in
      Ensures-Quiet st _ _ v vs (on_state-Quiet st (st.store_current_term q.term)) i λ u₁ k₁.
        Ensures-modify st _ _ u₁ vs (Inv-kept st v u₁ vs k₁ i) λ u₂ k₂ _.
          let x = after (set_term q.term u₂) in
          let ix = Inv-raised w x vs inv l (k₂.1 ∙ k₁.1 ∙ k.1) in
          Ensures-Quiet st _ _ x vs update_last_heard_from_leader-Quiet ix λ u₃ k₃.
            let i₃ = Inv-kept st x u₃ vs k₃ ix in
            Ensures-Quiet st _ _ u₃ vs (update_leader_id-Quiet q.leader_id) i₃ λ u₄ k₄.
              let i₄ = Inv-kept st u₃ u₄ vs k₄ i₃ in
              Ensures-Quiet st _ _ u₄ vs (change_state-Quiet st follower) i₄ λ u₅ k₅.
                check_previous-Ensures q tx our_term our_id last_index u₅ vs
                  (Inv-kept st u₄ u₅ vs k₅ i₄)

  append_task-Ensures :
      (q : AppendEntriesRequest R) (tx : Sender) (w : World S R P) (vs : List Ballot)
      → Inv st w vs
      → Ensures st (append_task st q tx) w vs
  unfolding append_task
  append_task-Ensures q tx w vs inv = Ensures-look st _ w vs inv λ v k.
      let i = Inv-kept st w v vs k inv in
      Ensures-look st _ v vs i λ u m.
        Ensures-if st (ltb q.term v.current_term)
          (perform
            (answer_append tx v.current_term v.id false 0 AppendEntriesResponseReason.stale_term)
            done)
          (take_leader st q tx v.current_term v.id (st.get_last_index u.state)) u vs
          (λ _. refuses_entries tx v.current_term v.id false 0 _ u vs (Inv-kept st v u vs m i))
          (λ e. take_leader-Ensures q tx v.current_term v.id _ v u vs i m (ground (arith, e)))

  -- From the vote for itself on.
  self_vote-Ensures :
      (w : World S R P) (vs : List Ballot)
      → w.voted_for ≡ some w.id
      → Before w.current_term vs
      → Agree vs
      → Ensures st (cast (λ v. (v.current_term, v.id)) done) w vs
  unfolding Ensures
  self_vote-Ensures w vs own h a = (
    Before-Inv st w.current_term w vs (omega arith) h a,
    λ v k.
        Inv-cast st v.current_term v.id v vs (omega arith) (ground (arith, own, k.1, k.2))
          (All-mono _ (λ (b : Ballot). b.0 < v.current_term) vs (λ b l. omega (arith, l, k.0)) h) a,
  )

  campaign_task-Ensures :
      (w : World S R P) (vs : List Ballot) → Inv st w vs → Ensures st campaign_task w vs
  unfolding campaign_task increment_term vote_for_self
  campaign_task-Ensures w vs inv = Ensures-modify st _ _ w vs inv λ v k bound.
      let i = Inv-kept st w v vs k inv in
      let x = after (increment_term v) in
      let raised : x.current_term ≡ v.current_term + 1 = omega arith in
      let h =
        All-mono (Recorded st v) (λ (b : Ballot). b.0 < x.current_term) vs
          (λ b r. ground (arith, raised)) i.0 in
      Ensures-modify st _ _ x vs (Before-Inv st x.current_term x vs (omega arith) h i.1) λ y m _.
        self_vote-Ensures (after (vote_for_self y)) vs refl
          (All-mono _ (λ (b : Ballot). b.0 < y.current_term) vs (λ b l. omega (arith, l, m.0)) h)
          i.1

  -- Every move of the main task.
  pub task_of-Ensures :
      (m : Move S R) (w : World S R P) (vs : List Ballot)
      → IsOwn m
      → Inv st w vs
      → Ensures st (task_of st m) w vs
  unfolding task_of
  task_of-Ensures (vote_request q tx) w vs main inv = vote_task-Ensures st q tx w vs inv
  task_of-Ensures (append_request q tx) w vs main inv = append_task-Ensures q tx w vs inv
  task_of-Ensures campaign w vs main inv = campaign_task-Ensures w vs inv
  task_of-Ensures (learn_term t) w vs main inv = absurd main
  task_of-Ensures (turn s) w vs main inv = Ensures-last st _ w vs (change_state-Quiet st s) inv
  task_of-Ensures (write m) w vs main inv = Ensures-last st _ w vs (on_state-Quiet st m) inv
