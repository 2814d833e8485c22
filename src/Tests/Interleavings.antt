-- ===== src/Tests/Interleavings.antt =====
-- An election of three nodes whose handlers are interrupted.
use zeroraft.Base.{
  ℕ, ◌≡◌, refl, sym, subst, List, [], ◌∷◌, Bool, true, false, after, arith, In, inl, inr, ◌==◌,
  contains,
}
use zeroraft.Memory.{MemoryState, numbered, get_last_term}
use zeroraft.Node.{
  World, candidate, follower, on_state, change_state, increment_term, vote_for_self,
}
use zeroraft.Role.Common.{answer_vote}
use zeroraft.Rpc.{RequestVoteResponseReason}
use zeroraft.Safety.{Ballot, campaign, vote_request}
use zeroraft.Safety.Quorum.{Wins}
use zeroraft.Tasks.{
  done, set_term, set_vote, vote_task, campaign_task, task_of, take_vote, check_stale, check_log,
}
use zeroraft.Tasks.Interleaved.{looks, acts, casts, meanwhile, turns, begins, Steps, here, ◌▸◌}
use zeroraft.Tasks.Interleaved.Elections.{interleaved-election_safety}
use zeroraft.Tests
use zeroraft.Tests.{world, ask_for}
use zeroraft.Tests.Votes.{members, one_or_two}

abbrev W : Type 0
W = World (MemoryState ℕ) ℕ ℕ

abbrev start : ℕ → W
start m = world m 0 follower []

-- Node 1 runs in term 1.
abbrev ran : ℕ → W
ran m = after (vote_for_self (after (increment_term (start m))))

runs : (m : ℕ) → Steps numbered done (start m) [] done (ran m) ((1, m) ∷ [])
unfolding task_of campaign_task increment_term vote_for_self
runs m =
    here ▸ begins campaign tt refl ▸ acts (omega arith) refl ▸ acts (omega arith) refl ▸ casts refl

-- The others vote for it; another task changes their role after they have taken the vote.
abbrev taken : ℕ → W
taken m = after (
    set_vote 1 (
      after (
        set_term 1 (
          after (
            on_state (numbered.store_voted_for 1)
              (after (on_state (numbered.store_current_term 1) (start m))))))))

abbrev voted : ℕ → W
voted m = after (
    answer_vote Tests.here 0 m true RequestVoteResponseReason.ok
      (after (change_state follower (after (change_state candidate (taken m))))))

votes_for_1 : (m : ℕ) → Steps numbered done (start m) [] done (voted m) ((1, 1) ∷ [])
unfolding task_of vote_task check_stale take_vote check_log on_state change_state answer_vote
    get_last_term
votes_for_1 m =
    here
    ▸ begins (vote_request (ask_for 1 1) Tests.here) tt refl
    ▸ looks refl
    ▸ acts (omega arith) refl
    ▸ acts (omega arith) refl
    ▸ acts (omega arith) refl
    ▸ acts (omega arith) refl
    ▸ meanwhile (turns candidate refl)
    ▸ acts (omega arith) refl
    ▸ looks refl
    ▸ looks refl
    ▸ acts (omega arith) refl
    ▸ casts refl

abbrev end_of : ℕ → W
end_of m = elim (m == 1) [ true ↦ ran m | false ↦ voted m ]

abbrev votes_of : ℕ → List Ballot
votes_of m = elim (m == 1) [ true ↦ (1, m) ∷ [] | false ↦ (1, 1) ∷ [] ]

steps_of : (m : ℕ) → Steps numbered done (start m) [] done (end_of m) (votes_of m)
steps_of m = by_choice (m == 1)
  where
    by_choice :
        (b : Bool)
        → Steps numbered done
            (start m)
            []
            done
            (elim b [ true ↦ ran m | false ↦ voted m ])
            (elim b [ true ↦ (1, m) ∷ [] | false ↦ (1, 1) ∷ [] ])
    by_choice true = runs m
    by_choice false = votes_for_1 m

have_voted : (m : ℕ) → contains m (1 ∷ 2 ∷ []) ≡ true → In (1, 1) (votes_of m)
have_voted m h = elim (one_or_two m h) [
  | inl e ↦ subst (λ k. In (1, 1) (votes_of k)) (sym e) (inl refl)
  | inr e ↦ subst (λ k. In (1, 1) (votes_of k)) (sym e) (inl refl)
]

abbrev first_win : Wins members votes_of 1 1
first_win = record {
  voters = 1 ∷ 2 ∷ [];
  distinct = (refl, (refl, tt));
  among = (refl, (refl, tt));
  majority = omega arith;
  voted = have_voted;
}

abbrev winner : ℕ
winner = 1

interleaved-election_safety_example : winner ≡ winner
interleaved-election_safety_example =
    interleaved-election_safety numbered members start end_of (λ m. done) votes_of
      (λ m i. steps_of m) first_win first_win
