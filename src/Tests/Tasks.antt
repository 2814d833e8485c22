-- ===== src/Tests/Tasks.antt =====
-- The handlers of a node a step at a time, with other tasks in between.
use zeroraft.Base.{ℕ, ◌≡◌, refl, [], ◌∷◌, true, false, ok, after, arith}
use zeroraft.Memory.{MemoryState, numbered, get_last_term}
use zeroraft.Memory.Laws.{numbered-IsReliable}
use zeroraft.Node.{
  World, follower, candidate, leader, on_state, change_state, increment_term, vote_for_self,
}
use zeroraft.Rpc.{RequestVoteResponse, RequestVoteResponseReason}
use zeroraft.Role.Common.{answer_vote}
use zeroraft.Role.Candidate.{Election, stop, on_vote_response}
use zeroraft.Role.Candidate.Loop.{Campaign, candidate_step, vote_result}
use zeroraft.Role.Candidate.Unelected.{candidate_step-unelected}
use zeroraft.Safety.{campaign, vote_request}
use zeroraft.Safety.Vote.{VotesOnce}
use zeroraft.Tasks.{
  Task, done, set_term, set_vote, vote_task, campaign_task, task_of, take_vote, check_stale,
  check_log,
}
use zeroraft.Tasks.Interleaved.{looks, acts, casts, meanwhile, learns, begins, Steps, here, ◌▸◌}
use zeroraft.Tasks.Interleaved.Once.{interleaved-VotesOnce}
use zeroraft.Tasks.Interleaved.Race.{vote_task-term_lowered}
use zeroraft.Timeout.{Timeout, range}
use zeroraft.Tasks.Interleaved.Spawned.{vote_response, Spawned-Steps}
use zeroraft.Tests
use zeroraft.Tests.{world, ask_for, lowest}

abbrev W : Type 0
W = World (MemoryState ℕ) ℕ ℕ

abbrev w₀ : W
w₀ = world 1 1 follower []

vote_task-term_lowered_example :
    (k k' : Task W) × (u v : W) × Steps numbered
      (vote_task numbered (ask_for 3 2) Tests.here)
      w₀
      []
      k
      u
      []
    × (u.current_term ≡ 5)
    × Steps numbered k u [] k' v []
    × (v.current_term ≡ 3)
vote_task-term_lowered_example =
    vote_task-term_lowered numbered numbered-IsReliable (ask_for 3 2) Tests.here w₀ 5 (omega arith)
      (omega arith) (omega arith)

-- Node 1 votes for node 2 in term 3, and learns of term 5 before it has answered; then it runs itself.
abbrev w₁ : W
w₁ = after (on_state (numbered.store_current_term 3) w₀)

abbrev w₂ : W
w₂ = after (on_state (numbered.store_voted_for 2) w₁)

abbrev w₃ : W
w₃ = after (set_vote 2 (after (set_term 3 w₂)))

abbrev w₄ : W
w₄ = after (set_term 5 w₃)

abbrev w₅ : W
w₅ = after (change_state follower w₄)

abbrev w₆ : W
w₆ = after (answer_vote Tests.here 1 1 true RequestVoteResponseReason.ok w₅)

abbrev w₇ : W
w₇ = after (vote_for_self (after (increment_term w₆)))

both_votes : Steps numbered done w₀ [] done w₇ ((6, 1) ∷ (3, 2) ∷ [])
unfolding task_of vote_task check_stale take_vote check_log on_state change_state answer_vote
    campaign_task increment_term vote_for_self get_last_term
both_votes =
    here
    ▸ begins (vote_request (ask_for 3 2) Tests.here) tt refl
    ▸ looks refl
    ▸ acts (omega arith) refl
    ▸ acts (omega arith) refl
    ▸ acts (omega arith) refl
    ▸ acts (omega arith) refl
    ▸ meanwhile (learns 5 (omega arith) refl)
    ▸ acts (omega arith) refl
    ▸ looks refl
    ▸ looks refl
    ▸ acts (omega arith) refl
    ▸ casts refl
    ▸ begins campaign tt refl
    ▸ acts (omega arith) refl
    ▸ acts (omega arith) refl
    ▸ casts refl

interleaved-VotesOnce_example : VotesOnce ((6, 1) ∷ (3, 2) ∷ [])
interleaved-VotesOnce_example =
    interleaved-VotesOnce {S = MemoryState ℕ} {R = ℕ} {P = ℕ} numbered w₀ w₇ done
      ((6, 1) ∷ (3, 2) ∷ []) both_votes

abbrev timer : Timeout
timer = record { duration = range 150 300; started = 0; current_interval = 10 }

-- A candidate of five with three votes, a response of term 7, and the vote that is missing.
abbrev campaigning : Campaign (MemoryState ℕ) ℕ ℕ
campaigning = record {
  election = record {
    world = world 1 3 candidate [];
    session = record { ack_peers = 2 ∷ 3 ∷ []; granted_votes = 3; results = []; listening = true };
  };
  election_timeout = timer;
  retry_timeout = timer;
}

abbrev stale : RequestVoteResponse
stale = record {
  term = 7;
  vote_granted = false;
  id = 4;
  reason = RequestVoteResponseReason.stale_term;
}

abbrev vote : RequestVoteResponse
vote = record { term = 2; vote_granted = true; id = 5; reason = RequestVoteResponseReason.ok }

candidate_step-unelected_example :
    (e₁ : Election (MemoryState ℕ) ℕ ℕ) × (e₂ : Election (MemoryState ℕ) ℕ ℕ) × (c' : Campaign
      (MemoryState ℕ)
      ℕ
      ℕ)
    × (on_vote_response numbered 5 stale campaigning.election ≡ ok stop e₁)
    × (on_vote_response numbered 5 vote e₁ ≡ ok stop e₂)
    × (candidate_step numbered lowest vote_result (record campaigning { election = e₂ }) ≡ ok tt c')
    × (c'.current_state ≡ leader)
    × (c'.current_term ≡ 7)
candidate_step-unelected_example =
    candidate_step-unelected numbered numbered-IsReliable lowest 5 campaigning stale vote refl refl
      refl refl refl (omega arith) (omega arith)

-- The first of the two responses, while the main task answers a vote request.
abbrev deposed : W
deposed = (after (on_vote_response numbered 5 stale campaigning.election)).world

Spawned-Steps_example :
    Steps numbered
      (vote_task numbered (ask_for 3 2) Tests.here)
      campaigning.world
      ((3, 1) ∷ [])
      (vote_task numbered (ask_for 3 2) Tests.here)
      deposed
      ((3, 1) ∷ [])
Spawned-Steps_example =
    Spawned-Steps numbered (vote_response 5 stale campaigning.election refl (λ _. omega arith) refl)
      (vote_task numbered (ask_for 3 2) Tests.here) ((3, 1) ∷ [])
