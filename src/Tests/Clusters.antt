-- ===== src/Tests/Clusters.antt =====
-- A cluster of three nodes in which node 1 is elected, a step at a time.
use zeroraft.Base.{ℕ, ◌≡◌, refl, [], ◌∷◌, true, false, none, arith, inl, inr, after}
use zeroraft.Memory.{MemoryState, numbered, get_last_term}
use zeroraft.Node.{World, follower, send_request_vote_rpc, change_to_leader_state}
use zeroraft.Rpc.{RequestVoteResponse, RequestVoteResponseReason}
use zeroraft.Role.Common.{respond_to_request_vote}
use zeroraft.Role.Candidate.{VoteSession, initialize, on_vote_response}
use zeroraft.Safety.System.{
  System, Candidacy, Step, Steps, set_session, set_world, election, here, next, opened, asked,
  answered, heard, taken,
}
use zeroraft.Safety.System.Reach.{IsFresh, Steps-won_once}
use zeroraft.Tests
use zeroraft.Tests.{world, ask_for}
use zeroraft.Tests.Votes.{members}

abbrev M : Type 0
M = MemoryState ℕ

abbrev s₀ : System M ℕ ℕ
s₀ = record { worlds = λ m. world m 0 follower []; sessions = λ i. none }

abbrev fresh_vote : VoteSession
fresh_vote = record { ack_peers = []; granted_votes = 1; results = []; listening = true }

abbrev b₁ : Candidacy
b₁ = record { owner = 1; term = 1; vote = fresh_vote; asked = []; pending = []; won = false }

abbrev campaigning : World M ℕ ℕ
campaigning = after (initialize (s₀.worlds 1))

abbrev s₁ : System M ℕ ℕ
s₁ = set_session 0 b₁ (set_world 1 campaigning s₀)

step₁ : Step numbered members s₀ s₁
unfolding initialize
step₁ = opened 1 0 fresh_vote campaigning refl refl (omega arith) refl refl

-- Node 1 asks node 2, then node 3.
abbrev asking_2 : World M ℕ ℕ
asking_2 = after (send_request_vote_rpc numbered 2 campaigning)

abbrev b₂ : Candidacy
b₂ = record b₁ { asked = (2, ask_for 1 1) ∷ [] }

abbrev s₂ : System M ℕ ℕ
s₂ = set_session 0 b₂ (set_world 1 asking_2 s₁)

step₂ : Step numbered members s₁ s₂
unfolding initialize send_request_vote_rpc get_last_term
step₂ = asked 0 b₁ 2 asking_2 (ask_for 1 1) Tests.here refl refl refl refl refl refl

abbrev asking_3 : World M ℕ ℕ
asking_3 = after (send_request_vote_rpc numbered 3 asking_2)

abbrev b₃ : Candidacy
b₃ = record b₂ { asked = (3, ask_for 1 1) ∷ (2, ask_for 1 1) ∷ [] }

abbrev s₃ : System M ℕ ℕ
s₃ = set_session 0 b₃ (set_world 1 asking_3 s₂)

step₃ : Step numbered members s₂ s₃
unfolding initialize send_request_vote_rpc get_last_term
step₃ = asked 0 b₂ 3 asking_3 (ask_for 1 1) Tests.here refl refl refl refl refl refl

-- Both grant their votes.
abbrev vote_of : ℕ → RequestVoteResponse
vote_of id = record {
  term = 0;
  vote_granted = true;
  id = id;
  reason = RequestVoteResponseReason.ok;
}

abbrev answering : ℕ → World M ℕ ℕ
answering m =
    after (respond_to_request_vote numbered (ask_for 1 1) Tests.here (world m 0 follower []))

abbrev b₄ : Candidacy
b₄ = record b₃ { pending = vote_of 2 ∷ [] }

abbrev s₄ : System M ℕ ℕ
s₄ = set_session 0 b₄ (set_world 2 (answering 2) s₃)

step₄ : Step numbered members s₃ s₄
unfolding respond_to_request_vote get_last_term
step₄ = answered 0 b₃ 2 (ask_for 1 1) Tests.here (vote_of 2) refl (inr (inl refl)) refl refl

abbrev b₅ : Candidacy
b₅ = record b₄ { pending = vote_of 3 ∷ vote_of 2 ∷ [] }

abbrev s₅ : System M ℕ ℕ
s₅ = set_session 0 b₅ (set_world 3 (answering 3) s₄)

step₅ : Step numbered members s₄ s₅
unfolding respond_to_request_vote get_last_term
step₅ = answered 0 b₄ 3 (ask_for 1 1) Tests.here (vote_of 3) refl (inl refl) refl refl

-- Node 1 hears of the vote of node 2, then of that of node 3, and has won.
abbrev b₆ : Candidacy
b₆ = record b₅ {
  vote = (after (on_vote_response numbered 3 (vote_of 2) (election b₅ s₅))).session;
  pending = vote_of 3 ∷ [];
}

abbrev s₆ : System M ℕ ℕ
s₆ =
    set_session 0 b₆
      (set_world 1 (after (on_vote_response numbered 3 (vote_of 2) (election b₅ s₅))).world s₅)

step₆ : Step numbered members s₅ s₆
step₆ = heard 0 b₅ (vote_of 3 ∷ []) [] (vote_of 2) refl refl (inl (inl refl)) refl

abbrev b₇ : Candidacy
b₇ = record b₆ {
  vote = (after (on_vote_response numbered 3 (vote_of 3) (election b₆ s₆))).session;
  pending = [];
}

abbrev s₇ : System M ℕ ℕ
s₇ =
    set_session 0 b₇
      (set_world 1 (after (on_vote_response numbered 3 (vote_of 3) (election b₆ s₆))).world s₆)

step₇ : Step numbered members s₆ s₇
step₇ = heard 0 b₆ [] [] (vote_of 3) refl refl (inl (inl refl)) refl

abbrev b₈ : Candidacy
b₈ = record b₇ { vote = record b₇.vote { results = [] }; won = true }

abbrev s₈ : System M ℕ ℕ
s₈ = set_session 0 b₈ (set_world 1 (after (change_to_leader_state (s₇.worlds 1))) s₇)

step₈ : Step numbered members s₇ s₈
unfolding on_vote_response
step₈ = taken 0 b₇ refl refl refl

s₀-IsFresh : IsFresh numbered members s₀
s₀-IsFresh = record { ids = λ m. refl; no_sessions = λ i. refl }

steps : Steps numbered members s₀ s₈
steps =
    next
      (next (next (next (next (next (next (next here step₁) step₂) step₃) step₄) step₅) step₆)
        step₇)
      step₈

abbrev first_owner : ℕ
first_owner = b₈.owner

Steps-won_once_example : first_owner ≡ 1
Steps-won_once_example =
    Steps-won_once numbered members s₀ s₈ 0 0 b₈ b₈ s₀-IsFresh steps refl refl refl refl refl
