-- ===== src/Tests/Elections.antt =====
-- An election that a candidate wins, a request that comes twice, and the handlers of a node, on
-- concrete nodes.
use zeroraft.Base.{ℕ, ◌≡◌, refl, [], ◌∷◌, true, some, contains, arith, ok, inl, inr, after, length}
use zeroraft.Memory.{get_last_term, MemoryState, numbered}
use zeroraft.Memory.Laws.{numbered_laws, numbered-IsReliable, numbered_view_lem}
use zeroraft.Node.{World, candidate}
use zeroraft.Rpc.{RequestVoteResponse, RequestVoteResponseReason, request_vote, vote_reply}
use zeroraft.Role.Common.{respond_to_request_vote}
use zeroraft.Role.Candidate.Deadline.{timeouts, timed_request_votes}
use zeroraft.Role.Candidate.Deadline.Lost.{late_vote-lost}
use zeroraft.Timeout.{Timeout}
use zeroraft.Timeout
use zeroraft.Role.Common.Vote.{IsUpToDate}
use zeroraft.Role.Candidate.{
  Election, Flow, collect_votes, granted, on_vote_response, request_votes,
}
use zeroraft.Safety.{make, play}
use zeroraft.Safety.Election.{Answers, Elected}
use zeroraft.Handlers.{Reach, here, next, campaigned, rpc}
use zeroraft.Handlers.Bounds.{IsSound, Reach-IsSound}
use zeroraft.Role.Rpc.{on_rpc}
use zeroraft.Role.Candidate.{initialize}
use zeroraft.Tests.{store, world, ask_for, cluster}
use zeroraft.Tests
use zeroraft.Tests.Votes.{moves_of, world_of, members}

abbrev W : Type 0
W = World (MemoryState ℕ) ℕ ℕ

-- Nodes 2 and 3 answer the candidate 1.
abbrev vote_of : ℕ → RequestVoteResponse
vote_of id = record {
  term = 0;
  vote_granted = true;
  id = id;
  reason = RequestVoteResponseReason.ok;
}

abbrev session : Election (MemoryState ℕ) ℕ ℕ
session = record {
  world = world 1 1 candidate [];
  session = record { ack_peers = []; granted_votes = 1; results = []; listening = true };
}

answer_2 : Answers numbered (moves_of 2) (world_of 2) 1 1 (vote_of 2)
unfolding respond_to_request_vote get_last_term play
answer_2 = record {
  before = [];
  rest = [];
  request = ask_for 1 1;
  tx = Tests.here;
  moves = refl;
  term = refl;
  candidate = refl;
  answer = refl;
}

answer_3 : Answers numbered (moves_of 3) (world_of 3) 1 1 (vote_of 3)
unfolding respond_to_request_vote get_last_term play
answer_3 = record {
  before = [];
  rest = [];
  request = ask_for 1 1;
  tx = Tests.here;
  moves = refl;
  term = refl;
  candidate = refl;
  answer = refl;
}

session-won :
    (after (collect_votes numbered (length members) (vote_of 2 ∷ vote_of 3 ∷ []) session)).results
    ≡ granted ∷ []
unfolding collect_votes
session-won = refl

first-Elected : Elected numbered members moves_of world_of 1 1
unfolding make play
first-Elected = record {
  before = [];
  rest = [];
  ran = refl;
  member = refl;
  own_term = refl;
  own_id = refl;
  session = session;
  started = refl;
  silent = refl;
  responses = vote_of 2 ∷ vote_of 3 ∷ [];
  won = session-won;
  once = (refl, (refl, (refl, tt)));
  members_only = (refl, (refl, tt));
  honest = (answer_2, (answer_3, tt));
}

empty-IsUpToDate : IsUpToDate (numbered_laws.view (store [])).log (ask_for 3 2)
empty-IsUpToDate = rw (numbered_view_lem (store [])) (inr (refl, omega arith))

-- The candidate 2 has 25 ms between its requests and 150 ms for its election.
abbrev retry : Timeout
retry = Timeout.start 0 25

abbrev countdown : Timeout
countdown = Timeout.start 0 150

two_times : timeouts retry countdown 0 ≡ some 25000000
unfolding timeouts Timeout.start
two_times = refl

late_vote-lost_example :
    (w₁ : W) × (w₂ : W) × (r₁ : RequestVoteResponse) × (r₂ : RequestVoteResponse) × (e' : Election
      (MemoryState ℕ)
      ℕ
      ℕ)
    × (respond_to_request_vote numbered (ask_for 3 2) (record { live = true }) (world_of 1)
        ≡ ok tt w₁)
    × (w₁.sent ≡ vote_reply r₁ ∷ [])
    × (r₁.vote_granted ≡ true)
    × (timed_request_votes numbered retry countdown 0 ((26000000, r₁) ∷ []) session
        ≡ request_votes numbered [] session)
    × (respond_to_request_vote numbered (ask_for 3 2) (record { live = true }) w₁ ≡ ok tt w₂)
    × (w₂.sent ≡ vote_reply r₂ ∷ w₁.sent)
    × (on_vote_response numbered 3 r₂ session ≡ ok Flow.next e')
    × (e'.granted_votes ≡ session.granted_votes)
    × (contains r₂.id e'.ack_peers ≡ true)
late_vote-lost_example =
    late_vote-lost numbered_laws numbered-IsReliable (ask_for 3 2) (world_of 1) 3 0 25000000
      26000000 retry countdown session (inl (omega arith)) empty-IsUpToDate two_times (omega arith)

abbrev campaigning : W
campaigning = after (initialize (world_of 1))

-- A candidacy, then a vote for another node.
abbrev voted : W
voted = after (on_rpc numbered (request_vote (ask_for 3 2) Tests.here) campaigning)

reached : Reach numbered (world_of 1) voted
reached = next (next here (campaigned refl)) (rpc (request_vote (ask_for 3 2) Tests.here) refl)

world-IsSound : IsSound numbered_laws.view 1 cluster (world_of 1)
world-IsSound = record {
  bounded = rw (numbered_view_lem (store [])) (omega arith);
  same_id = refl;
  same_members = rw (numbered_view_lem (store [])) refl;
}

Reach-IsSound_example : IsSound numbered_laws.view 1 cluster voted
Reach-IsSound_example =
    Reach-IsSound numbered_laws numbered-IsReliable 1 cluster world-IsSound reached
