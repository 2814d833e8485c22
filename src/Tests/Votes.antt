-- ===== src/Tests/Votes.antt =====
-- Votes, elections and vote sessions on concrete nodes.
use zeroraft.Base.{
  ltb, if◌then◌else◌, ◌+◌, Bool, sym, subst, ℕ, ◌≡◌, refl, List, [], ◌∷◌, true, false, Option,
  arith, In, inl, inr, contains, ◌==◌, Returns, ok, ◌⊎◌, ◌↔◌, ◌≢◌,
}
use zeroraft.Memory.{get_last_term, MemoryState, numbered}
use zeroraft.Memory.Laws.{numbered_laws, numbered-IsReliable, numbered_view_lem}
use zeroraft.Node.{World, follower, candidate}
use zeroraft.Rpc.{RequestVoteResponse, RequestVoteResponseReason}
use zeroraft.Role.Common.{respond_to_request_vote}
use zeroraft.Role.Common.Vote.{IsUpToDate, VoteAnswer, respond_to_request_vote_lem}
use zeroraft.Role.Candidate.{
  Election, collect_votes, granted, get_unack_peers, set_session, no_peers,
}
use zeroraft.Role.Candidate.Peers.{asked, get_unack_peers_lem}
use zeroraft.Safety.{Move, vote_request, campaign, learn_term, ballots}
use zeroraft.Safety.Vote.{VotesOnce, IsSteady}
use zeroraft.Safety.Quorum.{Wins, election_safety}
use zeroraft.Safety.Regress.{vote_twice}
use zeroraft.Safety.Session.{collect_votes_lem, grants, needed}
use zeroraft.Tests.{store, world, here, ask_for}

abbrev W : Type 0
W = World (MemoryState ℕ) ℕ ℕ

abbrev some_moves : List (Move (MemoryState ℕ) ℕ)
some_moves =
    vote_request (ask_for 1 2) here
    ∷ vote_request (ask_for 1 3) here
    ∷ campaign
    ∷ learn_term 5
    ∷ vote_request (ask_for 6 3) here
    ∷ []

-- The node votes for 2, not for 3, then for itself, and at last for 3.
some_votes : ballots numbered some_moves (world 1 0 follower []) ≡ (1, 2) ∷ (2, 1) ∷ (6, 3) ∷ []
unfolding ballots get_last_term
some_votes = refl

-- Node 1 runs in term 1, and the others vote for it.
abbrev pub moves_of : ℕ → List (Move (MemoryState ℕ) ℕ)
moves_of m = elim (m == 1) [ true ↦ campaign ∷ [] | false ↦ vote_request (ask_for 1 1) here ∷ [] ]

abbrev pub world_of : ℕ → W
world_of m = world m 0 follower []

abbrev pub members : List ℕ
members = 1 ∷ 2 ∷ 3 ∷ []

pub moves_of-IsSteady :
    (m : ℕ) → contains m members ≡ true → IsSteady numbered (moves_of m) (world_of m)
moves_of-IsSteady m h = steady (m == 1)
  where
    steady :
        (b : Bool)
        → IsSteady numbered
            (elim b [ true ↦ campaign ∷ [] | false ↦ vote_request (ask_for 1 1) here ∷ [] ])
            (world_of m)
    steady true = (omega arith, tt)
    steady false = (tt, tt)

pub one_or_two : (m : ℕ) → contains m (1 ∷ 2 ∷ []) ≡ true → (m ≡ 1) ⊎ (m ≡ 2)
one_or_two m h = ground arith

voters_voted :
    (m : ℕ)
    → contains m (1 ∷ 2 ∷ []) ≡ true
    → In (1, 1) (ballots numbered (moves_of m) (world_of m))
unfolding ballots get_last_term
voters_voted m h = elim (one_or_two m h) [
  | inl e ↦ subst voted (sym e) (inl refl)
  | inr e ↦ subst voted (sym e) (inl refl)
]
  where
    voted : ℕ → Type 0
    voted k = In (1, 1) (ballots numbered (moves_of k) (world_of k))

abbrev first_win : Wins members (λ m. ballots numbered (moves_of m) (world_of m)) 1 1
first_win = record {
  voters = 1 ∷ 2 ∷ [];
  distinct = (refl, (refl, tt));
  among = (refl, (refl, tt));
  majority = omega arith;
  voted = voters_voted;
}

abbrev node_1 : ℕ
node_1 = 1

election_safety_example : node_1 ≡ node_1
election_safety_example =
    election_safety numbered members moves_of world_of moves_of-IsSteady first_win first_win

respond_to_request_vote_lem_example :
    Returns
      (respond_to_request_vote numbered
        (ask_for 3 2)
        (record { live = true })
        (world 1 2 follower []))
      λ w'.
        (r : RequestVoteResponse) × VoteAnswer numbered_laws.view
          (ask_for 3 2)
          (world 1 2 follower [])
          w'
          r
respond_to_request_vote_lem_example =
    respond_to_request_vote_lem numbered_laws numbered-IsReliable (ask_for 3 2)
      (world 1 2 follower [])

empty-IsUpToDate : IsUpToDate (numbered_laws.view (store [])).log (ask_for 3 2)
empty-IsUpToDate = rw (numbered_view_lem (store [])) (inr (refl, omega arith))

vote_twice_example : ¬ VotesOnce (
    ballots numbered
      (campaign ∷ learn_term 0 ∷ vote_request (ask_for 3 2) here ∷ [])
      (world 1 2 candidate []))
vote_twice_example =
    vote_twice numbered numbered_laws numbered-IsReliable (world 1 2 candidate []) 0 (ask_for 3 2)
      refl (omega arith) (omega arith) (omega arith) empty-IsUpToDate

-- A candidate of three members in term 3, with its own vote.
abbrev election : Election (MemoryState ℕ) ℕ ℕ
election = record {
  world = world 1 3 candidate [];
  session = record { ack_peers = []; granted_votes = 1; results = []; listening = true };
}

abbrev refusal : RequestVoteResponse
refusal = record {
  term = 2;
  vote_granted = false;
  id = 2;
  reason = RequestVoteResponseReason.incomplete_log;
}

abbrev grant_of : ℕ → RequestVoteResponse
grant_of id = record {
  term = 2;
  vote_granted = true;
  id = id;
  reason = RequestVoteResponseReason.ok;
}

collect_votes_lem_example :
    Returns (collect_votes numbered 3 (grant_of 2 ∷ grant_of 3 ∷ []) election) λ e'.
      e'.results
      ≡ (if ltb (needed 3) (1 + grants (grant_of 2 ∷ grant_of 3 ∷ [])) then granted ∷ [] else [])
collect_votes_lem_example =
    collect_votes_lem numbered 3 (grant_of 2 ∷ grant_of 3 ∷ []) election (inl refl, (inl refl, tt))
      (record { listening = refl; silent = refl; short = omega arith }) (omega arith)

get_unack_peers_lem_example :
    (asks : Option (List ℕ)) × (e' : Election (MemoryState ℕ) ℕ ℕ) × (get_unack_peers numbered
        election
      ≡ ok asks e')
    × ((q : ℕ)
        → (asked q asks ≡ true) ↔ (contains q members ≡ true) × (q ≢ 1) × (contains q [] ≡ false))
    × ((e' ≡ election)
        ⊎ (e' ≡ set_session (λ s. record s { results = no_peers ∷ [] }) election)
          × ((q : ℕ) → contains q members ≡ true → q ≡ 1))
get_unack_peers_lem_example = get_unack_peers_lem numbered election refl refl
