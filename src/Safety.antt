-- ===== src/Safety.antt =====
-- Votes and elections: the moves that the tasks of one node make on its shared state, in any order.
pub mod Vote
pub mod Regress
pub mod Quorum
pub mod Election
pub mod Session
pub mod Moves
pub mod System
use zeroraft.Base.{
  ℕ, List, [], ◌∷◌, ◌++◌, Bool, true, false, Option, none, some, Action, ok, err, panic, blocked,
  ◌>>=◌, ◌>>◌, after,
}
use zeroraft.Store.{NodeId, State}
use zeroraft.Rpc.{
  AppendEntriesRequest, RequestVoteRequest, RequestVoteResponse, Sender, Output, vote_reply,
  append_reply, client_reply, rpc,
}
use zeroraft.Node.{
  World, Node, TaskState, on_state, update_current_term, change_state, change_to_follower_state,
  increment_term, vote_for_self,
}
use zeroraft.Role.Common.{respond_to_request_vote, respond_to_append_entries}
use zeroraft.Role.Candidate.{initialize}

-- What one handler of some task does to the shared state. `learn_term` is the reaction to a response
-- that makes the node step down; `write` is a write to the store alone; `turn` a change of role.
pub data Move (S R : Type 0) : Type 0 where
  vote_request : RequestVoteRequest → Sender → Move S R
  append_request : AppendEntriesRequest R → Sender → Move S R
  campaign : Move S R
  learn_term : ℕ → Move S R
  turn : TaskState → Move S R
  write : Action S (Unit {0}) → Move S R

-- A vote of a node: the term and the candidate.
abbrev pub Ballot : Type 0
Ballot = ℕ × NodeId

-- The vote that the newest response grants.
unfoldable pub granted_by : {R P : Type 0} → RequestVoteRequest → List (Output R P) → List Ballot
granted_by request (vote_reply r ∷ _) = elim r.vote_granted [
  | true ↦ (request.term, request.candidate_id) ∷ []
  | false ↦ []
]
granted_by request _ = []

module _ {S R P : Type 0} (st : State S R) where
  unfoldable pub make : Move S R → World S R P → World S R P
  unfolding respond_to_request_vote respond_to_append_entries initialize update_current_term
      change_state change_to_follower_state on_state
  make (vote_request request tx) w = after (respond_to_request_vote st request tx w)
  make (append_request request tx) w = after (respond_to_append_entries st request tx w)
  make campaign w = after (initialize w)
  make (learn_term t) w = after ((update_current_term st t >> change_to_follower_state) w)
  make (turn s) w = after (change_state s w)
  make (write m) w = after (on_state m w)

  -- The votes cast by a move: the one that it grants, or the candidate's own.
  unfoldable pub cast : Move S R → World S R P → List Ballot
  unfolding granted_by respond_to_request_vote make
  cast (vote_request request tx) w =
      granted_by request
        (after (respond_to_request_vote st request tx (record w { sent = [] }))).sent
  cast campaign w = ((make campaign w).current_term, w.id) ∷ []
  cast _ w = []

  unfoldable pub play : List (Move S R) → World S R P → World S R P
  unfolding make
  play [] w = w
  play (m ∷ ms) w = play ms (make m w)

  -- All votes cast over a sequence of moves.
  unfoldable pub ballots : List (Move S R) → World S R P → List Ballot
  unfolding cast make
  ballots [] w = []
  ballots (m ∷ ms) w = cast m w ++ ballots ms (make m w)
