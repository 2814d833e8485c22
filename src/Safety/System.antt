-- ===== src/Safety/System.antt =====
-- A cluster: the worlds of its nodes, the vote sessions that its candidates have opened
-- (role/role_candidate.rs), and the requests and responses on their way. A step is what one handler
-- does, on one node. The members are one list, the same for every node and at every time; the victory
-- of a candidate that has no peers is not among the steps.
pub mod Votes
pub mod Sessions
pub mod Invariant
pub mod Elections
pub mod Reach
use zeroraft.Base.{
  ℕ, ◌≤◌, ◌≡◌, ◌⊎◌, List, [], ◌∷◌, ◌++◌, Bool, true, false, Option, none, some, Out, ok, after, In,
  length, contains, ◌==◌, if◌then◌else◌,
}
use zeroraft.Store.{NodeId, State}
use zeroraft.Rpc.{RequestVoteRequest, RequestVoteResponse, Sender, PeerRpc, vote_reply, rpc}
use zeroraft.Node.{World, send_request_vote_rpc, change_to_leader_state}
use zeroraft.Role.Common.{respond_to_request_vote}
use zeroraft.Role.Candidate.{VoteSession, Election, granted, initialize, on_vote_response}
use zeroraft.Safety.{Move, vote_request, campaign, learn_term, make}
use zeroraft.Safety.Vote.{Steady}
use zeroraft.Safety.Session.{IsVote}

-- A session that `owner` opened in term `term`; `won` says whether its victory was taken by the loop of
-- the candidate.
pub record Candidacy : Type 0 where
  pub owner : NodeId
  pub term : ℕ
  pub vote : VoteSession
  pub asked : List (NodeId × RequestVoteRequest)
  pub pending : List RequestVoteResponse
  pub won : Bool

pub record System (S R P : Type 0) : Type 0 where
  pub worlds : NodeId → World S R P
  pub sessions : ℕ → Option Candidacy

abbrev pub put_at {ℓ} : {A : Type ℓ} → ℕ → A → (ℕ → A) → ℕ → A
put_at k a f j = if j == k then a else f j

module _ {S R P : Type 0} where
  abbrev pub set_world : NodeId → World S R P → System S R P → System S R P
  set_world m w s = record s { worlds = put_at m w s.worlds }

  abbrev pub set_session : ℕ → Candidacy → System S R P → System S R P
  set_session i b s = record s { sessions = put_at i (some b) s.sessions }

  abbrev pub election : Candidacy → System S R P → Election S R P
  election b s = record { world = s.worlds b.owner; session = b.vote }

module _ {S R P : Type 0} (st : State S R) (members : List NodeId) where
  pub data Step (s : System S R P) : System S R P → Type 0 where
    -- Any other handler of the node `m`: requests of anyone, responses, changes of role, writes.
    moved :
        {s' : System S R P} (m : NodeId) (move : Move S R)
        → Steady st move (s.worlds m)
        → s' ≡ set_world m (make st move (s.worlds m)) s
        → Step s s'
    -- A candidate opens a session: `VoteSession::initialize`.
    opened :
        {s' : System S R P} (c : NodeId) (i : ℕ) (v : VoteSession) (w : World S R P)
        → s.sessions i ≡ none
        → contains c members ≡ true
        → Steady st campaign (s.worlds c)
        → initialize (s.worlds c) ≡ ok v w
        → s'
          ≡ set_session i
              (record {
                owner = c;
                term = w.current_term;
                vote = v;
                asked = [];
                pending = [];
                won = false;
              })
              (set_world c w s)
        → Step s s'
    -- A task of a session sends a request, while the node is in the term of the session.
    asked :
        {s' : System S R P} (i : ℕ) (b : Candidacy) (m : NodeId) (w : World S R P)
        (q : RequestVoteRequest) (tx : Sender)
        → s.sessions i ≡ some b
        → contains m members ≡ true
        → (s.worlds b.owner).current_term ≡ b.term
        → send_request_vote_rpc st m (s.worlds b.owner) ≡ ok tt w
        → w.sent ≡ rpc m (PeerRpc.request_vote q tx) ∷ (s.worlds b.owner).sent
        → s' ≡ set_session i (record b { asked = (m, q) ∷ b.asked }) (set_world b.owner w s)
        → Step s s'
    -- The node `m` answers a request, and the response goes to the session.
    answered :
        {s' : System S R P} (i : ℕ) (b : Candidacy) (m : NodeId) (q : RequestVoteRequest)
        (tx : Sender) (r : RequestVoteResponse)
        → s.sessions i ≡ some b
        → In (m, q) b.asked
        → (after (respond_to_request_vote st q tx (record (s.worlds m) { sent = [] }))).sent
          ≡ vote_reply r ∷ []
        → s'
          ≡ set_session i
              (record b { pending = r ∷ b.pending })
              (set_world m (after (respond_to_request_vote st q tx (s.worlds m))) s)
        → Step s s'
    -- A task of a session takes in a response, which makes the node step down only to a later term.
    heard :
        {s' : System S R P} (i : ℕ) (b : Candidacy) (before rest : List RequestVoteResponse)
        (r : RequestVoteResponse)
        → s.sessions i ≡ some b
        → b.pending ≡ before ++ r ∷ rest
        → IsVote r ⊎ ((s.worlds b.owner).current_term ≤ r.term)
        → s'
          ≡ set_session i
              (record b {
                vote = (after (on_vote_response st (length members) r (election b s))).session;
                pending = before ++ rest;
              })
              (set_world b.owner
                (after (on_vote_response st (length members) r (election b s))).world
                s)
        → Step s s'
    -- The loop of the candidate takes the victory of its session.
    taken :
        {s' : System S R P} (i : ℕ) (b : Candidacy)
        → s.sessions i ≡ some b
        → b.vote.results ≡ granted ∷ []
        → s'
          ≡ set_session i
              (record b { vote = record b.vote { results = [] }; won = true })
              (set_world b.owner (after (change_to_leader_state (s.worlds b.owner))) s)
        → Step s s'

  -- Steps of all nodes, in any order.
  pub data Steps (s : System S R P) : System S R P → Type 0 where
    here : Steps s s
    next : {u v : System S R P} → Steps s u → Step u v → Steps s v
