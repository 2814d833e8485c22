-- ===== src/Role/Candidate.antt =====
-- zeroraft/src/role/role_candidate.rs: the vote session of a candidate. `Election` is what the tasks
-- of a candidate share. A spawned task that only sends is run where it is spawned, its error dropped.
pub mod Deadline
pub mod Loop
pub mod Peers
pub mod Unelected
use zeroraft.Base.{
  ℕ, ◌+◌, ◌/◌, ◌%◌, List, [], ◌∷◌, Bool, true, false, ◌&&◌, not, Option, none, some, Action, ok,
  err, panic, blocked, ◌>>=◌, ◌>>◌, return, gets, modify, after, if◌then◌else◌, ltb, ◌==◌, length,
  keys, insert_key, difference,
}
use zeroraft.Error.{from}
use zeroraft.Store.{NodeId, HashMap, SocketAddr, State}
use zeroraft.Rpc.{RequestVoteResponse, RequestVoteResponseReason}
use zeroraft.Node.{
  World, u64_mod, increment_term, vote_for_self, update_current_term, change_to_follower_state,
  change_to_leader_state, send_request_vote_rpc,
}

pub data VoteResult : Type 0 where
  no_peers granted : VoteResult

-- `results` is the content of the channel of capacity 1 to the candidate's loop, and `listening`
-- whether that loop still has its receiver.
pub record VoteSession : Type 0 where
  pub ack_peers : List NodeId
  pub granted_votes : ℕ
  pub results : List VoteResult
  pub listening : Bool

pub record Election (S R P : Type 0) : Type 0 where
  pub world : World S R P
  pub open world use *
  pub session : VoteSession
  pub open session use *

-- How an iteration of a receiving loop ends.
pub data Flow : Type 0 where
  next stop : Flow

-- The keys but one.
unfoldable pub others : NodeId → List NodeId → List NodeId
others id [] = []
others id (k ∷ ks) = let rest = others id ks in if k == id then rest else k ∷ rest

-- The peers left to ask, `none` if there is none.
unfoldable pub some_peers : List NodeId → Option (List NodeId)
some_peers [] = none
some_peers (p ∷ ps) = some (p ∷ ps)

module _ {S R P : Type 0} where
  abbrev pub set_session : (VoteSession → VoteSession) → Election S R P → Election S R P
  set_session f e = record e { session = f e.session }

  unfoldable pub on_world {ℓ} : {A : Type ℓ} → Action (World S R P) A → Action (Election S R P) A
  on_world m e = elim (m e.world) [
    | ok a w ↦ ok a (record e { world = w })
    | err x w ↦ err x (record e { world = w })
    | panic w ↦ panic (record e { world = w })
    | blocked w ↦ blocked (record e { world = w })
  ]

  unfoldable pub initialize : Action (World S R P) VoteSession
  unfolding increment_term vote_for_self
  initialize = do
    increment_term
    vote_for_self
    return (record { ack_peers = []; granted_votes = 1; results = []; listening = true })

  -- A full channel makes the sender wait for the loop.
  send_result_on : Bool → List VoteResult → VoteResult → Action (Election S R P) (Unit {0})
  send_result_on false rs r e = err (from "channel closed") e
  send_result_on true [] r e = ok tt (set_session (λ s. record s { results = r ∷ [] }) e)
  send_result_on true (_ ∷ _) r e = blocked e

  unfoldable pub send_result : VoteResult → Action (Election S R P) (Unit {0})
  unfolding send_result_on
  send_result r e = send_result_on e.listening e.results r e

  unfoldable pub unack_of :
      List NodeId → List NodeId → Action (Election S R P) (Option (List NodeId))
  unfolding some_peers send_result
  unack_of [] ack = do send_result no_peers; return none
  unack_of (p ∷ ps) ack = return (some_peers (difference (p ∷ ps) ack))

  -- One response of a peer; `peers_len` was read when the task began.
  unfoldable pub count_vote : ℕ → RequestVoteResponse → Action (Election S R P) Flow
  unfolding send_result
  count_vote peers_len response = do
    modify (set_session (λ s. record s { ack_peers = insert_key response.id s.ack_peers }))
    if not response.vote_granted then return next else do
      modify (set_session (λ s. record s { granted_votes = (s.granted_votes + 1) % u64_mod }))
      granted_votes ← gets (λ e. e.granted_votes)
      if ltb ((peers_len + 1) / 2) granted_votes
          then (do send_result granted; return stop)
          else return next

  module _ (st : State S R) where
    step_down : ℕ → Action (Election S R P) Flow
    unfolding on_world update_current_term change_to_follower_state
    step_down term = do
      on_world (update_current_term st term)
      on_world change_to_follower_state
      return stop

    handle : ℕ → RequestVoteResponseReason → RequestVoteResponse → Action (Election S R P) Flow
    unfolding step_down count_vote
    handle peers_len RequestVoteResponseReason.stale_term response = step_down response.term
    handle peers_len RequestVoteResponseReason.incomplete_log response = step_down response.term
    handle peers_len RequestVoteResponseReason.already_voted response =
        count_vote peers_len response
    handle peers_len RequestVoteResponseReason.ok response = count_vote peers_len response

    unfoldable pub on_vote_response : ℕ → RequestVoteResponse → Action (Election S R P) Flow
    unfolding handle
    on_vote_response peers_len response = handle peers_len response.reason response

    -- The loop over the responses that arrive before the task is dropped by its timeouts.
    unfoldable pub collect_votes : ℕ → List RequestVoteResponse → Action (Election S R P) (Unit {0})
    unfolding on_vote_response
    collect_votes peers_len [] e = ok tt e
    collect_votes peers_len (r ∷ rs) e = elim (on_vote_response peers_len r e) [
      | ok next e' ↦ collect_votes peers_len rs e'
      | ok stop e' ↦ ok tt e'
      | err x e' ↦ err x e'
      | panic e' ↦ panic e'
      | blocked e' ↦ blocked e'
    ]

    unfoldable pub get_unack_peers : Action (Election S R P) (Option (List NodeId))
    unfolding unack_of others
    get_unack_peers e = unack_of (others e.id (keys (st.get_membership e.state))) e.ack_peers e

    unfoldable pub send_to_peers : List NodeId → Action (Election S R P) (Unit {0})
    unfolding send_request_vote_rpc on_world
    send_to_peers [] e = ok tt e
    send_to_peers (p ∷ ps) e = send_to_peers ps (after (on_world (send_request_vote_rpc st p) e))

    ask : ℕ → List RequestVoteResponse → Option (List NodeId) → Action (Election S R P) (Unit {0})
    unfolding send_to_peers collect_votes
    ask peers_len responses none = return tt
    ask peers_len responses (some peers) = do send_to_peers peers; collect_votes peers_len responses

    -- The task that `request_votes` spawns, with the responses that reach it.
    unfoldable pub request_votes : List RequestVoteResponse → Action (Election S R P) (Unit {0})
    unfolding get_unack_peers ask
    request_votes responses = do
      peers_len ← gets (λ e. length (st.get_membership e.state))
      unack_peers ← get_unack_peers
      ask peers_len responses unack_peers
