-- ===== src/Node.antt =====
-- zeroraft/src/node.rs and role/state.rs: the shared state of a node and its methods. `World` is what
-- the tasks of one node share (`Arc<RaftNodeInner>`), with what they have put on channels.
use zeroraft.Base.{
  ℕ, ◌+◌, ◌%◌, ◌^◌, List, [], ◌∷◌, Bool, true, false, Option, none, some, Action, ok, err, panic,
  blocked, ◌>>◌, modify, if◌then◌else◌, ◌==◌,
}
use zeroraft.Error.{from}
use zeroraft.Store.{NodeId, HashMap, SocketAddr, State}
use zeroraft.Timeout.{Timeout, start_range}
use zeroraft.Rpc.{AppendEntriesRequest, RequestVoteRequest, PeerRpc, Output, rpc}

pub data TaskState : Type 0 where
  follower candidate leader non_voter shutdown : TaskState

-- `RaftNodeInner`, without its channels.
pub record Node (S : Type 0) : Type 0 where
  pub id : NodeId
  pub current_term : ℕ
  pub voted_for : Option NodeId
  pub state : S
  pub current_state : TaskState
  pub election_timeout_range : ℕ × ℕ
  pub heartbeat_interval : ℕ
  pub leader_id : Option NodeId
  pub last_heard_from_leader : Option ℕ

-- `sent` is what was put on channels, newest first; `now` is the clock; `out_live` says whether the
-- receiver of `out_rpc_tx` still exists.
pub record World (S R P : Type 0) : Type 0 where
  pub node : Node S
  pub open node use *
  pub sent : List (Output R P)
  pub now : ℕ
  pub out_live : Bool

abbrev pub u64_mod : ℕ
u64_mod = 2 ^ 64

module _ {S R P : Type 0} where
  abbrev pub get_current_term : World S R P → ℕ
  get_current_term w = w.current_term

  abbrev pub get_id : World S R P → NodeId
  get_id w = w.id

  abbrev pub get_voted_for : World S R P → Option NodeId
  get_voted_for w = w.voted_for

  abbrev pub get_election_timeout_range : World S R P → ℕ × ℕ
  get_election_timeout_range w = w.election_timeout_range

  abbrev pub get_heartbeat_interval : World S R P → ℕ
  get_heartbeat_interval w = w.heartbeat_interval

  abbrev pub get_leader_id : World S R P → Option NodeId
  get_leader_id w = w.leader_id

  abbrev pub get_current_state : World S R P → TaskState
  get_current_state w = w.current_state

  abbrev pub new_election_timeout : (ℕ → ℕ → ℕ) → World S R P → Option Timeout
  new_election_timeout gen_range w = start_range gen_range w.now (get_election_timeout_range w)

  abbrev pub set_node : (Node S → Node S) → World S R P → World S R P
  set_node f w = record w { node = f w.node }

  -- `tx.send(value).await?` on a channel whose receiver is there or not.
  unfoldable pub send : Bool → Output R P → Action (World S R P) (Unit {0})
  send true o w = ok tt (record w { sent = o ∷ w.sent })
  send false o w = err (from "channel closed") w

  -- `node.inner.state.write().await.m(…)?` for a method `m` of the store.
  unfoldable pub on_state : Action S (Unit {0}) → Action (World S R P) (Unit {0})
  on_state m w = elim (m w.state) [
    | ok a s ↦ ok a (set_node (λ n. record n { state = s }) w)
    | err e s ↦ err e (set_node (λ n. record n { state = s }) w)
    | panic s ↦ panic (set_node (λ n. record n { state = s }) w)
    | blocked s ↦ blocked (set_node (λ n. record n { state = s }) w)
  ]

  unfoldable pub change_state : TaskState → Action (World S R P) (Unit {0})
  change_state s = modify (set_node (λ n. record n { current_state = s }))

  unfoldable pub change_to_follower_state : Action (World S R P) (Unit {0})
  unfolding change_state
  change_to_follower_state = change_state follower

  unfoldable pub change_to_candidate_state : Action (World S R P) (Unit {0})
  unfolding change_state
  change_to_candidate_state = change_state candidate

  unfoldable pub change_to_leader_state : Action (World S R P) (Unit {0})
  unfolding change_state
  change_to_leader_state = change_state leader

  unfoldable pub change_to_shutdown_state : Action (World S R P) (Unit {0})
  unfolding change_state
  change_to_shutdown_state = change_state shutdown

  -- `fetch_add` wraps around.
  unfoldable pub increment_term : Action (World S R P) (Unit {0})
  increment_term =
      modify (set_node (λ n. record n { current_term = (n.current_term + 1) % u64_mod }))

  unfoldable pub vote_for_self : Action (World S R P) (Unit {0})
  vote_for_self = modify (set_node (λ n. record n { voted_for = some n.id }))

  unfoldable pub update_last_heard_from_leader : Action (World S R P) (Unit {0})
  update_last_heard_from_leader w =
      ok tt (set_node (λ n. record n { last_heard_from_leader = some w.now }) w)

  unfoldable pub update_leader_id : NodeId → Action (World S R P) (Unit {0})
  update_leader_id leader_id = modify (set_node (λ n. record n { leader_id = some leader_id }))

  module _ (st : State S R) where
    -- The store first; a failure there leaves the fields in memory as they were.
    unfoldable pub update_current_term : ℕ → Action (World S R P) (Unit {0})
    unfolding on_state
    update_current_term term = do
      on_state (st.store_current_term term)
      modify (set_node (λ n. record n { current_term = term }))

    unfoldable pub update_current_term_and_voted_for : ℕ → NodeId → Action (World S R P) (Unit {0})
    unfolding on_state
    update_current_term_and_voted_for term candidate_id = do
      on_state (st.store_current_term term)
      on_state (st.store_voted_for candidate_id)
      modify (set_node (λ n. record n { current_term = term; voted_for = some candidate_id }))

    -- The request of `send_request_vote_rpc`; the wait for the response is the caller's.
    unfoldable pub send_request_vote_rpc : NodeId → Action (World S R P) (Unit {0})
    unfolding send
    send_request_vote_rpc peer w =
        let request : RequestVoteRequest = record {
          term = w.current_term;
          candidate_id = w.id;
          last_log_index = st.get_last_index w.state;
          last_log_term = st.get_last_term w.state;
        } in
        send w.out_live (rpc peer (PeerRpc.request_vote request (record { live = true }))) w

    unfoldable pub get_peer : NodeId → World S R P → Option SocketAddr
    get_peer peer w = find (st.get_membership w.state)
      where
        find : HashMap SocketAddr → Option SocketAddr
        find [] = none
        find ((k, v) ∷ m) = if k == peer then some v else find m

  -- The request of `send_append_entries_rpc`; the wait for the response is the caller's.
  unfoldable pub send_append_entries_rpc :
      AppendEntriesRequest R → NodeId → Action (World S R P) (Unit {0})
  unfolding send
  send_append_entries_rpc request peer w =
      send w.out_live (rpc peer (PeerRpc.append_entries request (record { live = true }))) w

  unfoldable pub is_in_state : TaskState → World S R P → Bool
  is_in_state follower w = elim w.current_state [ follower ↦ true | _ ↦ false ]
  is_in_state candidate w = elim w.current_state [ candidate ↦ true | _ ↦ false ]
  is_in_state leader w = elim w.current_state [ leader ↦ true | _ ↦ false ]
  is_in_state non_voter w = elim w.current_state [ non_voter ↦ true | _ ↦ false ]
  is_in_state shutdown w = elim w.current_state [ shutdown ↦ true | _ ↦ false ]
