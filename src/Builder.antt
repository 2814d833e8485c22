-- ===== src/Builder.antt =====
-- zeroraft/src/builder.rs: configuring and building a node. The defaults of `zeroutils_config` and
-- the fresh id of `uuid` are parameters.
pub mod Laws
use zeroraft.Base.{ℕ, List, [], ◌∷◌, none, Action, ok, err, panic, blocked, Out}
use zeroraft.Store.{NodeId, HashMap, SocketAddr, State}
use zeroraft.Node.{Node, follower}

pub record RaftNodeBuilder (S C : Type 0) : Type 0 where
  pub id : NodeId
  pub state : S
  pub seeds : HashMap SocketAddr
  pub election_timeout_range : ℕ × ℕ
  pub heartbeat_interval : ℕ
  pub channels : C

-- The seeds are used only by a store that has no membership yet.
seed :
    {S R : Type 0} (st : State S R) → HashMap SocketAddr → HashMap SocketAddr → Action S (Unit {0})
seed st seeds [] s = st.set_initial_membership seeds s
seed st seeds (_ ∷ _) s = ok tt s

module _ {S C : Type 0} where
  -- `default_state` is `S::default()`, `default_channels` is `Channels::default()`.
  unfoldable pub default : NodeId → S → ℕ × ℕ → ℕ → C → RaftNodeBuilder S C
  default new_id default_state default_range default_interval default_channels = record {
    id = new_id;
    state = default_state;
    seeds = [];
    election_timeout_range = default_range;
    heartbeat_interval = default_interval;
    channels = default_channels;
  }

  unfoldable pub with_id : NodeId → RaftNodeBuilder S C → RaftNodeBuilder S C
  with_id id b = record b { id = id }

  unfoldable pub with_state : S → RaftNodeBuilder S C → RaftNodeBuilder S C
  with_state state b = record b { state = state }

  unfoldable pub with_seeds : HashMap SocketAddr → RaftNodeBuilder S C → RaftNodeBuilder S C
  with_seeds seeds b = record b { seeds = seeds }

  unfoldable pub with_election_timeout_range : ℕ × ℕ → RaftNodeBuilder S C → RaftNodeBuilder S C
  with_election_timeout_range range b = record b { election_timeout_range = range }

  unfoldable pub with_heartbeat_interval : ℕ → RaftNodeBuilder S C → RaftNodeBuilder S C
  with_heartbeat_interval interval b = record b { heartbeat_interval = interval }

  -- The one setter that changes the type of the builder.
  unfoldable pub with_channels : {D : Type 0} → D → RaftNodeBuilder S C → RaftNodeBuilder S D
  with_channels channels b = record {
    id = b.id;
    state = b.state;
    seeds = b.seeds;
    election_timeout_range = b.election_timeout_range;
    heartbeat_interval = b.heartbeat_interval;
    channels = channels;
  }

  module _ {R : Type 0} (st : State S R) where
    node_of : RaftNodeBuilder S C → S → Node S
    node_of b state = record {
      id = b.id;
      current_term = st.load_current_term b.state;
      voted_for = st.load_voted_for b.state;
      state = state;
      current_state = follower;
      election_timeout_range = b.election_timeout_range;
      heartbeat_interval = b.heartbeat_interval;
      leader_id = none;
      last_heard_from_leader = none;
    }

    -- The node and its channels, which stand beside it; a builder without channels has no `build`. The
    -- state of the result is the store that is left if the seeding fails.
    unfoldable pub build : RaftNodeBuilder S C → Out S (Node S × C)
    unfolding seed node_of
    build b = elim (seed st b.seeds (st.get_membership b.state) b.state) [
      | ok _ s ↦ ok (node_of b s, b.channels) s
      | err x s ↦ err x s
      | panic s ↦ panic s
      | blocked s ↦ blocked s
    ]
