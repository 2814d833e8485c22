-- ===== src/Tests/Systems.antt =====
-- A new cluster of two servers, and a candidate on one of them.
use zeroraft.Base.{
  ℕ, ◌+◌, ◌*◌, ◌≡◌, ◌≢◌, ◌↔◌, refl, [], ◌∷◌, List, keys, contains, true, false, none, some, ok,
  Option, arith, inl,
}
use zeroraft.Store.{HashMap, SocketAddr}
use zeroraft.Memory.{MemoryState, memory, set_initial_membership}
use zeroraft.Memory
use zeroraft.Node.{follower}
use zeroraft.Role.Candidate.{Election, get_unack_peers}
use zeroraft.Role.Candidate.Peers.{asked}
use zeroraft.Builder.{
  with_id, with_channels, with_seeds, with_election_timeout_range, with_heartbeat_interval,
}
use zeroraft.Builder
use zeroraft.Channels.{create}
use zeroraft.Server.Build
use zeroraft.Server.Build.{RaftNodeServer, localhost}
use zeroraft.Cluster.{RaftNodeCluster, new_with_config}
use zeroraft.Cluster.Elections.{new_with_config-asks}
use zeroraft.Tests.Wires.{lists}
use zeroraft.Tests.Servers.{defaults, config, new_v4, new_v4-IsUnique}

abbrev M : Type 0
M = MemoryState ℕ

abbrev peer_at : ℕ → SocketAddr
peer_at i = record { ip = localhost; port = 5550 + i * 2 }

abbrev two_peers : HashMap SocketAddr
two_peers = (1, peer_at 0) ∷ (2, peer_at 1) ∷ []

abbrev server_of : ℕ → ℕ → RaftNodeServer lists ℕ
server_of id i = record {
  id = id;
  client_addr = record { ip = localhost; port = 5551 + i * 2 };
  peer_addr = peer_at i;
  node = record {
    id = id;
    current_term = 0;
    voted_for = none;
    state = record {
      entries = [];
      membership = two_peers;
      commit_index = 0;
      applied_index = 0;
      current_term = 0;
      voted_for = none;
    };
    current_state = follower;
    election_timeout_range = config.election_timeout_range;
    heartbeat_interval = config.heartbeat_interval;
    leader_id = none;
    last_heard_from_leader = none;
  };
  channels = create lists;
}

abbrev pair_of_servers : RaftNodeCluster lists ℕ
pair_of_servers = record { servers = (1, server_of 1 0) ∷ (2, server_of 2 1) ∷ []; kill_tx = none }

pair_made : new_with_config lists defaults new_v4 2 config ≡ some pair_of_servers
unfolding new_with_config Build.default Build.build Builder.default Builder.build with_id
    with_channels with_seeds with_election_timeout_range with_heartbeat_interval Memory.default
    set_initial_membership
pair_made = refl

abbrev campaigning : Election M ℕ ℕ
campaigning = record {
  world = record { node = (server_of 1 0).node; sent = []; now = 5; out_live = true };
  session = record { ack_peers = []; granted_votes = 1; results = []; listening = true };
}

new_with_config-asks_example :
    (asks : Option (List ℕ)) × (get_unack_peers memory campaigning ≡ ok asks campaigning)
    × ((q : ℕ)
        → (asked q asks ≡ true)
          ↔ (contains q (keys pair_of_servers.servers) ≡ true)
            × (q ≢ 1)
            × (contains q campaigning.ack_peers ≡ false))
new_with_config-asks_example =
    new_with_config-asks defaults new_v4 config 2 pair_of_servers 1 2 (server_of 1 0) campaigning
      new_v4-IsUnique pair_made (inl refl) refl (ground arith) refl refl refl refl
