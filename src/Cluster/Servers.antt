-- ===== src/Cluster/Servers.antt =====
-- The servers of a new cluster.
use zeroraft.Base.{
  ℕ, zero, suc, ◌+◌, ◌*◌, ◌≤◌, ◌<◌, ◌≡◌, refl, sym, ap, ◌∙◌, List, [], ◌∷◌, ◌++◌, none, some, keys,
  contains, false, All, length, leb, leb→le, Bool-cases, ◌⊎◌, inl, inr, subst, arith,
}
use mathlib.Core.List.{append-nil, append_assoc}
use zeroraft.Store.{NodeId, HashMap, SocketAddr}
use zeroraft.Memory
use zeroraft.Memory.{set_initial_membership}
use zeroraft.Builder.{
  with_id, with_channels, with_seeds, with_election_timeout_range, with_heartbeat_interval,
}
use zeroraft.Builder
use zeroraft.Node.{follower}
use zeroraft.Channels.{Mpsc, create}
use zeroraft.Server.Build.{RaftNodeServer, Defaults}
use zeroraft.Server.Build
use zeroraft.Safety.Quorum.{Distinct}
use zeroraft.Cluster.{
  RaftNodeCluster, RaftNodeClusterConfig, u16, server, servers_of, cluster_of, new_with_config,
}
use zeroraft.Cluster.Laws.{
  insert_fresh, max_nodes, ports_from, ports-Distinct, address_of, addrs_from, IsUnique, Below,
  Below-append, peer_addrs-none, peer_addrs-some,
}

-- The addresses that servers have for peers, and the ports they have in all.
abbrev pub addresses :
    {mpsc : Mpsc} {R : Type 0} → HashMap (RaftNodeServer mpsc R) → HashMap SocketAddr
addresses [] = []
addresses ((id, s) ∷ rest) = (id, s.peer_addr) ∷ addresses rest

abbrev pub ports : {mpsc : Mpsc} {R : Type 0} → HashMap (RaftNodeServer mpsc R) → List ℕ
ports [] = []
ports ((id, s) ∷ rest) = s.peer_addr.port ∷ s.client_addr.port ∷ ports rest

-- A server that stands under its own id, and whose node is a follower of that id that has the given
-- members, the timeouts of the configuration, an empty log and no vote.
pub record IsReady {mpsc : Mpsc} {R : Type 0} (config : RaftNodeClusterConfig)
    (members : HashMap SocketAddr) (entry : NodeId × RaftNodeServer mpsc R) : Type 0 where
  pub own_id : entry.1.id ≡ entry.0
  pub node_id : entry.1.node.id ≡ entry.0
  pub follows : entry.1.node.current_state ≡ follower
  pub no_vote : entry.1.node.voted_for ≡ none
  pub no_entries : entry.1.node.state.entries ≡ []
  pub knows : entry.1.node.state.membership ≡ members
  pub timeouts : entry.1.node.election_timeout_range ≡ config.election_timeout_range
  pub heartbeats : entry.1.node.heartbeat_interval ≡ config.heartbeat_interval

u16-client : (i : ℕ) → i < max_nodes → u16 (5550 + i * 2 + 1) ≡ some (5551 + i * 2)
unfolding u16
u16-client i h = ground arith

module _ (mpsc : Mpsc) (R : Type 0) (d : Defaults) (new_v4 : ℕ → NodeId)
    (config : RaftNodeClusterConfig) where
  -- The server of the node with number `i`.
  server_at : HashMap SocketAddr → ℕ → RaftNodeServer mpsc R
  unfolding create
  server_at addrs i = record {
    id = new_v4 i;
    client_addr = record { ip = Build.localhost; port = 5551 + i * 2 };
    peer_addr = address_of i;
    node = record {
      id = new_v4 i;
      current_term = 0;
      voted_for = none;
      state = record {
        entries = [];
        membership = addrs;
        commit_index = 0;
        applied_index = 0;
        current_term = 0;
        voted_for = none;
      };
      current_state = follower;
      election_timeout_range = config.election_timeout_range;
      heartbeat_interval = config.heartbeat_interval;
      leader_id = none;
      last_heard_from_leader = none;
    };
    channels = create mpsc;
  }

  build-server_at :
      (addrs : HashMap SocketAddr) (i : ℕ)
      → Build.build mpsc d (record {
        seeds = addrs;
        id = new_v4 i;
        election_timeout_range = config.election_timeout_range;
        heartbeat_interval = config.heartbeat_interval;
        client_addr = record { ip = Build.localhost; port = 5551 + i * 2 };
        peer_addr = address_of i;
      })
        ≡ some (server_at addrs i)
  unfolding Build.build Builder.build Builder.default with_id with_channels with_seeds
      with_election_timeout_range with_heartbeat_interval Memory.default set_initial_membership
      server_at
  build-server_at addrs i = refl

  server-some :
      (addrs : HashMap SocketAddr) (i : ℕ)
      → i < max_nodes
      → server mpsc d config addrs (new_v4 i) (address_of i) ≡ some (server_at addrs i)
  unfolding server Build.default
  server-some addrs i h = ground (arith, u16-client i h, build-server_at addrs i)

  made : HashMap SocketAddr → ℕ → ℕ → HashMap (RaftNodeServer mpsc R)
  made addrs i zero = []
  made addrs i (suc left) = (new_v4 i, server_at addrs i) ∷ made addrs (i + 1) left

  servers_of-suc :
      (addrs : HashMap SocketAddr) (i left : ℕ) (m : HashMap (RaftNodeServer mpsc R))
      → i < max_nodes
      → contains (new_v4 i) (keys m) ≡ false
      → servers_of mpsc d config addrs (addrs_from new_v4 i (suc left)) m
        ≡ servers_of mpsc d config addrs
            (addrs_from new_v4 (i + 1) left)
            (m ++ (new_v4 i, server_at addrs i) ∷ [])
  unfolding servers_of
  servers_of-suc addrs i left m h b =
      ground (arith, server-some addrs i h, insert_fresh (new_v4 i) (server_at addrs i) m b)

  servers_of-some :
      (addrs : HashMap SocketAddr) (i left : ℕ) (m : HashMap (RaftNodeServer mpsc R))
      → IsUnique new_v4
      → Below new_v4 i m
      → i + left ≤ max_nodes
      → servers_of mpsc d config addrs (addrs_from new_v4 i left) m ≡ some (m ++ made addrs i left)
  unfolding servers_of made
  servers_of-some addrs i zero m u b h = ap some (sym (append-nil m))
  servers_of-some addrs i (suc left) m u b h =
      servers_of-suc addrs i left m (omega arith) (b i (omega arith))
      ∙ servers_of-some addrs (i + 1) left (m ++ (new_v4 i, server_at addrs i) ∷ []) u
          (Below-append new_v4 i (server_at addrs i) m u b) (omega arith)
      ∙ ap some (append_assoc m ((new_v4 i, server_at addrs i) ∷ []) (made addrs (i + 1) left))

  addresses-made :
      (addrs : HashMap SocketAddr) (i left : ℕ)
      → addresses (made addrs i left) ≡ addrs_from new_v4 i left
  unfolding made server_at
  addresses-made addrs i zero = refl
  addresses-made addrs i (suc left) =
      ap (◌∷◌ (new_v4 i, address_of i)) (addresses-made addrs (i + 1) left)

  ports-made :
      (addrs : HashMap SocketAddr) (i left : ℕ) → ports (made addrs i left) ≡ ports_from i left
  unfolding made server_at
  ports-made addrs i zero = refl
  ports-made addrs i (suc left) =
      ap (λ ps. (5550 + i * 2) ∷ (5551 + i * 2) ∷ ps) (ports-made addrs (i + 1) left)

  length-made : (addrs : HashMap SocketAddr) (i left : ℕ) → length (made addrs i left) ≡ left
  unfolding made
  length-made addrs i zero = refl
  length-made addrs i (suc left) = omega (arith, length-made addrs (i + 1) left)

  made-IsReady :
      (addrs : HashMap SocketAddr) (i left : ℕ) → All (IsReady config addrs) (made addrs i left)
  unfolding made server_at
  made-IsReady addrs i zero = tt
  made-IsReady addrs i (suc left) = (
    record {
      own_id = refl;
      node_id = refl;
      follows = refl;
      no_vote = refl;
      no_entries = refl;
      knows = refl;
      timeouts = refl;
      heartbeats = refl;
    },
    made-IsReady addrs (i + 1) left,
  )

  abbrev all_made : ℕ → HashMap (RaftNodeServer mpsc R)
  all_made n = made (addrs_from new_v4 0 n) 0 n

  new_with_config-some :
      (n : ℕ)
      → IsUnique new_v4
      → n ≤ max_nodes
      → new_with_config mpsc d new_v4 n config
        ≡ some (record { servers = all_made n; kill_tx = none })
  unfolding new_with_config cluster_of
  new_with_config-some n u l = ground (
    arith,
    peer_addrs-some new_v4 0 n [] u (λ j h. refl) (omega arith),
    servers_of-some (addrs_from new_v4 0 n) 0 n [] u (λ j h. refl) (omega arith),
  )

  new_with_config-none :
      (n : ℕ) → max_nodes < n → new_with_config mpsc {R = R} d new_v4 n config ≡ none
  unfolding new_with_config
  new_with_config-none n l =
      ground (arith, peer_addrs-none new_v4 0 n [] (omega arith) (omega arith))

  -- If the fresh ids are different, a cluster of up to 29993 nodes is made: it has that many servers,
  -- no two ports of the cluster are the same, and each server stands under its own id with a node of
  -- that id that is a follower without a vote or an entry, whose members are the ids and peer addresses
  -- of the servers of the cluster, and whose timeouts are those of the configuration. For more nodes
  -- there is no cluster: the port number overflows.
  pub new_with_config_lem :
      (n : ℕ)
      → IsUnique new_v4
      → ((n ≤ max_nodes)
          × (c : RaftNodeCluster mpsc R) × (new_with_config mpsc d new_v4 n config ≡ some c)
          × (length c.servers ≡ n)
          × Distinct (ports c.servers)
          × All (IsReady config (addresses c.servers)) c.servers)
        ⊎ ((max_nodes < n) × (new_with_config mpsc {R = R} d new_v4 n config ≡ none))
  new_with_config_lem n u = elim (Bool-cases (leb n max_nodes)) [
    | inl l ↦ inl (
      leb→le n max_nodes l,
      record { servers = all_made n; kill_tx = none },
      new_with_config-some n u (leb→le n max_nodes l),
      length-made (addrs_from new_v4 0 n) 0 n,
      subst Distinct (sym (ports-made (addrs_from new_v4 0 n) 0 n)) (ports-Distinct 0 n),
      subst (λ m. All (IsReady config m) (all_made n))
          (sym (addresses-made (addrs_from new_v4 0 n) 0 n))
          (made-IsReady (addrs_from new_v4 0 n) 0 n),
    )
    | inr l ↦ inr (ground arith, new_with_config-none n (ground arith))
  ]
