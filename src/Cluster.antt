-- ===== src/Cluster.antt =====
-- zeroraft/tests/fixtures/cluster.rs: a cluster of servers on one machine. The fresh ids of `uuid` are a
-- parameter, a function of how many were drawn before; `none` is a panic or an error.
pub mod Laws
pub mod Servers
pub mod Elections
pub mod Start
pub mod Shutdown
use zeroraft.Base.{
  ℕ, zero, suc, ◌+◌, ◌*◌, ◌^◌, List, [], ◌∷◌, Bool, true, false, Option, none, some, Action, ok,
  err, panic, blocked, if◌then◌else◌, ltb, insert,
}
use zeroraft.Error.{custom}
use zeroraft.Store.{NodeId, HashMap, SocketAddr}
use zeroraft.Memory.{MemoryState}
use zeroraft.Run.{Running}
use zeroraft.Channels.{Mpsc}
use zeroraft.Server.Build
use zeroraft.Server.Build.{RaftNodeServer, Defaults, localhost}

-- `kill_tx` is, if there is one, whether its receiver still exists.
pub record RaftNodeCluster (mpsc : Mpsc) (R : Type 0) : Type 0 where
  pub servers : HashMap (RaftNodeServer mpsc R)
  pub kill_tx : Option Bool

pub record RaftNodeClusterConfig : Type 0 where
  pub election_timeout_range : ℕ × ℕ
  pub heartbeat_interval : ℕ

-- `RaftNodeClusterConfig::default`
default : Defaults → RaftNodeClusterConfig
default d = record {
  election_timeout_range = d.election_timeout_range;
  heartbeat_interval = d.heartbeat_interval;
}

-- A `u16` that does not overflow, or a panic.
u16 : ℕ → Option ℕ
u16 n = if ltb n (2 ^ 16) then some n else none

-- `5550 + i * 2`
unfoldable pub peer_port : ℕ → Option ℕ
unfolding u16
peer_port i = elim (u16 (i * 2)) [ none ↦ none | some n ↦ u16 (5550 + n) ]

abbrev pub get_servers :
    {mpsc : Mpsc} {R : Type 0} → RaftNodeCluster mpsc R → HashMap (RaftNodeServer mpsc R)
get_servers c = c.servers

module _ (new_v4 : ℕ → NodeId) where
  -- The addresses for the numbers from `i` on, `left` of them, put into a map.
  unfoldable pub peer_addrs : ℕ → ℕ → HashMap SocketAddr → Option (HashMap SocketAddr)
  unfolding peer_port
  peer_addrs i zero m = some m
  peer_addrs i (suc left) m = elim (peer_port i) [
    | none ↦ none
    | some port ↦
        peer_addrs (i + 1) left (insert (new_v4 i) (record { ip = localhost; port = port }) m)
  ]

module _ (mpsc : Mpsc) {R : Type 0} (d : Defaults) where
  unfoldable pub server :
      RaftNodeClusterConfig
      → HashMap SocketAddr
      → NodeId
      → SocketAddr
      → Option (RaftNodeServer mpsc R)
  unfolding u16 Build.default Build.build
  server config addrs id peer_addr = elim (u16 (peer_addr.port + 1)) [
    | none ↦ none
    | some port ↦ Build.build mpsc d (
        Build.heartbeat_interval config.heartbeat_interval (
          Build.election_timeout_range config.election_timeout_range (
            Build.seeds addrs (
              Build.client_addr (record { ip = peer_addr.ip; port = port })
                (Build.peer_addr peer_addr (Build.id id (Build.builder d)))))))
  ]

  unfoldable pub servers_of :
      RaftNodeClusterConfig
      → HashMap SocketAddr
      → HashMap SocketAddr
      → HashMap (RaftNodeServer mpsc R)
      → Option (HashMap (RaftNodeServer mpsc R))
  unfolding server
  servers_of config addrs [] servers = some servers
  servers_of config addrs ((id, peer_addr) ∷ rest) servers =
      elim (server config addrs id peer_addr) [
        | none ↦ none
        | some s ↦ servers_of config addrs rest (insert id s servers)
      ]

  cluster_of : Option (HashMap (RaftNodeServer mpsc R)) → Option (RaftNodeCluster mpsc R)
  cluster_of none = none
  cluster_of (some servers) = some (record { servers = servers; kill_tx = none })

  unfoldable pub new_with_config :
      (ℕ → NodeId) → ℕ → RaftNodeClusterConfig → Option (RaftNodeCluster mpsc R)
  unfolding cluster_of servers_of peer_addrs
  new_with_config new_v4 num_nodes config = elim (peer_addrs new_v4 0 num_nodes []) [
    | none ↦ none
    | some addrs ↦ cluster_of (servers_of config addrs addrs [])
  ]

  unfoldable pub new : (ℕ → NodeId) → ℕ → Option (RaftNodeCluster mpsc R)
  unfolding new_with_config default
  new new_v4 count = new_with_config new_v4 count (default d)

  unfoldable pub start_each :
      {P : Type 0}
      → (ℕ → ℕ → ℕ)
      → ℕ
      → HashMap (RaftNodeServer mpsc R)
      → HashMap (Option (Running (MemoryState R) R P))
  unfolding Build.start
  start_each gen_range now [] = []
  start_each gen_range now ((id, s) ∷ rest) =
      (id, Build.start mpsc d gen_range now s) ∷ start_each gen_range now rest

  -- The loops of the nodes, which run from the time `now` on, and a task that waits for the kill signal.
  unfoldable pub start :
      {P : Type 0}
      → (ℕ → ℕ → ℕ)
      → ℕ
      → RaftNodeCluster mpsc R
      → RaftNodeCluster mpsc R × HashMap (Option (Running (MemoryState R) R P))
  unfolding start_each
  start gen_range now c = (record c { kill_tx = some true }, start_each gen_range now c.servers)

  unfoldable pub shutdown_each : Action (HashMap (RaftNodeServer mpsc R)) (Unit {0})
  unfolding Build.shutdown
  shutdown_each [] = ok tt []
  shutdown_each ((id, s) ∷ rest) = elim (Build.shutdown mpsc d s) [
    | ok _ s' ↦ elim (shutdown_each rest) [
      | ok a rest' ↦ ok a ((id, s') ∷ rest')
      | err x rest' ↦ err x ((id, s') ∷ rest')
      | panic rest' ↦ panic ((id, s') ∷ rest')
      | blocked rest' ↦ blocked ((id, s') ∷ rest')
    ]
    | err x s' ↦ err x ((id, s') ∷ rest)
    | panic s' ↦ panic ((id, s') ∷ rest)
    | blocked s' ↦ blocked ((id, s') ∷ rest)
  ]

  send_kill : Option Bool → Action (RaftNodeCluster mpsc R) (Unit {0})
  unfolding custom
  send_kill none c = ok tt c
  send_kill (some true) c = ok tt (record c { kill_tx = none })
  send_kill (some false) c = err (custom "Failed to send kill signal") (record c { kill_tx = none })

  unfoldable pub shutdown : Action (RaftNodeCluster mpsc R) (Unit {0})
  unfolding shutdown_each send_kill
  shutdown c = elim (shutdown_each c.servers) [
    | ok _ servers ↦ send_kill c.kill_tx (record c { servers = servers })
    | err x servers ↦ err x (record c { servers = servers })
    | panic servers ↦ panic (record c { servers = servers })
    | blocked servers ↦ blocked (record c { servers = servers })
  ]
