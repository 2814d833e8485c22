-- ===== src/Server/Build.antt =====
-- `RaftNodeServer` and its builder, of zeroraft/tests/fixtures/server.rs. The fresh ids of `uuid` and the
-- defaults of `zeroutils_config` are parameters.
use zeroraft.Base.{
  ℕ, ◌+◌, ◌*◌, ◌^◌, [], true, Option, none, some, Action, Out, ok, err, panic, blocked,
}
use zeroraft.Store.{NodeId, HashMap, SocketAddr}
use zeroraft.Memory
use zeroraft.Memory.{MemoryState, memory}
use zeroraft.Node.{Node}
use zeroraft.Builder.{
  with_id, with_channels, with_seeds, with_election_timeout_range, with_heartbeat_interval,
}
use zeroraft.Builder
use zeroraft.Run.{Running, enter}
use zeroraft.Channels.{Mpsc, Channels, create}
use zeroraft.Channels

-- The ends of the channels that the server and its node have, as the channels between them.
pub record RaftNodeServer (mpsc : Mpsc) (R : Type 0) : Type 0 where
  pub id : NodeId
  pub client_addr : SocketAddr
  pub peer_addr : SocketAddr
  pub node : Node (MemoryState R)
  pub channels : Channels mpsc R

pub record RaftNodeServerBuilder : Type 0 where
  pub seeds : HashMap SocketAddr
  pub id : NodeId
  pub election_timeout_range : ℕ × ℕ
  pub heartbeat_interval : ℕ
  pub client_addr : SocketAddr
  pub peer_addr : SocketAddr

-- `Ipv4Addr::LOCALHOST`
abbrev pub localhost : ℕ
localhost = 127 * 2 ^ 24 + 1

-- What a run takes from the outside.
pub record Defaults : Type 0 where
  pub new_id : NodeId
  pub election_timeout_range : ℕ × ℕ
  pub heartbeat_interval : ℕ

unfoldable pub default : Defaults → RaftNodeServerBuilder
default d = record {
  seeds = [];
  id = d.new_id;
  election_timeout_range = d.election_timeout_range;
  heartbeat_interval = d.heartbeat_interval;
  client_addr = record { ip = localhost; port = 5551 };
  peer_addr = record { ip = localhost; port = 5550 };
}

-- `RaftNodeServer::builder`
abbrev pub builder : Defaults → RaftNodeServerBuilder
builder d = default d

abbrev pub id : NodeId → RaftNodeServerBuilder → RaftNodeServerBuilder
id i b = record b { id = i }

abbrev pub seeds : HashMap SocketAddr → RaftNodeServerBuilder → RaftNodeServerBuilder
seeds s b = record b { seeds = s }

abbrev pub client_addr : SocketAddr → RaftNodeServerBuilder → RaftNodeServerBuilder
client_addr a b = record b { client_addr = a }

abbrev pub peer_addr : SocketAddr → RaftNodeServerBuilder → RaftNodeServerBuilder
peer_addr a b = record b { peer_addr = a }

abbrev pub election_timeout_range : ℕ × ℕ → RaftNodeServerBuilder → RaftNodeServerBuilder
election_timeout_range r b = record b { election_timeout_range = r }

abbrev pub heartbeat_interval : ℕ → RaftNodeServerBuilder → RaftNodeServerBuilder
heartbeat_interval h b = record b { heartbeat_interval = h }

module _ {mpsc : Mpsc} {R : Type 0} where
  abbrev pub get_node : RaftNodeServer mpsc R → Node (MemoryState R)
  get_node s = s.node

  abbrev pub get_peer_addr : RaftNodeServer mpsc R → SocketAddr
  get_peer_addr s = s.peer_addr

  abbrev pub get_client_addr : RaftNodeServer mpsc R → SocketAddr
  get_client_addr s = s.client_addr

module _ (mpsc : Mpsc) {R : Type 0} (d : Defaults) where
  -- `build()?`: `none` is an error or a panic.
  server_of :
      RaftNodeServerBuilder
      → Out (MemoryState R) (Node (MemoryState R) × Channels mpsc R)
      → Option (RaftNodeServer mpsc R)
  server_of b (ok (n, channels) _) = some (record {
    id = b.id;
    client_addr = b.client_addr;
    peer_addr = b.peer_addr;
    node = n;
    channels = channels;
  })
  server_of b _ = none

  unfoldable pub build : RaftNodeServerBuilder → Option (RaftNodeServer mpsc R)
  unfolding server_of Builder.default with_id with_channels create with_seeds
      with_election_timeout_range with_heartbeat_interval Builder.build
  build b =
      let builder =
        Builder.default d.new_id Memory.default d.election_timeout_range d.heartbeat_interval tt in
      server_of b (
        Builder.build memory (
          with_channels (create mpsc) (
            with_seeds b.seeds (
              with_heartbeat_interval b.heartbeat_interval
                (with_election_timeout_range b.election_timeout_range (with_id b.id builder))))))

  -- The loop of the node, from the time `now` on; `none` is the end of its task. The two listeners and
  -- the loop that forwards its requests are started beside it, and are functions of their own.
  unfoldable pub start :
      {P : Type 0} → (ℕ → ℕ → ℕ) → ℕ → RaftNodeServer mpsc R → Option (Running (MemoryState R) R P)
  unfolding enter
  start gen_range now s =
      enter memory gen_range (record { node = s.node; sent = []; now = now; out_live = true })

  -- `server.shutdown()`
  unfoldable pub shutdown : Action (RaftNodeServer mpsc R) (Unit {0})
  unfolding Channels.shutdown
  shutdown s = elim (Channels.shutdown mpsc s.channels) [
    | ok a c ↦ ok a (record s { channels = c })
    | err x c ↦ err x (record s { channels = c })
    | panic c ↦ panic (record s { channels = c })
    | blocked c ↦ blocked (record s { channels = c })
  ]
