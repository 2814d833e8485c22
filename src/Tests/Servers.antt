-- ===== src/Tests/Servers.antt =====
-- A cluster of three servers, made, started and shut down, and a client of one node.
use zeroraft.Base.{
  ℕ, ◌+◌, ◌*◌, ◌≤◌, ◌<◌, ◌⊎◌, ◌≡◌, refl, [], ◌∷◌, some, none, All, arith, ok, blocked, length,
  Option, inl, inr,
}
use zeroraft.Memory.{MemoryState, memory}
use zeroraft.Rpc.{ClientResponse}
use zeroraft.Node.{World, follower}
use zeroraft.Timeout
use zeroraft.Run.{Running, following, world_of}
use zeroraft.Server.Client.{ClientCodec, client_call}
use zeroraft.Server.Client.Answers.{IsClientCodec, refusal, read, client_call-Answer}
use zeroraft.Server.Build.{RaftNodeServer, Defaults, localhost}
use zeroraft.Channels.{create}
use zeroraft.Cluster.{RaftNodeCluster, RaftNodeClusterConfig, new_with_config, start, shutdown}
use zeroraft.Cluster.Laws.{IsUnique, max_nodes}
use zeroraft.Cluster.Servers.{IsReady, addresses, ports, new_with_config_lem}
use zeroraft.Cluster.Shutdown.{Holds, Told, start-shutdown}
use zeroraft.Safety.Quorum.{Distinct}
use zeroraft.Tests.{world, lowest}
use zeroraft.Tests.Wires.{lists, lists-IsMpsc, new_empty, new_one}

abbrev pub defaults : Defaults
defaults = record { new_id = 99; election_timeout_range = (150, 300); heartbeat_interval = 50 }

abbrev pub config : RaftNodeClusterConfig
config = record { election_timeout_range = (200, 400); heartbeat_interval = 30 }

-- Node number `i` draws the id `i + 1`.
abbrev pub new_v4 : ℕ → ℕ
new_v4 i = i + 1

pub new_v4-IsUnique : IsUnique new_v4
new_v4-IsUnique i j e = omega arith

new_with_config_lem_example :
    ((3 ≤ max_nodes)
      × (c : RaftNodeCluster lists ℕ) × (new_with_config lists defaults new_v4 3 config ≡ some c)
      × (length c.servers ≡ 3)
      × Distinct (ports c.servers)
      × All (IsReady config (addresses c.servers)) c.servers)
    ⊎ ((max_nodes < 3) × (new_with_config lists {R = ℕ} defaults new_v4 3 config ≡ none))
new_with_config_lem_example = new_with_config_lem lists ℕ defaults new_v4 config 3 new_v4-IsUnique

-- Two servers of that cluster whose nodes have not run.
server : ℕ → RaftNodeServer lists ℕ
unfolding create
server i = record {
  id = i;
  client_addr = record { ip = localhost; port = 5551 + i * 2 };
  peer_addr = record { ip = localhost; port = 5550 + i * 2 };
  node = (world i 0 follower []).node;
  channels = create lists;
}

abbrev cluster : RaftNodeCluster lists ℕ
cluster = record { servers = (1, server 1) ∷ (2, server 2) ∷ []; kill_tx = none }

idle : (i : ℕ) → Holds lists-IsMpsc [] (server i)
unfolding server
idle i = (new_empty, new_one)

start-shutdown_example :
    (after : RaftNodeCluster lists ℕ) × (shutdown lists defaults
        (start lists defaults {P = ℕ} lowest 0 cluster).0
      ≡ ok tt after)
    × Told lists-IsMpsc cluster.servers after.servers
    × (after.kill_tx ≡ none)
    × ((cluster.servers ≡ []) ⊎ (shutdown lists defaults after ≡ blocked after))
start-shutdown_example =
    start-shutdown lists-IsMpsc defaults ℕ lowest 0 cluster (idle 1, (idle 2, tt))

-- A client writes to a follower of term 3 that knows node 2 as the leader.
abbrev Wire : Type 0
Wire = ℕ ⊎ ClientResponse ℕ

request_in : Wire → Option ℕ
request_in (inl q) = some q
request_in (inr r) = none

response_in : Wire → Option (ClientResponse ℕ)
response_in (inl q) = none
response_in (inr r) = some r

plain : ClientCodec ℕ ℕ Wire
unfolding request_in response_in
plain = record {
  encode_request = inl;
  decode_request = request_in;
  encode_response = inr;
  decode_response = response_in;
}

plain-IsClientCodec : IsClientCodec plain
unfolding plain request_in response_in
plain-IsClientCodec = record { request_back = λ q. refl; response_back = λ r. refl }

abbrev led : World (MemoryState ℕ) ℕ ℕ
led = record (world 1 3 follower []) {
  node = record (world 1 3 follower []).node { leader_id = some 2 };
}

abbrev node : Running (MemoryState ℕ) ℕ ℕ
node = following (record { world = led; election_timeout = Timeout.start 0 200 })

client_call-Answer_example :
    (read plain memory (client_call plain memory lowest (plain.encode_request 7) node).1
      ≡ some (refusal (some 2)))
    × ((world_of (client_call plain memory lowest (plain.encode_request 7) node).0).node ≡ led.node)
client_call-Answer_example = client_call-Answer plain memory plain-IsClientCodec lowest 7 node
