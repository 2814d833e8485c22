-- ===== src/Cluster/Start.antt =====
-- The loops that a new cluster starts.
use zeroraft.Base.{ℕ, ◌<◌, ◌≡◌, refl, [], ◌∷◌, true, Option, some, All, arith}
use zeroraft.Store.{NodeId, HashMap, SocketAddr}
use zeroraft.Memory.{MemoryState}
use zeroraft.Node.{follower}
use zeroraft.Timeout.{range, from_millis, start_range}
use zeroraft.Role.Follower.{Following, start_following}
use zeroraft.Run.{Running, following, enter, enter_role}
use zeroraft.Channels.{Mpsc}
use zeroraft.Server.Build.{RaftNodeServer, Defaults}
use zeroraft.Server.Build
use zeroraft.Cluster.{RaftNodeCluster, RaftNodeClusterConfig, start, start_each}
use zeroraft.Cluster.Servers.{IsReady}

module _ {R : Type 0} (P : Type 0) (gen_range : ℕ → ℕ → ℕ) (now min max : ℕ) where
  -- The loop of a follower of that id whose timer has just begun.
  pub record Follows (entry : NodeId × Option (Running (MemoryState R) R P)) : Type 0 where
    pub loop : Following (MemoryState R) R P
    pub runs : entry.1 ≡ some (following loop)
    pub own_id : loop.id ≡ entry.0
    pub role : loop.current_state ≡ follower
    pub timer : loop.election_timeout ≡ record {
      duration = range min max;
      started = now;
      current_interval = from_millis (gen_range min max);
    }

  module _ {mpsc : Mpsc} (d : Defaults) (config : RaftNodeClusterConfig)
      (members : HashMap SocketAddr) (ranged : config.election_timeout_range ≡ (min, max))
      (nonempty : min < max) where
    started-Follows :
        (i : NodeId) (s : RaftNodeServer mpsc R)
        → IsReady config members (i, s)
        → Follows (i, Build.start mpsc d gen_range now s)
    unfolding Build.start enter enter_role start_following start_range
    started-Follows i s r = record {
      loop = record {
        world = record { node = s.node; sent = []; now = now; out_live = true };
        election_timeout = record {
          duration = range min max;
          started = now;
          current_interval = from_millis (gen_range min max);
        };
      };
      runs = ground (arith, r.follows, r.timeouts, ranged);
      own_id = r.node_id;
      role = r.follows;
      timer = refl;
    }

    start_each-Follows :
        (servers : HashMap (RaftNodeServer mpsc R))
        → All (IsReady config members) servers
        → All Follows (start_each mpsc d gen_range now servers)
    unfolding start_each
    start_each-Follows [] h = tt
    start_each-Follows ((i, s) ∷ rest) (r, h) = (started-Follows i s r, start_each-Follows rest h)

    -- In a cluster whose servers are ready, each loop that is started is that of a follower with the id of
    -- its server, whose election timer has just begun, if the range of the timers is not empty.
    start-Follows :
        (c : RaftNodeCluster mpsc R)
        → All (IsReady config members) c.servers
        → All Follows (start mpsc d gen_range now c).1
    unfolding start
    start-Follows c h = start_each-Follows c.servers h
