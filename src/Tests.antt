-- ===== src/Tests.antt =====
-- Concrete nodes, stores and messages; the tests on them stand in the child modules.
pub mod Votes
pub mod Logs
pub mod Leaders
pub mod Nodes
pub mod Elections
pub mod Wires
pub mod Clusters
pub mod Servers
pub mod Systems
pub mod Tasks
pub mod Interleavings
use zeroraft.Base.{ℕ, List, [], ◌∷◌, Bool, true, false, Option, none, some}
use zeroraft.Store.{NodeId, HashMap, SocketAddr, LogEntry, Command}
use zeroraft.Memory.{MemoryState}
use zeroraft.Node.{Node, World, TaskState, follower}
use zeroraft.Rpc.{RequestVoteRequest, Sender}

abbrev pub entry : ℕ → ℕ → LogEntry ℕ
entry t r = record { term = t; command = Command.client_request r }

abbrev pub address : SocketAddr
address = record { ip = 1; port = 7700 }

abbrev pub cluster : HashMap SocketAddr
cluster = (1, address) ∷ (2, address) ∷ (3, address) ∷ []

abbrev pub store : List (LogEntry ℕ) → MemoryState ℕ
store entries = record {
  entries = entries;
  membership = cluster;
  commit_index = 0;
  applied_index = 0;
  current_term = 0;
  voted_for = none;
}

abbrev pub node : NodeId → ℕ → TaskState → List (LogEntry ℕ) → Node (MemoryState ℕ)
node id term s entries = record {
  id = id;
  current_term = term;
  voted_for = none;
  state = store entries;
  current_state = s;
  election_timeout_range = (150, 300);
  heartbeat_interval = 50;
  leader_id = none;
  last_heard_from_leader = none;
}

abbrev pub world : NodeId → ℕ → TaskState → List (LogEntry ℕ) → World (MemoryState ℕ) ℕ ℕ
world id term s entries = record {
  node = node id term s entries;
  sent = [];
  now = 5;
  out_live = true;
}

abbrev pub here : Sender
here = record { live = true }

abbrev pub ask_for : ℕ → NodeId → RequestVoteRequest
ask_for term id = record { term = term; candidate_id = id; last_log_index = 0; last_log_term = 0 }

-- A random source that always gives the lower bound.
abbrev pub lowest : ℕ → ℕ → ℕ
lowest min max = min
