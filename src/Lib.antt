-- ===== src/Lib.antt =====
-- zeroraft, a Raft consensus library: a node, what its handlers do to the state that they share, and a
-- cluster of nodes.
--
-- The program (zeroraft/src) is a crate of async tasks. A node (`RaftNode`, node.rs) has a state that
-- all its tasks share, a store behind the trait `State` (state.rs) and channels to the outside. Its
-- main task runs the loop of its current role (role/role_follower.rs, role_candidate.rs,
-- role_leader.rs) until the role changes; the loops answer RPCs by role/common.rs. A candidate's vote
-- session and a leader's replication session spawn tasks that send requests and take in responses.
--
-- The files, and the code that they model:
--   Base                  helpers: lists, maps as lists, Boolean tests, the monad `Action` of a call
--                         that changes a state and returns, fails, panics or waits for ever
--   Error, Rpc, Rpc/*     error.rs; request.rs, response.rs; the cloning of a request
--   Store, Store/*        state.rs, command.rs: the trait as a record of operations; its promises;
--                         comparing and cloning log entries
--   Memory, Memory/*      tests/fixtures/state.rs: `MemoryState`, the store of the repository's tests
--   Node                  node.rs, role/state.rs: `RaftNodeInner` and the methods of `RaftNode`
--   Timeout, Builder      timeout.rs, builder.rs
--   Role/Common, Role/Rpc role/common.rs, and the arms that the loops have in common
--   Role/Follower         role/role_follower.rs
--   Role/Candidate        role/role_candidate.rs: the vote session; Loop has the candidate's loop,
--                         Deadline the timers that end a session's tasks
--   Role/Leader           role/role_leader.rs: the replication session; Loop has the leader's loop,
--                         Standby the task that brings a peer up to date, CatchUp that task
--                         together with the follower's side
--   Run                   `RaftNode::start` of node.rs: the loop over the roles
--   Channels              channels.rs, and `RaftNode::shutdown`; Channels/Laws has the laws of a channel
--   Service               the loops' `select!` on the channels of a running node
--   Server                tests/fixtures/server.rs: a request from one node to another and back;
--                         Forward the loop that forwards the requests of a node, Client a client's
--                         request, Build the server and its builder
--   Cluster               tests/fixtures/cluster.rs: a cluster of servers
--   Handlers              every handler of a node's tasks as a step on what they share
--   Safety                moves, what one handler does to a node, in any order; votes and elections;
--                         Safety/System the steps of all nodes of a cluster with their vote
--                         sessions and messages, with one list of members for all, and without
--                         the victory of a candidate that has no peers
--   Tasks                 the handlers of role/common.rs one access to the shared state at a time;
--                         Tasks/Interleaved has them together with what a node's other tasks do,
--                         Tasks/Interleaved/Spawned what the tasks of its sessions do
--   Tests                 concrete nodes, and the results applied to them
--
-- How it is modelled. A `World` is what the tasks of one node share, with the list of what they sent.
-- A handler (the reaction to one message, response or timer) is one step: a function by clauses in
-- the order of the code, with every early return and every `?`. What another task does between two
-- `await`s of one handler is modelled in Tasks, for the handlers of RPCs and the start of a vote
-- session; in the other files only the lock around a leader's peers is kept between two steps.
-- Loops over messages are recursion on the list of messages that arrive. `catch_up` has a round for
-- each element of a list, which tells whether the stop signal comes after it. A `u64` is a natural
-- number: `fetch_add` wraps around at 2 ^ 64, plain `+` and `-` panic when they overflow, as they do
-- in a debug build.
--
-- Parameters: the store (any `State`, with its laws where a result needs them), the clock (`now`),
-- the random source (`gen_range`), the channels of tokio (`Mpsc`), the wire format (`Codec`,
-- `ClientCodec`), when a sleep ends, the fresh ids, whether a channel's receiver still exists, the
-- responses that arrive, and the defaults of the builder.
--
-- Not modelled: tokio itself, sockets, log output, snapshots and membership changes (unimplemented in
-- the code), and the role of a non-voter, which panics.
pub mod Base
pub mod Error
pub mod Store
pub mod Memory
pub mod Rpc
pub mod Node
pub mod Channels
pub mod Timeout
pub mod Builder
pub mod Role
pub mod Run
pub mod Server
pub mod Service
pub mod Handlers
pub mod Safety
pub mod Tasks
pub mod Tests
pub mod Cluster
