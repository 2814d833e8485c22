-- ===== src/Server.antt =====
-- zeroraft/tests/fixtures/server.rs: how a server hands a node's requests to another node and brings the
-- response back. The wire format (`cbor4ii`) is a parameter, and a stream brings what was written.
pub mod Build
pub mod Client
pub mod Transport
pub mod Forward
use zeroraft.Base.{
  ℕ, List, [], ◌∷◌, Option, none, some, Out, ok, err, panic, blocked, true, false, after, Bool,
  if◌then◌else◌,
}
use zeroraft.Store.{NodeId, State, SocketAddr, HashMap}
use zeroraft.Rpc.{
  AppendEntriesRequest, AppendEntriesResponse, RequestVoteRequest, RequestVoteResponse, PeerRpc,
  Sender, Output, vote_reply, append_reply,
}
use zeroraft.Node.{World, TaskState, follower, candidate, leader, non_voter, shutdown}
use zeroraft.Role.Rpc.{on_rpc}

-- `enum Rpc`, what goes over the wire.
pub data WireRpc (R : Type 0) : Type 0 where
  append_entries : AppendEntriesRequest R → WireRpc R
  request_vote : RequestVoteRequest → WireRpc R

-- `cbor4ii::serde::to_vec` and `from_slice` at the three types that are sent; `none` is an error.
pub record Codec (R Bytes : Type 0) : Type 0 where
  pub encode_rpc : WireRpc R → Bytes
  pub decode_rpc : Bytes → Option (WireRpc R)
  pub encode_vote : RequestVoteResponse → Bytes
  pub decode_vote : Bytes → Option RequestVoteResponse
  pub encode_append : AppendEntriesResponse → Bytes
  pub decode_append : Bytes → Option AppendEntriesResponse

-- What a call comes to: the response; a stream that is closed, or has nothing to be read as one; or a wait
-- for ever, since no loop takes the request.
pub data Called (S R P : Type 0) : Type 0 where
  responded : World S R P → Output R P → Called S R P
  closed : World S R P → Called S R P
  hangs : World S R P → Called S R P

-- A node of this role has a loop that takes requests. The listener of a node that was shut down still
-- accepts connections, and the channel of requests is still there.
abbrev pub takes_rpcs : TaskState → Bool
takes_rpcs follower = true
takes_rpcs candidate = true
takes_rpcs leader = true
takes_rpcs non_voter = false
takes_rpcs shutdown = false

abbrev pub live_sender : Sender
live_sender = record { live = true }

module _ {R Bytes : Type 0} (codec : Codec R Bytes) where
  -- What `forward_outgoing_requests` writes: nothing for the other two kinds of request.
  unfoldable pub request_bytes : PeerRpc R → Option Bytes
  request_bytes (PeerRpc.append_entries q _) = some (codec.encode_rpc (append_entries q))
  request_bytes (PeerRpc.request_vote q _) = some (codec.encode_rpc (request_vote q))
  request_bytes (PeerRpc.install_snapshot _ _) = none
  request_bytes (PeerRpc.config _ _) = none

  -- What `start_peer_server` sends to its node.
  peer_rpc : Option (WireRpc R) → Option (PeerRpc R)
  peer_rpc none = none
  peer_rpc (some (append_entries q)) = some (PeerRpc.append_entries q live_sender)
  peer_rpc (some (request_vote q)) = some (PeerRpc.request_vote q live_sender)

  unfoldable pub accept_request : Bytes → Option (PeerRpc R)
  unfolding peer_rpc
  accept_request bytes = peer_rpc (codec.decode_rpc bytes)

  -- What it writes back: the response that the node put on the request's channel.
  unfoldable pub response_bytes : {P : Type 0} → List (Output R P) → Option Bytes
  response_bytes (vote_reply r ∷ _) = some (codec.encode_vote r)
  response_bytes (append_reply r ∷ _) = some (codec.encode_append r)
  response_bytes _ = none

  as_vote : {P : Type 0} → Option RequestVoteResponse → Option (Output R P)
  as_vote none = none
  as_vote (some r) = some (vote_reply r)

  as_append : {P : Type 0} → Option AppendEntriesResponse → Option (Output R P)
  as_append none = none
  as_append (some r) = some (append_reply r)

  -- The response that the sender's server reads for its request.
  unfoldable pub read_response : {P : Type 0} → PeerRpc R → Bytes → Option (Output R P)
  unfolding as_vote as_append
  read_response (PeerRpc.append_entries _ _) bytes = as_append (codec.decode_append bytes)
  read_response (PeerRpc.request_vote _ _) bytes = as_vote (codec.decode_vote bytes)
  read_response _ bytes = none

  module _ {S P : Type 0} (st : State S R) where
    unfoldable pub brought : World S R P → Option (Output R P) → Called S R P
    brought w none = closed w
    brought w (some o) = responded w o

    written : PeerRpc R → World S R P → Option Bytes → Called S R P
    unfolding brought read_response
    written q w none = closed w
    written q w (some bytes) = brought w (read_response q bytes)

    served : PeerRpc R → World S R P → Called S R P
    unfolding written response_bytes
    served q w = written q w (response_bytes w.sent)

    -- The request waits in the channel of the node until a loop takes it.
    handled : PeerRpc R → World S R P → Option (PeerRpc R) → Called S R P
    unfolding served on_rpc
    handled q w none = closed w
    handled q w (some q') =
        if takes_rpcs w.current_state
        then served q (after (on_rpc st q' (record w { sent = [] })))
        else hangs w

    arrived : PeerRpc R → World S R P → Option Bytes → Called S R P
    unfolding handled accept_request
    arrived q w none = closed w
    arrived q w (some bytes) = handled q w (accept_request bytes)

    -- One request on its way to the node `w` and back.
    unfoldable pub call : PeerRpc R → World S R P → Called S R P
    unfolding arrived request_bytes
    call q w = arrived q w (request_bytes q)
