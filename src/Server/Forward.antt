-- ===== src/Server/Forward.antt =====
-- `forward_outgoing_requests` of zeroraft/tests/fixtures/server.rs: the loop that hands a node's requests
-- to the other nodes. The network is the list of the nodes that accept a connection, by address.
pub mod Stops
use zeroraft.Base.{List, [], ◌∷◌, Bool, true, false, Option, none, some, ◌&&◌, ◌==◌, if◌then◌else◌}
use zeroraft.Store.{NodeId, SocketAddr, State}
use zeroraft.Rpc.{PeerRpc, Sender, Output}
use zeroraft.Node.{World, get_peer}
use zeroraft.Server.{Codec, Called, responded, closed, hangs, call}

abbrev pub Network : (S R P : Type 0) → Type 0
Network S R P = List (SocketAddr × World S R P)

-- The loop goes on, has ended by an error, or waits for ever for a response.
pub data Forwarding (S R P : Type 0) : Type 0 where
  goes_on : Network S R P → Forwarding S R P
  ends : Network S R P → Forwarding S R P
  waits : Network S R P → Forwarding S R P

-- What one request makes of the loop.
pub data Turn : Type 0 where
  on_turn end_turn wait_turn : Turn

abbrev pub same_addr : SocketAddr → SocketAddr → Bool
same_addr a b = (a.ip == b.ip) && (a.port == b.port)

abbrev pub response_tx : {R : Type 0} → PeerRpc R → Sender
response_tx (PeerRpc.append_entries _ tx) = tx
response_tx (PeerRpc.request_vote _ tx) = tx
response_tx (PeerRpc.install_snapshot _ tx) = tx
response_tx (PeerRpc.config _ tx) = tx

module _ {S R P Bytes : Type 0} (codec : Codec R Bytes) (st : State S R) where
  -- `response_tx.send(response).await?`, if there is a response to send.
  answered : Sender → Called S R P → World S R P × Turn
  answered tx (responded v _) = (v, if tx.live then on_turn else end_turn)
  answered tx (closed v) = (v, end_turn)
  answered tx (hangs v) = (v, wait_turn)

  -- What one request does to the node that it is for, and whether the loop goes on.
  unfoldable pub serve : PeerRpc R → World S R P → World S R P × Turn
  unfolding answered call
  serve (PeerRpc.append_entries q tx) v =
      answered tx (call codec st (PeerRpc.append_entries q tx) v)
  serve (PeerRpc.request_vote q tx) v = answered tx (call codec st (PeerRpc.request_vote q tx) v)
  serve (PeerRpc.install_snapshot _ _) v = (v, on_turn)
  serve (PeerRpc.config _ _) v = (v, on_turn)

  beside : SocketAddr × World S R P → Option (Network S R P × Turn) → Option (Network S R P × Turn)
  beside x none = none
  beside x (some (net, b)) = some (x ∷ net, b)

  served_at : SocketAddr → World S R P × Turn → Network S R P → Option (Network S R P × Turn)
  served_at a (v, b) net = some ((a, v) ∷ net, b)

  -- `TcpStream::connect(addr).await?` and what follows; `none` is no connection.
  unfoldable pub hand_over : PeerRpc R → SocketAddr → Network S R P → Option (Network S R P × Turn)
  unfolding beside served_at serve
  hand_over q addr [] = none
  hand_over q addr ((a, v) ∷ net) =
      let further = hand_over q addr net in
      if same_addr a addr then served_at a (serve q v) net else beside (a, v) further

  connected : Network S R P → Option (Network S R P × Turn) → Forwarding S R P
  connected net none = ends net
  connected net (some (net', on_turn)) = goes_on net'
  connected net (some (net', end_turn)) = ends net'
  connected net (some (net', wait_turn)) = waits net'

  to_address : PeerRpc R → Network S R P → Option SocketAddr → Forwarding S R P
  unfolding connected hand_over
  to_address q net none = ends net
  to_address q net (some addr) = connected net (hand_over q addr net)

  -- One turn of the loop of the node `w`.
  unfoldable pub forward_one : World S R P → NodeId × PeerRpc R → Network S R P → Forwarding S R P
  unfolding to_address get_peer
  forward_one w (peer, q) net = to_address q net (get_peer st peer w)

  -- The requests that the node `w` has sent, in their order.
  unfoldable pub forward :
      World S R P → List (NodeId × PeerRpc R) → Network S R P → Forwarding S R P
  unfolding forward_one
  forward w [] net = goes_on net
  forward w (x ∷ xs) net = elim (forward_one w x net) [
    | goes_on net' ↦ forward w xs net'
    | ends net' ↦ ends net'
    | waits net' ↦ waits net'
  ]
