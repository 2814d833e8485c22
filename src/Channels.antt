-- ===== src/Channels.antt =====
-- zeroraft/src/channels.rs: the channels of a node. A channel of `tokio::sync::mpsc` is a parameter, as
-- operations on what it holds. `raft_side` and `outside` say whether the two ends that `create` hands
-- out still exist.
pub mod Laws
use zeroraft.Base.{ℕ, Bool, true, false, Option, none, some, Action, ok, err, blocked}
use zeroraft.Error.{from}
use zeroraft.Store.{NodeId}
use zeroraft.Rpc.{PeerRpc, ClientRequest}

-- `unbounded_channel()`, `channel(capacity)`, and what sending and receiving do while both ends exist:
-- `none` is a wait.
pub record Mpsc : Type 1 where
  pub Queue : Type 0 → Type 0
  pub unbounded_channel : {A : Type 0} → Queue A
  pub channel : {A : Type 0} → ℕ → Queue A
  pub send : {A : Type 0} → A → Queue A → Option (Queue A)
  pub recv : {A : Type 0} → Queue A → Option (A × Queue A)

-- `RaftSideChannels` and `OutsideChannels`.
pub record Channels (mpsc : Mpsc) (R : Type 0) : Type 0 where
  pub in_rpc : mpsc.Queue (PeerRpc R)
  pub out_rpc : mpsc.Queue (NodeId × PeerRpc R)
  pub in_client_request : mpsc.Queue (ClientRequest R)
  pub shutdown_signals : mpsc.Queue (Unit {0})
  pub raft_side : Bool
  pub outside : Bool

module _ (mpsc : Mpsc) {R : Type 0} where
  unfoldable pub create : Channels mpsc R
  create = record {
    in_rpc = mpsc.unbounded_channel;
    out_rpc = mpsc.unbounded_channel;
    in_client_request = mpsc.unbounded_channel;
    shutdown_signals = mpsc.channel 1;
    raft_side = true;
    outside = true;
  }

  closed : Action (Channels mpsc R) (Unit {0})
  closed c = err (from "channel closed") c

  unfoldable pub put :
      {A : Type 0}
      → (mpsc.Queue A → Channels mpsc R)
      → Option (mpsc.Queue A)
      → Action (Channels mpsc R) (Unit {0})
  put holding none c = blocked c
  put holding (some q) c = ok tt (holding q)

  -- `in_rpc_tx.send(request)`
  unfoldable pub send_in_rpc : PeerRpc R → Action (Channels mpsc R) (Unit {0})
  unfolding closed put
  send_in_rpc request c = elim c.raft_side [
    | true ↦ put (λ q. record c { in_rpc = q }) (mpsc.send request c.in_rpc) c
    | false ↦ closed c
  ]

  -- `in_client_request_tx.send(request)`
  unfoldable pub send_in_client_request : ClientRequest R → Action (Channels mpsc R) (Unit {0})
  unfolding closed put
  send_in_client_request request c = elim c.raft_side [
    | true ↦ put (λ q. record c { in_client_request = q }) (mpsc.send request c.in_client_request) c
    | false ↦ closed c
  ]

  -- `out_rpc_tx.send((peer, request))`
  unfoldable pub send_out_rpc : NodeId → PeerRpc R → Action (Channels mpsc R) (Unit {0})
  unfolding closed put
  send_out_rpc peer request c = elim c.outside [
    | true ↦ put (λ q. record c { out_rpc = q }) (mpsc.send (peer, request) c.out_rpc) c
    | false ↦ closed c
  ]

  -- `RaftNode::shutdown`: the receiver lives as long as the sender, in the same struct.
  unfoldable pub shutdown : Action (Channels mpsc R) (Unit {0})
  unfolding put
  shutdown c = put (λ q. record c { shutdown_signals = q }) (mpsc.send tt c.shutdown_signals) c

  unfoldable pub recv_in_rpc : Channels mpsc R → Option (PeerRpc R × Channels mpsc R)
  recv_in_rpc c = elim (mpsc.recv c.in_rpc) [
    | none ↦ none
    | some (request, q) ↦ some (request, record c { in_rpc = q })
  ]

  unfoldable pub recv_in_client_request :
      Channels mpsc R → Option (ClientRequest R × Channels mpsc R)
  recv_in_client_request c = elim (mpsc.recv c.in_client_request) [
    | none ↦ none
    | some (request, q) ↦ some (request, record c { in_client_request = q })
  ]

  unfoldable pub recv_out_rpc : Channels mpsc R → Option ((NodeId × PeerRpc R) × Channels mpsc R)
  recv_out_rpc c = elim (mpsc.recv c.out_rpc) [
    | none ↦ none
    | some (sent, q) ↦ some (sent, record c { out_rpc = q })
  ]

  unfoldable pub recv_shutdown : Channels mpsc R → Option (Channels mpsc R)
  recv_shutdown c = elim (mpsc.recv c.shutdown_signals) [
    | none ↦ none
    | some (_, q) ↦ some (record c { shutdown_signals = q })
  ]
