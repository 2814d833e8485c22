-- ===== src/Role/Rpc.antt =====
-- The arms that the loops of the three roles share: incoming RPCs, and a client's request to a node
-- that does not lead.
pub mod Term
use zeroraft.Base.{false, Option, none, some, Action, abort, ◌>>=◌, gets}
use zeroraft.Store.{NodeId, State}
use zeroraft.Rpc.{
  PeerRpc, append_entries, request_vote, install_snapshot, config, ClientRequest,
  ClientResponseReason, Sender, client_reply,
}
use zeroraft.Node.{get_leader_id, World, send}
use zeroraft.Role.Common.{respond_to_append_entries, respond_to_request_vote}

module _ {S R P : Type 0} where
  -- `unimplemented!` panics.
  unfoldable pub on_rpc : State S R → PeerRpc R → Action (World S R P) (Unit {0})
  unfolding respond_to_append_entries respond_to_request_vote
  on_rpc st (append_entries request tx) = respond_to_append_entries st request tx
  on_rpc st (request_vote request tx) = respond_to_request_vote st request tx
  on_rpc st (config _ _) = abort
  on_rpc st (install_snapshot _ _) = abort

  redirect_to : Option NodeId → Sender → Action (World S R P) (Unit {0})
  unfolding send
  redirect_to (some leader_id) tx = send tx.live (
      client_reply (record {
        success = false;
        reason = ClientResponseReason.redirect;
        leader_id = some leader_id;
        payload = none;
      }))
  redirect_to none tx = send tx.live (
      client_reply (record {
        success = false;
        reason = ClientResponseReason.no_leader_yet;
        leader_id = none;
        payload = none;
      }))

  unfoldable pub redirect : ClientRequest R → Action (World S R P) (Unit {0})
  unfolding redirect_to
  redirect request = do leader_id ← gets get_leader_id; redirect_to leader_id request.response_tx
