-- ===== src/Service.antt =====
-- A running node (zeroraft/src/node.rs) with its channels (channels.rs): the arms of the loops' `select!`
-- that wait for a message.
pub mod Shutdown
use zeroraft.Base.{ℕ, Option, none, some}
use zeroraft.Store.{State}
use zeroraft.Rpc.{PeerRpc, ClientRequest}
use zeroraft.Channels.{Mpsc, Channels, recv_in_rpc, recv_in_client_request, recv_shutdown}
use zeroraft.Role.Follower
use zeroraft.Role.Candidate.Loop
use zeroraft.Role.Leader.Loop as LeaderLoop
use zeroraft.Run.{
  Running, following, campaigning, leading, stopped, NodeEvent, to_follower, to_candidate,
  to_leader, run_step,
}

pub record Service (mpsc : Mpsc) (S R P : Type 0) : Type 0 where
  pub running : Running S R P
  pub channels : Channels mpsc R

pub data Arm : Type 0 where
  shutdown_arm rpc_arm client_arm : Arm

-- The loop takes a message and goes on; there is none to take; or the node's task ended.
pub data Poll (mpsc : Mpsc) (S R P : Type 0) : Type 0 where
  served : Service mpsc S R P → Poll mpsc S R P
  waits : Poll mpsc S R P
  ended : Poll mpsc S R P

module _ {S R P : Type 0} where
  shutdown_event : Running S R P → NodeEvent R
  shutdown_event (following _) = to_follower Follower.shutdown_signal
  shutdown_event (campaigning _) = to_candidate Loop.shutdown_signal
  shutdown_event (leading _) = to_leader LeaderLoop.shutdown_signal
  shutdown_event (stopped _) = to_follower Follower.shutdown_signal

  rpc_event : PeerRpc R → Running S R P → NodeEvent R
  rpc_event q (following _) = to_follower (Follower.in_rpc q)
  rpc_event q (campaigning _) = to_candidate (Loop.in_rpc q)
  rpc_event q (leading _) = to_leader (LeaderLoop.in_rpc q)
  rpc_event q (stopped _) = to_follower (Follower.in_rpc q)

  client_event : ClientRequest R → Running S R P → NodeEvent R
  client_event q (following _) = to_follower (Follower.in_client_request q)
  client_event q (campaigning _) = to_candidate (Loop.in_client_request q)
  client_event q (leading _) = to_leader (LeaderLoop.in_client_request q)
  client_event q (stopped _) = to_follower (Follower.in_client_request q)

  module _ (mpsc : Mpsc) (st : State S R) (gen_range : ℕ → ℕ → ℕ) where
    unfoldable pub step_on : Option (Running S R P) → Channels mpsc R → Poll mpsc S R P
    step_on none c = ended
    step_on (some r) c = served (record { running = r; channels = c })

    on_shutdown : Running S R P → Option (Channels mpsc R) → Poll mpsc S R P
    unfolding step_on run_step shutdown_event
    on_shutdown r none = waits
    on_shutdown r (some c) = step_on (run_step st gen_range (shutdown_event r) r) c

    on_rpc_arm : Running S R P → Option (PeerRpc R × Channels mpsc R) → Poll mpsc S R P
    unfolding step_on run_step rpc_event
    on_rpc_arm r none = waits
    on_rpc_arm r (some (q, c)) = step_on (run_step st gen_range (rpc_event q r) r) c

    on_client_arm : Running S R P → Option (ClientRequest R × Channels mpsc R) → Poll mpsc S R P
    unfolding step_on run_step client_event
    on_client_arm r none = waits
    on_client_arm r (some (q, c)) = step_on (run_step st gen_range (client_event q r) r) c

    -- The arm that `select!` picks; a node whose loop is over takes nothing.
    unfoldable pub poll : Arm → Running S R P → Channels mpsc R → Poll mpsc S R P
    unfolding on_shutdown on_rpc_arm on_client_arm recv_shutdown recv_in_rpc recv_in_client_request
    poll arm (stopped w) c = ended
    poll shutdown_arm r c = on_shutdown r (recv_shutdown mpsc c)
    poll rpc_arm r c = on_rpc_arm r (recv_in_rpc mpsc c)
    poll client_arm r c = on_client_arm r (recv_in_client_request mpsc c)
