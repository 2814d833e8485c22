-- ===== src/Handlers.antt =====
-- Every handler of the tasks of one node, as a step on what they share: how each may end, with an error
-- or a panic too, leaves a world from which the others go on.
pub mod Bounds
use zeroraft.Base.{ℕ, ◌≡◌, after}
use zeroraft.Store.{State}
use zeroraft.Rpc.{PeerRpc, ClientRequest, RequestVoteResponse, AppendEntriesResponse}
use zeroraft.Node.{World, TaskState, change_state}
use zeroraft.Role.Rpc.{on_rpc, redirect}
use zeroraft.Role.Candidate.{Election, initialize, on_vote_response}
use zeroraft.Role.Leader.{Lead, on_heartbeat_response, on_standby_response}
use zeroraft.Role.Leader.Loop.{append_client_request}

module _ {S R P : Type 0} (st : State S R) where
  -- One handler leads from the one world to the other.
  pub data Handled (w v : World S R P) : Type 0 where
    rpc : (q : PeerRpc R) → v ≡ after (on_rpc st q w) → Handled w v
    redirected : (q : ClientRequest R) → v ≡ after (redirect q w) → Handled w v
    appended : (q : ClientRequest R) → v ≡ after (append_client_request st q w) → Handled w v
    campaigned : v ≡ after (initialize w) → Handled w v
    turned : (s : TaskState) → v ≡ after (change_state s w) → Handled w v
    vote_response :
        (n : ℕ) (r : RequestVoteResponse) (e : Election S R P)
        → e.world ≡ w
        → v ≡ (after (on_vote_response st n r e)).world
        → Handled w v
    heartbeat_response :
        (r : AppendEntriesResponse) (l : Lead S R P)
        → l.world ≡ w
        → v ≡ (after (on_heartbeat_response st r l)).world
        → Handled w v
    entries_response :
        (r : AppendEntriesResponse) (l : Lead S R P)
        → l.world ≡ w
        → v ≡ (after (on_standby_response st r l)).world
        → Handled w v

  -- Handlers, in any order and any number.
  pub data Reach (w : World S R P) : World S R P → Type 0 where
    here : Reach w w
    next : {u v : World S R P} → Reach w u → Handled u v → Reach w v
