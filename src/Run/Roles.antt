-- ===== src/Run/Roles.antt =====
-- What one event makes of the role of a running node.
use zeroraft.Base.{ℕ, ◌≡◌, refl, ◌⊎◌, inl, ok, after, arith}
use zeroraft.Store.{State}
use zeroraft.Rpc.{PeerRpc, append_entries, request_vote, ClientRequest}
use zeroraft.Node.{World, TaskState, follower, candidate, leader, non_voter, shutdown}
use zeroraft.Role.Rpc.{on_rpc, redirect}
use zeroraft.Role.Follower
use zeroraft.Role.Follower.{Following, follower_step, start_following}
use zeroraft.Role.Candidate.Loop
use zeroraft.Role.Candidate.Loop.{Campaign, candidate_step, start_campaign}
use zeroraft.Role.Leader.Loop as LeaderLoop
use zeroraft.Role.Leader.Loop.{
  Leadership, leader_step, start_leading, announce, spawn_standby-world,
}
use zeroraft.Role.Leader.Heartbeat.{send_heartbeat_to_peers-node}

-- The roles that may come after a role, when one event is handled.
abbrev pub MayBecome : TaskState → TaskState → Type 0
MayBecome follower s = (s ≡ follower) ⊎ ((s ≡ candidate) ⊎ (s ≡ shutdown))
MayBecome candidate s = (s ≡ follower) ⊎ ((s ≡ candidate) ⊎ ((s ≡ leader) ⊎ (s ≡ shutdown)))
MayBecome leader s = (s ≡ follower) ⊎ ((s ≡ leader) ⊎ (s ≡ shutdown))
MayBecome non_voter s = ⊥
MayBecome shutdown s = s ≡ shutdown

module _ {S R P : Type 0} (st : State S R) where
  -- An RPC that is answered leaves the role as it was or makes a follower.
  on_rpc-role :
      (request : PeerRpc R) (w : World S R P)
      → ((after (on_rpc st request w)).current_state ≡ w.current_state)
        ⊎ ((after (on_rpc st request w)).current_state ≡ follower)
  unfolding on_rpc
  on_rpc-role (append_entries q tx) w = ground arith
  on_rpc-role (request_vote q tx) w = ground arith
  on_rpc-role _ w = inl refl

  redirect-role :
      (request : ClientRequest R) (w : World S R P)
      → (after (redirect {S = S} request w)).current_state ≡ w.current_state
  unfolding redirect
  redirect-role request w = ground arith

  module _ (gen_range : ℕ → ℕ → ℕ) where
    pub follower_step-role :
        (event : Follower.Event R) (f f' : Following S R P)
        → f.current_state ≡ follower
        → follower_step st gen_range event f ≡ ok tt f'
        → MayBecome follower f'.current_state
    unfolding follower_step
    follower_step-role Follower.shutdown_signal f f' h e = ground arith
    follower_step-role (Follower.in_rpc q) f f' h e = ground (arith, on_rpc-role q f.world)
    follower_step-role (Follower.in_client_request q) f f' h e =
        ground (arith, redirect-role q f.world)
    follower_step-role Follower.election_elapsed f f' h e = ground arith

    pub candidate_step-role :
        (event : Loop.Event R) (c c' : Campaign S R P)
        → c.current_state ≡ candidate
        → candidate_step st gen_range event c ≡ ok tt c'
        → MayBecome candidate c'.current_state
    unfolding candidate_step
    candidate_step-role Loop.shutdown_signal c c' h e = ground arith
    candidate_step-role Loop.vote_result c c' h e = ground arith
    candidate_step-role (Loop.in_rpc q) c c' h e = ground (arith, on_rpc-role q c.world)
    candidate_step-role (Loop.in_client_request q) c c' h e =
        ground (arith, redirect-role q c.world)
    candidate_step-role Loop.retry_elapsed c c' h e = ground arith
    candidate_step-role Loop.election_elapsed c c' h e = ground arith

    pub leader_step-role :
        (event : LeaderLoop.Event R) (l l' : Leadership S R P)
        → l.current_state ≡ leader
        → leader_step st gen_range event l ≡ ok tt l'
        → MayBecome leader l'.current_state
    unfolding leader_step
    leader_step-role LeaderLoop.shutdown_signal l l' h e = ground arith
    leader_step-role (LeaderLoop.in_rpc q) l l' h e = ground (arith, on_rpc-role q l.world)
    leader_step-role (LeaderLoop.in_client_request q) l l' h e = ground arith
    leader_step-role LeaderLoop.heartbeat_elapsed l l' h e =
        ground (arith, send_heartbeat_to_peers-node st l.lead)
