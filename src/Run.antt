-- ===== src/Run.antt =====
-- `RaftNode::start` of zeroraft/src/node.rs: the node runs the loop of its current role until the
-- role changes. `none` is the end of the node's task by an error, a panic or a wait. The clock
-- stands still between events, and the tasks of a leader that steps down, if any are left, are not
-- followed further: what a loop does at a later time is in the modules of the roles.
pub mod Roles
pub mod Transitions
use zeroraft.Base.{List, [], ◌∷◌, ℕ, Option, none, some, Out, ok, err, panic, blocked}
use zeroraft.Store.{State}
use zeroraft.Node.{
  get_current_state, World, TaskState, follower, candidate, leader, non_voter, shutdown,
}
use zeroraft.Role.Follower
use zeroraft.Role.Follower.{Following, follower_step, start_following}
use zeroraft.Role.Candidate.Loop
use zeroraft.Role.Candidate.Loop.{Campaign, candidate_step, start_campaign}
use zeroraft.Role.Leader.Loop as LeaderLoop
use zeroraft.Role.Leader.Loop.{Leadership, leader_step, stop_leading, start_leading, spawn_standby}

pub data Running (S R P : Type 0) : Type 0 where
  following : Following S R P → Running S R P
  campaigning : Campaign S R P → Running S R P
  leading : Leadership S R P → Running S R P
  stopped : World S R P → Running S R P

-- An event for the loop of a role, or the turn of a leader's task that looks for stale peers.
pub data NodeEvent (R : Type 0) : Type 0 where
  to_follower : Follower.Event R → NodeEvent R
  to_candidate : Loop.Event R → NodeEvent R
  to_leader : LeaderLoop.Event R → NodeEvent R
  standby_starts : NodeEvent R

-- What follows an arm that ended with `Ok`.
abbrev pub proceed {ℓ κ} : {W : Type ℓ} {B : Type κ} → Out W (Unit {0}) → (W → Option B) → Option B
proceed (ok _ w) k = k w
proceed (err _ w) k = none
proceed (panic w) k = none
proceed (blocked w) k = none

module _ {S R P : Type 0} where
  abbrev pub world_of : Running S R P → World S R P
  world_of (following f) = f.world
  world_of (campaigning c) = c.world
  world_of (leading l) = l.world
  world_of (stopped w) = w

  module _ (st : State S R) (gen_range : ℕ → ℕ → ℕ) where
    follow : Option (Following S R P) → Option (Running S R P)
    follow none = none
    follow (some f) = some (following f)

    stand : Option (Campaign S R P) → Option (Running S R P)
    stand none = none
    stand (some c) = some (campaigning c)

    lead : Option (Leadership S R P) → Option (Running S R P)
    lead none = none
    lead (some l) = some (leading l)

    unfoldable pub enter_role : TaskState → World S R P → Option (Running S R P)
    unfolding follow stand lead start_following start_campaign
    enter_role follower w = follow (start_following st gen_range w)
    enter_role candidate w = stand (start_campaign st gen_range w)
    enter_role leader w = lead (start_leading st gen_range w)
    enter_role non_voter w = none
    enter_role shutdown w = some (stopped w)

    unfoldable pub enter : World S R P → Option (Running S R P)
    unfolding enter_role
    enter w = enter_role (get_current_state w) w

    unfoldable pub after_following : TaskState → Following S R P → Option (Running S R P)
    unfolding enter
    after_following follower f = some (following f)
    after_following _ f = enter f.world

    unfoldable pub after_campaigning : TaskState → Campaign S R P → Option (Running S R P)
    unfolding enter
    after_campaigning candidate c = some (campaigning c)
    after_campaigning _ c = enter c.world

    unfoldable pub after_leading : TaskState → Leadership S R P → Option (Running S R P)
    unfolding enter stop_leading
    after_leading leader l = some (leading l)
    after_leading _ l = enter (stop_leading l).world

    -- One event for the loop that runs, and the next turn of the loop of `start` if the role changed.
    -- An event for another loop waits.
    unfoldable pub run_step : NodeEvent R → Running S R P → Option (Running S R P)
    unfolding after_following after_campaigning after_leading spawn_standby
    run_step (to_follower event) (following f) =
        proceed (follower_step st gen_range event f) (λ f'. after_following f'.current_state f')
    run_step (to_candidate event) (campaigning c) =
        proceed (candidate_step st gen_range event c) (λ c'. after_campaigning c'.current_state c')
    run_step (to_leader event) (leading l) =
        proceed (leader_step st gen_range event l) (λ l'. after_leading l'.current_state l')
    run_step standby_starts (leading l) = some (leading (spawn_standby st gen_range l))
    run_step _ r = some r

    then_run :
        Option (Running S R P) → (Running S R P → Option (Running S R P)) → Option (Running S R P)
    then_run none k = none
    then_run (some r) k = k r

    -- The events in their order, as long as the node's task goes on.
    unfoldable pub run : List (NodeEvent R) → Running S R P → Option (Running S R P)
    unfolding then_run run_step
    run [] r = some r
    run (e ∷ es) r = then_run (run_step e r) (run es)
