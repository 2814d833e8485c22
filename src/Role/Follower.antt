-- ===== src/Role/Follower.antt =====
-- zeroraft/src/role/role_follower.rs: the loop of a follower, an event at a time.
pub mod Late
use zeroraft.Base.{ℕ, Option, none, some, Action, ok, err, panic, blocked, ◌>>◌}
use zeroraft.Store.{State}
use zeroraft.Rpc.{PeerRpc, ClientRequest}
use zeroraft.Node.{new_election_timeout, World, change_to_shutdown_state, change_to_candidate_state}
use zeroraft.Timeout.{Timeout, start_range, reset, get_remaining}
use zeroraft.Role.Rpc.{on_rpc, redirect}

pub record Following (S R P : Type 0) : Type 0 where
  pub world : World S R P
  pub open world use *
  pub election_timeout : Timeout

-- What `select!` can receive.
pub data Event (R : Type 0) : Type 0 where
  shutdown_signal : Event R
  in_rpc : PeerRpc R → Event R
  in_client_request : ClientRequest R → Event R
  election_elapsed : Event R

module _ {S R P : Type 0} (st : State S R) (gen_range : ℕ → ℕ → ℕ) where
  unfoldable pub on_world {ℓ} : {A : Type ℓ} → Action (World S R P) A → Action (Following S R P) A
  on_world m f = elim (m f.world) [
    | ok a w ↦ ok a (record f { world = w })
    | err x w ↦ err x (record f { world = w })
    | panic w ↦ panic (record f { world = w })
    | blocked w ↦ blocked (record f { world = w })
  ]

  set_timeout : Option Timeout → Action (Following S R P) (Unit {0})
  set_timeout none f = panic f
  set_timeout (some t) f = ok tt (record f { election_timeout = t })

  reset_election : Action (Following S R P) (Unit {0})
  unfolding reset set_timeout
  reset_election f = set_timeout (reset gen_range f.now f.election_timeout) f

  -- One arm of the `select!`; the guard of the loop is `TaskState.follower`.
  unfoldable pub follower_step : Event R → Action (Following S R P) (Unit {0})
  unfolding on_world reset_election change_to_shutdown_state change_to_candidate_state
  follower_step shutdown_signal = on_world change_to_shutdown_state
  follower_step (in_rpc request) = do on_world (on_rpc st request); reset_election
  follower_step (in_client_request request) = on_world (redirect request)
  follower_step election_elapsed = on_world change_to_candidate_state

  -- Before it waits, each round of the loop reads how long the timer still has to run, and the arm
  -- that it then takes runs at the time `later`.
  unfoldable pub follower_round : ℕ → Event R → Action (Following S R P) (Unit {0})
  unfolding follower_step get_remaining
  follower_round later event f = elim (get_remaining f.now f.election_timeout) [
    | none ↦ panic f
    | some _ ↦ follower_step event (record f { world = record f.world { now = later } })
  ]

  -- The state in which the loop begins.
  unfoldable pub start_following : World S R P → Option (Following S R P)
  unfolding start_range
  start_following w = elim (new_election_timeout gen_range w) [
    | none ↦ none
    | some t ↦ some (record { world = w; election_timeout = t })
  ]
