-- ===== src/Role/Leader/CatchUp.antt =====
-- How a leader brings one follower up to date: the task of the peer (`Standby`), the follower's handler
-- and the task that takes in the responses (`start_standby_update`), when each response is taken in
-- before the next round of the peer's task.
pub mod Exchanges
pub mod Convergence
use zeroraft.Base.{
  Bool, List, [], ◌∷◌, Option, none, some, Out, ok, err, panic, blocked, true, false, after,
  if◌then◌else◌,
}
use zeroraft.Store.{State, NodeId}
use zeroraft.Rpc.{AppendEntriesRequest, AppendEntriesResponse, Output, append_reply}
use zeroraft.Node.{World}
use zeroraft.Role.Common.{respond_to_append_entries}
use zeroraft.Role.Candidate.{Flow, next, stop}
use zeroraft.Role.Leader.{Lead, peer_matches, compose_append_entries_request, on_standby_response}

-- The follower accepted, and the leader reacted as it may; the follower did not, and the leader goes on;
-- the peer's task found that the peer's match index is the commit index, and sent nothing; or
-- something failed on the way.
pub data Exchange (S R P : Type 0) : Type 0 where
  taken : Lead S R P → World S R P → Exchange S R P
  refused : Lead S R P → World S R P → Exchange S R P
  matched : Exchange S R P
  broken : Exchange S R P

-- How the peer's task ends: with a follower that accepted, without anything left to send, by the stop
-- signal, by a failure, or not yet.
pub data Ending (S R P : Type 0) : Type 0 where
  accepted : Lead S R P → World S R P → Ending S R P
  done : Ending S R P
  signaled : Ending S R P
  failed : Ending S R P
  unfinished : Ending S R P

module _ {S R P : Type 0} (st : State S R) where
  -- The response that the follower sent last.
  unfoldable pub newest_reply : List (Output R P) → Option AppendEntriesResponse
  newest_reply (append_reply r ∷ _) = some r
  newest_reply _ = none

  unfoldable pub react : Lead S R P → World S R P → Out (Lead S R P) Flow → Exchange S R P
  react l w (ok next l') = refused l' w
  react l w _ = broken

  unfoldable pub on_reply : Lead S R P → World S R P → Option AppendEntriesResponse → Exchange S R P
  unfolding react on_standby_response
  on_reply l w none = broken
  on_reply l w (some r) = elim r.success [
    | true ↦ taken (after (on_standby_response st r l)) w
    | false ↦ react l w (on_standby_response st r l)
  ]

  unfoldable pub on_delivery : Lead S R P → Out (World S R P) (Unit {0}) → Exchange S R P
  unfolding on_reply newest_reply
  on_delivery l (ok _ w) = on_reply l w (newest_reply w.sent)
  on_delivery l _ = broken

  unfoldable pub on_request :
      World S R P → Out (Lead S R P) (AppendEntriesRequest R) → Exchange S R P
  unfolding on_delivery respond_to_append_entries
  on_request w (ok request l) =
      on_delivery l (respond_to_append_entries st request (record { live = true }) w)
  on_request w _ = broken

  unfoldable pub unless_matched : NodeId → World S R P → Out (Lead S R P) Bool → Exchange S R P
  unfolding on_request compose_append_entries_request
  unless_matched peer w (ok true l) = matched
  unless_matched peer w (ok false l) = on_request w (compose_append_entries_request st peer l)
  unless_matched peer w _ = broken

  -- A round of the peer's task: the check of the match index, one request to the follower `w`, its
  -- response, and what the leader makes of it.
  unfoldable pub exchange : NodeId → Lead S R P → World S R P → Exchange S R P
  unfolding unless_matched peer_matches
  exchange peer l w = unless_matched peer w (peer_matches st peer l)

  -- Rounds until one ends the task or the follower accepts. There is a round for each element of the
  -- list, which tells whether the stop signal comes in the millisecond after it.
  unfoldable pub catch_up : List Bool → NodeId → Lead S R P → World S R P → Ending S R P
  unfolding exchange
  catch_up [] peer l w = unfinished
  catch_up (signal ∷ signals) peer l w = elim (exchange peer l w) [
    | taken l' w' ↦ accepted l' w'
    | refused l' w' ↦ let rest = catch_up signals peer l' w' in if signal then signaled else rest
    | matched ↦ done
    | broken ↦ failed
  ]
