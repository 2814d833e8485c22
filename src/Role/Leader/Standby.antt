-- ===== src/Role/Leader/Standby.antt =====
-- `start_standby_update_for_peers` of zeroraft/src/role/role_leader.rs: the tasks that bring stale peers
-- up to date. A task is where it waits; between two waits it runs as one step, and the other tasks
-- run while it waits.
pub mod First
pub mod Deposed
use zeroraft.Base.{
  Bool, true, false, List, [], ◌∷◌, Action, ◌>>=◌, ◌>>◌, return, ok, err, panic, blocked, fail,
}
use zeroraft.Error.{from}
use zeroraft.Store.{State, NodeId}
use zeroraft.Node.{send_append_entries_rpc}
use zeroraft.Role.Candidate.{Flow, next, stop}
use zeroraft.Role.Leader.{
  Lead, on_world, peer_matches, compose_append_entries_request, get_stale_peers,
}

-- At the head of the loop; in `send_append_entries_rpc`, for the response; in `timeout(1 ms,
-- stop_signal.notified())`; at its end.
pub data Phase : Type 0 where
  awake awaiting_response awaiting_signal over : Phase

-- `collecting` is whether the loop of `start_standby_update` still takes responses.
pub data TaskEvent : Type 0 where
  resumed : TaskEvent
  response_arrived : Bool → TaskEvent
  millisecond_elapsed : TaskEvent
  notified : TaskEvent

-- `stop_signal.notify_waiters()` for one task: it wakes those that wait for the signal right then.
unfoldable pub notify_waiter : Phase → Phase
notify_waiter awaiting_signal = over
notify_waiter p = p

unfoldable pub notify_waiters : List (NodeId × Phase) → List (NodeId × Phase)
unfolding notify_waiter
notify_waiters [] = []
notify_waiters ((peer, p) ∷ tasks) = (peer, notify_waiter p) ∷ notify_waiters tasks

unfoldable pub spawned : List NodeId → List (NodeId × Phase)
spawned [] = []
spawned (peer ∷ peers) = (peer, awake) ∷ spawned peers

module _ {S R P : Type 0} (st : State S R) where
  send_entries : NodeId → Action (Lead S R P) (Unit {0})
  unfolding on_world send_append_entries_rpc compose_append_entries_request
  send_entries peer = do
    request ← compose_append_entries_request st peer
    on_world (send_append_entries_rpc request peer)

  send_then {ℓ} : {A : Type ℓ} → NodeId → A → A → Action (Lead S R P) A
  unfolding peer_matches send_entries
  send_then peer done sent = do
    matched ← peer_matches st peer
    elim matched [ true ↦ return done | false ↦ (do send_entries peer; return sent) ]

  -- What a task does next, if what happens is what it waits for.
  unfoldable pub task_step : NodeId → TaskEvent → Phase → Action (Lead S R P) Phase
  unfolding send_then notify_waiter
  task_step peer resumed awake = send_then peer over awaiting_response
  task_step peer (response_arrived true) awaiting_response = return awaiting_signal
  task_step peer (response_arrived false) awaiting_response = fail (from "channel closed")
  task_step peer millisecond_elapsed awaiting_signal = return awake
  task_step peer notified p = return (notify_waiter p)
  task_step peer _ p = return p

  unfoldable pub run_task : NodeId → List TaskEvent → Phase → Action (Lead S R P) Phase
  unfolding task_step
  run_task peer [] p l = ok p l
  run_task peer (e ∷ es) p l = elim (task_step peer e p l) [
    | ok p' l' ↦ run_task peer es p' l'
    | err x l' ↦ err x l'
    | panic l' ↦ panic l'
    | blocked l' ↦ blocked l'
  ]

  -- A whole round; `signaled` is whether the stop signal comes within a millisecond of it.
  unfoldable pub standby_round : NodeId → Bool → Action (Lead S R P) Flow
  unfolding send_then
  standby_round peer signaled = send_then peer stop (elim signaled [ true ↦ stop | false ↦ next ])

  -- The tasks that are spawned.
  unfoldable pub start_standby_update_for_peers : Action (Lead S R P) (List (NodeId × Phase))
  unfolding get_stale_peers spawned
  start_standby_update_for_peers = do stale_peers ← get_stale_peers st; return (spawned stale_peers)
