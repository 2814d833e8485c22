-- ===== src/Role/Leader/Loop.antt =====
-- zeroraft/src/role/role_leader.rs: the loop of `LeaderRole::start`, an event at a time.
use zeroraft.Base.{
  arith, ◌≡◌, ℕ, List, [], ◌∷◌, Option, none, some, Action, ok, err, panic, blocked, ◌>>=◌, ◌>>◌,
  gets,
}
use zeroraft.Store.{State, NodeId, client_request}
use zeroraft.Rpc.{PeerRpc, ClientRequest}
use zeroraft.Node.{
  get_current_term, get_heartbeat_interval, World, on_state, change_to_shutdown_state,
}
use zeroraft.Timeout.{Timeout, start, reset, get_remaining}
use zeroraft.Role.Rpc.{on_rpc}
use zeroraft.Role.Leader.Standby.{Phase, notify_waiters, start_standby_update_for_peers}
use zeroraft.Role.Leader.{Lead, initialize, send_heartbeat_to_peers}

-- `standby` has the tasks that bring stale peers up to date, `none` as long as the task that looks for
-- stale peers has not had its turn.
pub record Leadership (S R P : Type 0) : Type 0 where
  pub lead : Lead S R P
  pub open lead use *
  pub heartbeat_timeout : Timeout
  pub standby : Option (List (NodeId × Phase))

pub data Event (R : Type 0) : Type 0 where
  shutdown_signal : Event R
  in_rpc : PeerRpc R → Event R
  in_client_request : ClientRequest R → Event R
  heartbeat_elapsed : Event R

module _ {S R P : Type 0} (st : State S R) where
  -- The client's sender is dropped: no response is ever sent to it.
  unfoldable pub append_client_request : ClientRequest R → Action (World S R P) (Unit {0})
  unfolding on_state
  append_client_request request = do
    term ← gets get_current_term
    on_state
        (st.append_entries (record { term = term; command = client_request request.request } ∷ []))

-- What `start` does when the node is no leader any more.
unfoldable pub stop_leading : {S R P : Type 0} → Leadership S R P → Leadership S R P
unfolding notify_waiters
stop_leading c = record c {
  standby = elim c.standby [ none ↦ none | some tasks ↦ some (notify_waiters tasks) ];
}

module _ {S R P : Type 0} (st : State S R) (gen_range : ℕ → ℕ → ℕ) where
  on_lead : Action (Lead S R P) (Unit {0}) → Action (Leadership S R P) (Unit {0})
  on_lead m c = elim (m c.lead) [
    | ok a l ↦ ok a (record c { lead = l })
    | err x l ↦ err x (record c { lead = l })
    | panic l ↦ panic (record c { lead = l })
    | blocked l ↦ blocked (record c { lead = l })
  ]

  on_node : Action (World S R P) (Unit {0}) → Action (Leadership S R P) (Unit {0})
  unfolding on_lead
  on_node m = on_lead λ l. elim (m l.world) [
    | ok a w ↦ ok a (record l { world = w })
    | err x w ↦ err x (record l { world = w })
    | panic w ↦ panic (record l { world = w })
    | blocked w ↦ blocked (record l { world = w })
  ]

  set_heartbeat : Option Timeout → Action (Leadership S R P) (Unit {0})
  set_heartbeat none c = panic c
  set_heartbeat (some t) c = ok tt (record c { heartbeat_timeout = t })

  reset_heartbeat : Action (Leadership S R P) (Unit {0})
  unfolding reset set_heartbeat
  reset_heartbeat c = set_heartbeat (reset gen_range c.now c.heartbeat_timeout) c

  -- The task that `send_heartbeats` spawns is run up to its first wait; if it has to wait for the
  -- guard of the peers, it is left waiting, and the loop goes on.
  spawn_heartbeats : Action (Leadership S R P) (Unit {0})
  unfolding get_remaining
  spawn_heartbeats c = elim (get_remaining c.now c.heartbeat_timeout) [
    | none ↦ panic c
    | some _ ↦ elim (send_heartbeat_to_peers st c.lead) [
      | ok _ l ↦ ok tt (record c { lead = l })
      | err _ l ↦ ok tt (record c { lead = l })
      | panic l ↦ ok tt (record c { lead = l })
      | blocked l ↦ ok tt (record c { lead = l })
    ]
  ]

  -- One arm of the `select!`; the guard of the loop is `TaskState.leader`.
  unfoldable pub leader_step : Event R → Action (Leadership S R P) (Unit {0})
  unfolding on_node append_client_request reset_heartbeat spawn_heartbeats change_to_shutdown_state
  leader_step shutdown_signal = on_node change_to_shutdown_state
  leader_step (in_rpc request) = on_node (on_rpc st request)
  leader_step (in_client_request request) = on_node (append_client_request st request)
  leader_step heartbeat_elapsed = do reset_heartbeat; spawn_heartbeats

  -- Before it waits, each round of the loop reads how long the timer still has to run, and the arm that
  -- it then takes runs at the time `later`.
  unfoldable pub leader_round : ℕ → Event R → Action (Leadership S R P) (Unit {0})
  unfolding leader_step get_remaining
  leader_round later event c = elim (get_remaining c.now c.heartbeat_timeout) [
    | none ↦ panic c
    | some _ ↦
        leader_step event
          (record c { lead = record c.lead { world = record c.lead.world { now = later } } })
  ]

  -- The task that `start_standby_update` spawns, when it gets its turn, which may be at any time after
  -- the loop was entered: it spawns the tasks for the peers that are stale then. It waits as long as
  -- another task holds the guard of the peers.
  unfoldable pub spawn_standby : Leadership S R P → Leadership S R P
  unfolding start_standby_update_for_peers
  spawn_standby c = elim c.standby [
    | some _ ↦ c
    | none ↦ elim (start_standby_update_for_peers st c.lead) [
      | ok tasks l ↦ record c { lead = l; standby = some tasks }
      | err _ l ↦ record c { lead = l; standby = some [] }
      | panic l ↦ record c { lead = l; standby = some [] }
      | blocked l ↦ record c { lead = l }
    ]
  ]

  -- What `start` does before its loop, up to `send_heartbeats`; `none` is a panic.
  unfoldable pub announce : World S R P → Option (Leadership S R P)
  unfolding initialize start spawn_heartbeats
  announce w = elim (initialize st w) [
    | none ↦ none
    | some l ↦
        elim (spawn_heartbeats (record {
          lead = l;
          heartbeat_timeout = start w.now (get_heartbeat_interval w);
          standby = none;
        })) [ ok _ c ↦ some c | err _ c ↦ none | panic c ↦ none | blocked c ↦ none ]
  ]

  pub spawn_standby-world : (c : Leadership S R P) → (spawn_standby c).world ≡ c.world
  unfolding spawn_standby
  spawn_standby-world c = ground arith

  -- All that `start` does before its loop; the task of `start_standby_update` has not run yet.
  unfoldable pub start_leading : World S R P → Option (Leadership S R P)
  unfolding announce
  start_leading w = announce w
