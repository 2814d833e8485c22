-- ===== src/Role/Candidate/Loop.antt =====
-- zeroraft/src/role/role_candidate.rs: the loop of `CandidateRole::start`, an event at a time.
use zeroraft.Base.{
  ℕ, List, [], ◌∷◌, Option, none, some, Action, ok, err, panic, blocked, ◌>>=◌, ◌>>◌, gets,
}
use zeroraft.Store.{State}
use zeroraft.Rpc.{PeerRpc, ClientRequest}
use zeroraft.Node.{
  new_election_timeout, get_heartbeat_interval, World, change_to_shutdown_state,
  change_to_leader_state,
}
use zeroraft.Timeout.{Timeout, start, start_range, reset, get_remaining}
use zeroraft.Role.Rpc.{on_rpc, redirect}
use zeroraft.Role.Candidate.{VoteResult, Election, initialize, on_world, set_session}

pub record Campaign (S R P : Type 0) : Type 0 where
  pub election : Election S R P
  pub open election use *
  pub election_timeout : Timeout
  pub retry_timeout : Timeout

pub data Event (R : Type 0) : Type 0 where
  shutdown_signal : Event R
  vote_result : Event R
  in_rpc : PeerRpc R → Event R
  in_client_request : ClientRequest R → Event R
  retry_elapsed : Event R
  election_elapsed : Event R

module _ {S R P : Type 0} (st : State S R) (gen_range : ℕ → ℕ → ℕ) where
  on_node : Action (World S R P) (Unit {0}) → Action (Campaign S R P) (Unit {0})
  unfolding on_world
  on_node m c = elim (on_world m c.election) [
    | ok a e ↦ ok a (record c { election = e })
    | err x e ↦ err x (record c { election = e })
    | panic e ↦ panic (record c { election = e })
    | blocked e ↦ blocked (record c { election = e })
  ]

  set_retry : Option Timeout → Action (Campaign S R P) (Unit {0})
  set_retry none c = panic c
  set_retry (some t) c = ok tt (record c { retry_timeout = t })

  reset_retry : Action (Campaign S R P) (Unit {0})
  unfolding reset set_retry
  reset_retry c = set_retry (reset gen_range c.now c.retry_timeout) c

  set_election : Option Timeout → Action (Campaign S R P) (Unit {0})
  set_election none c = panic c
  set_election (some t) c = ok tt (record c { election_timeout = t })

  reset_election : Action (Campaign S R P) (Unit {0})
  unfolding reset set_election
  reset_election c = set_election (reset gen_range c.now c.election_timeout) c

  -- A new session; the receiver of the old one is dropped.
  restart : Action (Campaign S R P) (Unit {0})
  unfolding initialize
  restart c = elim (initialize c.world) [
    | ok s w ↦ ok tt (record c { election = record { world = w; session = s } })
    | err x w ↦ err x c
    | panic w ↦ panic c
    | blocked w ↦ blocked c
  ]

  -- `session.request_votes(retry, election)` reads both timers, then spawns the task, which is a
  -- step of its own (`request_votes`).
  spawn_request_votes : Action (Campaign S R P) (Unit {0})
  unfolding get_remaining
  spawn_request_votes c = elim (get_remaining c.now c.retry_timeout) [
    | none ↦ panic c
    | some _ ↦ elim (get_remaining c.now c.election_timeout) [ none ↦ panic c | some _ ↦ ok tt c ]
  ]

  -- Takes the message of the vote session, on which the arm waits; both kinds make a leader.
  take_result : List VoteResult → Action (Campaign S R P) (Unit {0})
  unfolding on_node change_to_leader_state
  take_result [] c = blocked c
  take_result (r ∷ rs) c =
      on_node change_to_leader_state
        (record c { election = set_session (λ s. record s { results = rs }) c.election })

  -- One arm of the `select!`; the guard of the loop is `TaskState.candidate`.
  unfoldable pub candidate_step : Event R → Action (Campaign S R P) (Unit {0})
  unfolding on_node take_result reset_retry reset_election restart spawn_request_votes
      change_to_shutdown_state
  candidate_step shutdown_signal = on_node change_to_shutdown_state
  candidate_step vote_result = do results ← gets (λ c. c.results); take_result results
  candidate_step (in_rpc request) = on_node (on_rpc st request)
  candidate_step (in_client_request request) = on_node (redirect request)
  candidate_step retry_elapsed = do reset_retry; spawn_request_votes
  candidate_step election_elapsed = do reset_election; reset_retry; restart; spawn_request_votes

  -- Before it waits, each round of the loop reads how long both timers still have to run, and the arm
  -- that it then takes runs at the time `later`.
  unfoldable pub candidate_round : ℕ → Event R → Action (Campaign S R P) (Unit {0})
  unfolding candidate_step get_remaining
  candidate_round later event c = elim (get_remaining c.now c.retry_timeout) [
    | none ↦ panic c
    | some _ ↦ elim (get_remaining c.now c.election_timeout) [
      | none ↦ panic c
      | some _ ↦ candidate_step event (record c {
        election = record c.election { world = record c.election.world { now = later } };
      })
    ]
  ]

  -- What `start` does before its loop; `none` is a panic.
  unfoldable pub start_campaign : World S R P → Option (Campaign S R P)
  unfolding start_range start initialize spawn_request_votes
  start_campaign w = elim (new_election_timeout gen_range w) [
    | none ↦ none
    | some t ↦ elim (initialize w) [
      | ok s w' ↦
          elim (spawn_request_votes (record {
            election = record { world = w'; session = s };
            election_timeout = t;
            retry_timeout = start w.now (get_heartbeat_interval w);
          })) [ ok _ c ↦ some c | err _ c ↦ none | panic c ↦ none | blocked c ↦ none ]
      | err _ w' ↦ none
      | panic w' ↦ none
      | blocked w' ↦ none
    ]
  ]
