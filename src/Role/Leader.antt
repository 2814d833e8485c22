-- ===== src/Role/Leader.antt =====
-- zeroraft/src/role/role_leader.rs: the replication session of a leader. `Lead` is what the tasks
-- of a leader share. Overflow of a `u64` panics, as in a debug build.
pub mod Peers
pub mod Start
pub mod Commit
pub mod Lock
pub mod Replicate
pub mod Countdown
pub mod CatchUp
pub mod Standby
pub mod Heartbeat
pub mod Loop
use zeroraft.Base.{
  ℕ, zero, suc, ◌+◌, ◌-◌, ◌/◌, List, [], ◌∷◌, Bool, true, false, Option, none, some, Action, ok,
  err, panic, blocked, ◌>>=◌, ◌>>◌, return, gets, modify, abort, after, if◌then◌else◌, ltb, leb,
  ◌==◌, length, keys, lookup, update, get_elem?,
}
use zeroraft.Store.{NodeId, HashMap, SocketAddr, State, LogEntry}
use zeroraft.Rpc.{AppendEntriesRequest, AppendEntriesResponse, AppendEntriesResponseReason}
use zeroraft.Node.{
  get_current_term, get_id, World, u64_mod, on_state, update_current_term, change_to_follower_state,
  send_append_entries_rpc,
}
use zeroraft.Role.Candidate.{Flow, next, stop}
use Peers.{
  Progress, checked_add, checked_sub, start_peers, stale_keys, match_indices, median, matches,
  of_term,
}

-- `write_locked` says whether a task holds the write guard of the `RwLock` around `peers`.
pub record ReplicationSession : Type 0 where
  pub peers : HashMap Progress
  pub write_locked : Bool

pub record Lead (S R P : Type 0) : Type 0 where
  pub world : World S R P
  pub open world use *
  pub session : ReplicationSession
  pub open session use *

module _ {S R P : Type 0} where
  unfoldable pub on_world {ℓ} : {A : Type ℓ} → Action (World S R P) A → Action (Lead S R P) A
  on_world m l = elim (m l.world) [
    | ok a w ↦ ok a (record l { world = w })
    | err x w ↦ err x (record l { world = w })
    | panic w ↦ panic (record l { world = w })
    | blocked w ↦ blocked (record l { world = w })
  ]

  or_panic {ℓ} : {A : Type ℓ} → Option A → Action (Lead S R P) A
  or_panic none l = panic l
  or_panic (some a) l = ok a l

  abbrev pub set_lock : Bool → Lead S R P → Lead S R P
  set_lock b l = record l { session = record l.session { write_locked = b } }

  abbrev pub set_peer : NodeId → Progress → Lead S R P → Lead S R P
  set_peer id p l = record l { session = record l.session { peers = update id p l.session.peers } }

  -- `peers.read().await` waits while a task holds the write guard.
  unfoldable pub read_peers : Action (Lead S R P) (HashMap Progress)
  read_peers l = elim l.write_locked [ true ↦ blocked l | false ↦ ok l.peers l ]

  -- Runs `m` with the write guard, which is dropped when `m` is done, also by a panic.
  unfoldable pub with_write_guard {ℓ} : {A : Type ℓ} → Action (Lead S R P) A → Action (Lead S R P) A
  with_write_guard m l = elim l.write_locked [
    | true ↦ blocked l
    | false ↦ elim (m (set_lock true l)) [
      | ok a l' ↦ ok a (set_lock false l')
      | err x l' ↦ err x (set_lock false l')
      | panic l' ↦ panic (set_lock false l')
      | blocked l' ↦ blocked l'
    ]
  ]

  -- `peers.get_mut(&id).unwrap().0 -= 1`
  unfoldable pub step_back : NodeId → Action (Lead S R P) (Unit {0})
  unfolding or_panic checked_sub
  step_back id = do
    peers ← gets (λ l. l.peers)
    (next_index, match_index) ← or_panic (lookup id peers)
    lower ← or_panic (checked_sub next_index 1)
    modify (set_peer id (lower, match_index))

  -- The match index and the next index of a peer that has taken `len` entries.
  unfoldable pub advance : NodeId → ℕ → Action (Lead S R P) (Unit {0})
  unfolding or_panic checked_add checked_sub
  advance id len = do
    peers ← gets (λ l. l.peers)
    (old_next, _) ← or_panic (lookup id peers)
    next_index ← or_panic (checked_add old_next len)
    match_index ← or_panic (checked_sub next_index 1)
    modify (set_peer id (old_next, some match_index))
    raised ← or_panic (checked_add old_next next_index)
    modify (set_peer id (raised, some match_index))

  module _ (st : State S R) where
    unfoldable pub initialize : World S R P → Option (Lead S R P)
    unfolding checked_add start_peers
    initialize w = elim (checked_add (st.get_last_commit_index w.state) 1) [
      | none ↦ none
      | some next_index ↦ some (record {
        world = w;
        session = record {
          peers = start_peers (get_id w) next_index (st.get_membership w.state);
          write_locked = false;
        };
      })
    ]

    unfoldable pub heartbeat : World S R P → AppendEntriesRequest R
    heartbeat w = record {
      term = get_current_term w;
      leader_id = get_id w;
      last_commit_index = st.get_last_commit_index w.state;
      prev_log_index = 0;
      prev_log_term = 0;
      entries = [];
    }

    unfoldable pub send_each : List NodeId → Action (Lead S R P) (Unit {0})
    unfolding on_world send_append_entries_rpc heartbeat
    send_each [] l = ok tt l
    send_each (p ∷ ps) l =
        send_each ps (after (on_world (send_append_entries_rpc (heartbeat l.world) p) l))

    unfoldable pub send_heartbeat_to_peers : Action (Lead S R P) (Unit {0})
    unfolding read_peers
    send_heartbeat_to_peers = do peers ← read_peers; send_each (keys peers)

    step_down : ℕ → Action (Lead S R P) Flow
    unfolding on_world update_current_term change_to_follower_state
    step_down term = do
      on_world (update_current_term st term)
      on_world change_to_follower_state
      return stop

    heartbeat_arm : AppendEntriesResponseReason → AppendEntriesResponse → Action (Lead S R P) Flow
    unfolding step_back step_down
    heartbeat_arm AppendEntriesResponseReason.log_mismatch r = do step_back r.id; return next
    heartbeat_arm AppendEntriesResponseReason.stale_term r = step_down r.term
    heartbeat_arm AppendEntriesResponseReason.ok r = return next

    -- One response to a heartbeat, in the loop of `send_heartbeats`.
    unfoldable pub on_heartbeat_response : AppendEntriesResponse → Action (Lead S R P) Flow
    unfolding with_write_guard heartbeat_arm
    on_heartbeat_response r = with_write_guard (heartbeat_arm r.reason r)

    unfoldable pub get_stale_peers : Action (Lead S R P) (List NodeId)
    unfolding read_peers stale_keys
    get_stale_peers = do
      peers ← read_peers
      last ← gets (λ l. st.get_last_commit_index l.state)
      return (stale_keys last peers)

    unfoldable pub peer_matches : NodeId → Action (Lead S R P) Bool
    unfolding read_peers or_panic matches
    peer_matches peer = do
      peers ← read_peers
      last ← gets (λ l. st.get_last_commit_index l.state)
      (_, match_index) ← or_panic (lookup peer peers)
      return (matches match_index last)

    unfoldable pub compose_append_entries_request :
        NodeId → Action (Lead S R P) (AppendEntriesRequest R)
    unfolding read_peers or_panic checked_sub
    compose_append_entries_request peer = do
      peers ← read_peers
      (next_index, _) ← or_panic (lookup peer peers)
      prev_log_index ← or_panic (checked_sub next_index 1)
      prev ← gets (λ l. st.get_entry prev_log_index l.state)
      entry ← or_panic prev
      w ← gets (λ l. l.world)
      return (record {
        term = get_current_term w;
        leader_id = get_id w;
        last_commit_index = st.get_last_commit_index w.state;
        prev_log_index = prev_log_index;
        prev_log_term = entry.term;
        entries = st.get_entries next_index none w.state;
      })

    -- What the peers' progress lets the leader commit, when the guard of the peers is taken: see
    -- `calculate_last_commit_index`, which waits for it.
    unfoldable pub commit_candidate : HashMap Progress → World S R P → Option ℕ
    unfolding of_term
    commit_candidate peers w = elim (median (match_indices peers)) [
      | none ↦ none
      | some i ↦ of_term (get_current_term w) i (st.get_entry i w.state)
    ]

    unfoldable pub calculate_last_commit_index : Action (Lead S R P) (Option ℕ)
    unfolding read_peers commit_candidate
    calculate_last_commit_index = do peers ← read_peers; gets (λ l. commit_candidate peers l.world)

    commit : ℕ → Option ℕ → Action (Lead S R P) (Unit {0})
    unfolding on_world on_state
    commit ours none = return tt
    commit ours (some i) =
        if ltb ours i then on_world (on_state (st.set_last_commit_index i)) else return tt

    standby_arm : AppendEntriesResponseReason → AppendEntriesResponse → Action (Lead S R P) Flow
    unfolding step_back step_down advance calculate_last_commit_index commit
    standby_arm AppendEntriesResponseReason.log_mismatch r = do step_back r.id; return next
    standby_arm AppendEntriesResponseReason.stale_term r = step_down r.term
    standby_arm AppendEntriesResponseReason.ok r = do
      advance r.id r.len
      our_last_commit_index ← gets (λ l. st.get_last_commit_index l.state)
      last_commit_index ← calculate_last_commit_index
      commit our_last_commit_index last_commit_index
      return next

    -- One response to entries, in the loop of `start_standby_update`.
    unfoldable pub on_standby_response : AppendEntriesResponse → Action (Lead S R P) Flow
    unfolding with_write_guard standby_arm
    on_standby_response r = with_write_guard (standby_arm r.reason r)

  -- `while let Some(response) = append_entries_rx.recv().await`, with the responses that arrive.
  unfoldable pub collect_responses :
      (AppendEntriesResponse → Action (Lead S R P) Flow)
      → List AppendEntriesResponse
      → Action (Lead S R P) (Unit {0})
  collect_responses on_response [] l = ok tt l
  collect_responses on_response (r ∷ rs) l = elim (on_response r l) [
    | ok next l' ↦ collect_responses on_response rs l'
    | ok stop l' ↦ ok tt l'
    | err x l' ↦ err x l'
    | panic l' ↦ panic l'
    | blocked l' ↦ blocked l'
  ]
