-- ===== src/Tasks/Interleaved/Spawned.antt =====
-- The tasks of the vote and replication sessions, as what may come between two steps of the main task.
use zeroraft.Base.{
  ℕ, ◌≤◌, ◌≡◌, refl, sym, subst, Bool, Bool-cases, inl, inr, true, false, List, ok, err, panic,
  blocked, Out, Action, after, arith, ◌>>◌,
}
use zeroraft.Store.{State, NodeId}
use zeroraft.Rpc.{
  AppendEntriesRequest, AppendEntriesResponse, AppendEntriesResponseReason, RequestVoteResponse,
  RequestVoteResponseReason, Output,
}
use zeroraft.Node.{
  World, follower, send, on_state, change_state, update_current_term, change_to_follower_state,
  send_request_vote_rpc, send_append_entries_rpc,
}
use zeroraft.Role.Candidate.{Election, on_vote_response}
use zeroraft.Role.Leader.{Lead, on_heartbeat_response, on_standby_response}
use zeroraft.Safety.{Ballot}
use zeroraft.Tasks.{Task}
use zeroraft.Tasks.Interleaved.{Steps, here, ◌▸◌, meanwhile, learns, turns, writes, sends}

-- The reasons for which a candidate takes the term of the response and steps down.
abbrev pub Deposes : RequestVoteResponseReason → Type 0
Deposes RequestVoteResponseReason.stale_term = Unit
Deposes RequestVoteResponseReason.incomplete_log = Unit
Deposes _ = ⊥

module _ {S R P : Type 0} (st : State S R) where
  -- What a task of a session does at once: it takes in a response, or it sends a request.
  pub data Spawned (w v : World S R P) : Type 0 where
    vote_response :
        (n : ℕ) (r : RequestVoteResponse) (e : Election S R P)
        → e.world ≡ w
        → (Deposes r.reason → e.current_term ≤ r.term)
        → v ≡ (after (on_vote_response st n r e)).world
        → Spawned w v
    heartbeat_response :
        (r : AppendEntriesResponse) (l : Lead S R P)
        → l.world ≡ w
        → (r.reason ≡ AppendEntriesResponseReason.stale_term → l.current_term ≤ r.term)
        → v ≡ (after (on_heartbeat_response st r l)).world
        → Spawned w v
    entries_response :
        (r : AppendEntriesResponse) (l : Lead S R P)
        → l.world ≡ w
        → (r.reason ≡ AppendEntriesResponseReason.stale_term → l.current_term ≤ r.term)
        → v ≡ (after (on_standby_response st r l)).world
        → Spawned w v
    asks : (peer : NodeId) → v ≡ after (send_request_vote_rpc st peer w) → Spawned w v
    brings :
        (request : AppendEntriesRequest R) (peer : NodeId)
        → v ≡ after (send_append_entries_rpc request peer w)
        → Spawned w v

  -- The main task stays where it is.
  abbrev Meanwhile : World S R P → World S R P → Type 0
  Meanwhile w v = (t : Task (World S R P)) (vs : List Ballot) → Steps st t w vs t v vs

  -- `update_current_term` and `change_to_follower_state`
  abbrev deposed : ℕ → World S R P → World S R P
  deposed t w = after ((update_current_term st t >> change_to_follower_state) w)

  ends : {w v u : World S R P} → Meanwhile w v → v ≡ u → Meanwhile w u
  ends {w} m e t vs = subst (λ u. Steps st t w vs t u vs) e (m t vs)

  from : {w v u : World S R P} → w ≡ v → Meanwhile w u → Meanwhile v u
  from {u = u} e m t vs = subst (λ w. Steps st t w vs t u vs) e (m t vs)

  same-Meanwhile : {w v : World S R P} → w ≡ v → Meanwhile w v
  same-Meanwhile e = ends (λ t vs. here) e

  writes-Meanwhile :
      (m : Action S (Unit {0})) (w : World S R P) → Meanwhile w (after (on_state m w))
  writes-Meanwhile m w t vs = here ▸ meanwhile (writes m refl)

  sent-Meanwhile :
      (live : Bool) (o : Output R P) (w : World S R P) → Meanwhile w (after (send live o w))
  unfolding send
  sent-Meanwhile true o w t vs = here ▸ meanwhile (sends o refl)
  sent-Meanwhile false o w t vs = here

  deposed-Meanwhile : (t : ℕ) (w : World S R P) → w.current_term ≤ t → Meanwhile w (deposed t w)
  unfolding update_current_term change_to_follower_state on_state change_state
  deposed-Meanwhile t w h = by_store (st.store_current_term t w.state) refl
    where
      by_store :
          (o : Out S (Unit {0})) → st.store_current_term t w.state ≡ o → Meanwhile w (deposed t w)
      by_store (ok a s) e =
          ends
            (λ k vs.
              here
              ▸ meanwhile (writes (st.store_current_term t) refl)
              ▸ meanwhile (learns t (ground (arith, e)) refl)
              ▸ meanwhile (turns follower refl))
            (ground (arith, e))
      by_store (err x s) e = ends (writes-Meanwhile (st.store_current_term t) w) (ground (arith, e))
      by_store (panic s) e = ends (writes-Meanwhile (st.store_current_term t) w) (ground (arith, e))
      by_store (blocked s) e =
          ends (writes-Meanwhile (st.store_current_term t) w) (ground (arith, e))

  vote_response-Meanwhile :
      (n : ℕ) (r : RequestVoteResponse) (e : Election S R P) (x : RequestVoteResponseReason)
      → r.reason ≡ x
      → (Deposes x → e.current_term ≤ r.term)
      → Meanwhile e.world (after (on_vote_response st n r e)).world
  unfolding on_vote_response
  vote_response-Meanwhile n r e RequestVoteResponseReason.stale_term q h =
      ends (deposed-Meanwhile r.term e.world (h tt)) (ground arith)
  vote_response-Meanwhile n r e RequestVoteResponseReason.incomplete_log q h =
      ends (deposed-Meanwhile r.term e.world (h tt)) (ground arith)
  vote_response-Meanwhile n r e RequestVoteResponseReason.already_voted q h =
      same-Meanwhile (ground arith)
  vote_response-Meanwhile n r e RequestVoteResponseReason.ok q h = same-Meanwhile (ground arith)

  heartbeat_response-Meanwhile :
      (r : AppendEntriesResponse) (l : Lead S R P) (x : AppendEntriesResponseReason)
      → r.reason ≡ x
      → (x ≡ AppendEntriesResponseReason.stale_term → l.current_term ≤ r.term)
      → Meanwhile l.world (after (on_heartbeat_response st r l)).world
  unfolding on_heartbeat_response
  heartbeat_response-Meanwhile r l AppendEntriesResponseReason.stale_term q h =
      elim (Bool-cases l.write_locked) [
        | inl b ↦ same-Meanwhile (ground arith)
        | inr b ↦ ends (deposed-Meanwhile r.term l.world (h refl)) (ground arith)
      ]
  heartbeat_response-Meanwhile r l AppendEntriesResponseReason.log_mismatch q h =
      same-Meanwhile (ground arith)
  heartbeat_response-Meanwhile r l AppendEntriesResponseReason.ok q h =
      same-Meanwhile (ground arith)

  entries_response-Meanwhile :
      (r : AppendEntriesResponse) (l : Lead S R P) (x : AppendEntriesResponseReason)
      → r.reason ≡ x
      → (x ≡ AppendEntriesResponseReason.stale_term → l.current_term ≤ r.term)
      → Meanwhile l.world (after (on_standby_response st r l)).world
  unfolding on_standby_response
  entries_response-Meanwhile r l AppendEntriesResponseReason.stale_term q h =
      elim (Bool-cases l.write_locked) [
        | inl b ↦ same-Meanwhile (ground arith)
        | inr b ↦ ends (deposed-Meanwhile r.term l.world (h refl)) (ground arith)
      ]
  entries_response-Meanwhile r l AppendEntriesResponseReason.log_mismatch q h =
      same-Meanwhile (ground arith)
  entries_response-Meanwhile r l AppendEntriesResponseReason.ok q h = same-Meanwhile (ground arith)

  -- When a task of a vote or replication session takes in a response or sends a request, with success,
  -- an error, a panic or a wait, then what it does is a sequence of steps that may come between any
  -- two of the main task's, which stays where it is, if a response that makes the node step down has
  -- no lower term than the node.
  pub Spawned-Steps :
      {w v : World S R P}
      → Spawned w v
      → (t : Task (World S R P)) (vs : List Ballot) → Steps st t w vs t v vs
  unfolding send_request_vote_rpc send_append_entries_rpc
  Spawned-Steps (vote_response n r e same h q) =
      from same (ends (vote_response-Meanwhile n r e r.reason refl h) (sym q))
  Spawned-Steps (heartbeat_response r l same h q) =
      from same (ends (heartbeat_response-Meanwhile r l r.reason refl h) (sym q))
  Spawned-Steps (entries_response r l same h q) =
      from same (ends (entries_response-Meanwhile r l r.reason refl h) (sym q))
  Spawned-Steps {w} (asks peer q) = ends (sent-Meanwhile w.out_live _ w) (sym q)
  Spawned-Steps {w} (brings request peer q) = ends (sent-Meanwhile w.out_live _ w) (sym q)
