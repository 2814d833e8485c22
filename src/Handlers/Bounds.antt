-- ===== src/Handlers/Bounds.antt =====
-- The commit index and the log, the membership and the id of a node, whatever its tasks do.
use zeroraft.Base.{
  ℕ, ◌≤◌, ◌≡◌, sym, subst, List, ◌++◌, [], ◌∷◌, ok, after, arith, length, length-append, take, min,
  some,
}
use zeroraft.Store.{State, NodeId, LogEntry, HashMap, SocketAddr}
use zeroraft.Store.Laws.{View, IsState, IsReliable, Leaves-ok, vote_writes, append_writes}
use zeroraft.Rpc.{
  PeerRpc, append_entries, request_vote, AppendEntriesRequest, RequestVoteRequest, Sender,
}
use zeroraft.Node.{World}
use zeroraft.Role.Common.{respond_to_append_entries, respond_to_request_vote}
use zeroraft.Role.Rpc.{on_rpc, redirect}
use zeroraft.Rpc.{ClientRequest, RequestVoteResponse, AppendEntriesResponse}
use zeroraft.Node.{TaskState, change_state, update_current_term}
use zeroraft.Store.{client_request}
use zeroraft.Role.Candidate.{Election, initialize, on_vote_response}
use zeroraft.Role.Leader.{Lead, on_heartbeat_response, on_standby_response}
use zeroraft.Role.Leader.Loop.{append_client_request}
use zeroraft.Handlers.{
  Handled, rpc, redirected, appended, campaigned, turned, vote_response, heartbeat_response,
  entries_response, Reach, here, next,
}

-- The commit index is within the log, and id and membership are those given.
pub record IsSound {S R P : Type 0} (view : S → View R) (id : NodeId) (members : HashMap SocketAddr)
    (w : World S R P) : Type 0 where
  pub bounded : (view w.state).commit ≤ length (view w.state).log
  pub same_id : w.id ≡ id
  pub same_members : (view w.state).membership ≡ members

module _ {S R P : Type 0} {base : ℕ} {st : State S R} (laws : IsState base st) (rel : IsReliable st)
    (id : NodeId) (members : HashMap SocketAddr) where
  open laws use {view}

  abbrev Sound : World S R P → Type 0
  Sound = IsSound view id members

  append-Sound :
      (request : AppendEntriesRequest R) (tx : Sender) (w : World S R P)
      → Sound w
      → Sound (after (respond_to_append_entries st request tx w))
  unfolding respond_to_append_entries
  append-Sound request tx w h =
      let (s₀, s₁, s₂, s₃, e₀, v₀, e₁, e₂, i₂, e₃, v₃) =
        append_writes laws rel request.term request.prev_log_index request.last_commit_index
          request.entries w.state in
      go s₀ s₁ s₂ s₃ e₀ v₀ e₁ e₂ i₂ e₃ v₃
    where
      log' : List (LogEntry R)
      log' = take request.prev_log_index (view w.state).log ++ request.entries

      go :
          (s₀ s₁ s₂ s₃ : S)
          → st.store_current_term request.term w.state ≡ ok tt s₀
          → view s₀ ≡ view w.state
          → st.remove_entries_after request.prev_log_index s₀ ≡ ok tt s₁
          → st.append_entries request.entries s₁ ≡ ok tt s₂
          → st.get_last_index s₂ ≡ length log'
          → st.set_last_commit_index (min request.last_commit_index (length log')) s₂ ≡ ok tt s₃
          → view s₃ ≡ record (view w.state) {
            log = log';
            commit = min request.last_commit_index (length log');
          }
          → Sound (after (respond_to_append_entries st request tx w))
      go s₀ s₁ s₂ s₃ e₀ v₀ e₁ e₂ i₂ e₃ v₃ = ground (arith, h)

  vote-Sound :
      (request : RequestVoteRequest) (tx : Sender) (w : World S R P)
      → Sound w
      → Sound (after (respond_to_request_vote st request tx w))
  unfolding respond_to_request_vote
  vote-Sound request tx w h =
      let (s₁, s₂, e₁, e₂, kept) = vote_writes laws rel request.term request.candidate_id w.state in
      go s₁ s₂ e₁ e₂ kept
    where
      go :
          (s₁ s₂ : S)
          → st.store_current_term request.term w.state ≡ ok tt s₁
          → st.store_voted_for request.candidate_id s₁ ≡ ok tt s₂
          → view s₂ ≡ record (view w.state) { vote = some request.candidate_id }
          → Sound (after (respond_to_request_vote st request tx w))
      go s₁ s₂ e₁ e₂ kept = ground (arith, h)

  on_rpc-Sound : (q : PeerRpc R) (w : World S R P) → Sound w → Sound (after (on_rpc st q w))
  unfolding on_rpc
  on_rpc-Sound (append_entries q tx) w h = append-Sound q tx w h
  on_rpc-Sound (request_vote q tx) w h = vote-Sound q tx w h
  on_rpc-Sound (PeerRpc.install_snapshot q tx) w h = h
  on_rpc-Sound (PeerRpc.config q tx) w h = h

  redirect-Sound : (q : ClientRequest R) (w : World S R P) → Sound w → Sound (after (redirect q w))
  unfolding redirect
  redirect-Sound q w h = ground (arith, h)

  campaign-Sound : (w : World S R P) → Sound w → Sound (after (initialize w))
  unfolding initialize
  campaign-Sound w h = ground (arith, h)

  turn-Sound : (s : TaskState) (w : World S R P) → Sound w → Sound (after (change_state s w))
  unfolding change_state
  turn-Sound s w h = ground (arith, h)

  append_client_request-Sound :
      (q : ClientRequest R) (w : World S R P)
      → Sound w
      → Sound (after (append_client_request st q w))
  unfolding append_client_request
  append_client_request-Sound q w h =
      let es : List (LogEntry R) =
        record { term = w.current_term; command = client_request q.request } ∷ [] in
      let (s, e) = rel.appends_ok es w.state in
      let v = Leaves-ok view _ s _ (laws.appends es w.state) e in
      ground (arith, h, length-append (view w.state).log es)

  learn-Sound : (t : ℕ) (w : World S R P) → Sound w → Sound (after (update_current_term st t w))
  unfolding update_current_term
  learn-Sound t w h =
      let (s, e) = rel.stores_term_ok t w.state in
      let v = Leaves-ok view _ s _ (laws.stores_term t w.state) e in ground (arith, h)

  vote_response-Sound :
      (n : ℕ) (r : RequestVoteResponse) (e : Election S R P)
      → Sound e.world
      → Sound (after (on_vote_response st n r e)).world
  unfolding on_vote_response
  vote_response-Sound n r e h =
      let (s, q) = rel.stores_term_ok r.term e.state in
      let v = Leaves-ok view _ s _ (laws.stores_term r.term e.state) q in ground (arith, h)

  heartbeat_response-Sound :
      (r : AppendEntriesResponse) (l : Lead S R P)
      → Sound l.world
      → Sound (after (on_heartbeat_response st r l)).world
  unfolding on_heartbeat_response
  heartbeat_response-Sound r l h =
      let (s, q) = rel.stores_term_ok r.term l.state in
      let v = Leaves-ok view _ s _ (laws.stores_term r.term l.state) q in ground (arith, h)

  entries_response-Sound :
      (r : AppendEntriesResponse) (l : Lead S R P)
      → Sound l.world
      → Sound (after (on_standby_response st r l)).world
  unfolding on_standby_response
  entries_response-Sound r l h =
      let (s, q) = rel.stores_term_ok r.term l.state in
      let v = Leaves-ok view _ s _ (laws.stores_term r.term l.state) q in ground (arith, h)

  Handled-Sound : {w v : World S R P} → Handled st w v → Sound w → Sound v
  Handled-Sound {w} (rpc q e) h = subst Sound (sym e) (on_rpc-Sound q w h)
  Handled-Sound {w} (redirected q e) h = subst Sound (sym e) (redirect-Sound q w h)
  Handled-Sound {w} (appended q e) h = subst Sound (sym e) (append_client_request-Sound q w h)
  Handled-Sound {w} (campaigned e) h = subst Sound (sym e) (campaign-Sound w h)
  Handled-Sound {w} (turned s e) h = subst Sound (sym e) (turn-Sound s w h)
  Handled-Sound (vote_response n r c same e) h =
      subst Sound (sym e) (vote_response-Sound n r c (subst Sound (sym same) h))
  Handled-Sound (heartbeat_response r l same e) h =
      subst Sound (sym e) (heartbeat_response-Sound r l (subst Sound (sym same) h))
  Handled-Sound (entries_response r l same e) h =
      subst Sound (sym e) (entries_response-Sound r l (subst Sound (sym same) h))

  -- Over a lawful store that does not fail, from a node whose commit index is within its log, no
  -- handlers, in any order and however they end, ever take the commit index past the end of the log,
  -- nor change the node's id or the members that its store has.
  pub Reach-IsSound :
      {w v : World S R P} → IsSound view id members w → Reach st w v → IsSound view id members v
  Reach-IsSound h here = h
  Reach-IsSound h (next r s) = Handled-Sound s (Reach-IsSound h r)
