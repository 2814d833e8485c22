-- ===== src/Role/Leader/Heartbeat.antt =====
-- What a heartbeat does to the log of the follower that takes it.
use zeroraft.Base.{
  ◌≤◌, ◌<◌, ◌≡◌, refl, List, [], ◌∷◌, true, false, some, Returns, Returns-mono, arith, after, ◌∙◌,
  keys,
}
use zeroraft.Store.{State, NodeId, LogEntry}
use zeroraft.Store.Laws.{View, IsState, IsReliable, entry_at}
use zeroraft.Rpc.{AppendEntriesResponse, AppendEntriesResponseReason, append_reply}
use zeroraft.Node.{World}
use zeroraft.Role.Common.{respond_to_append_entries, term_differs}
use zeroraft.Role.Common.Append.{AppendAnswer, respond_to_append_entries_lem}
use zeroraft.Node.{send_append_entries_rpc}
use zeroraft.Role.Leader.{Lead, heartbeat, send_each, on_world, send_heartbeat_to_peers}

-- The log and the commit index of `w'` are gone, and the leader is told that all went well.
abbrev pub Cleared : {S R P : Type 0} → (S → View R) → World S R P → World S R P → Type 0
Cleared view w w' =
    ((view w'.state).log ≡ [])
    × ((view w'.state).commit ≡ 0)
    × ((r : AppendEntriesResponse) × (w'.sent ≡ append_reply r ∷ w.sent) × (r.success ≡ true))

module _ {S R P : Type 0} {st : State S R} (laws : IsState 1 st) (rel : IsReliable st) where
  Cleared-answer :
      (leader w w' : World S R P) (r : AppendEntriesResponse)
      → w.current_term ≤ leader.current_term
      → AppendAnswer 1 laws.view (heartbeat st leader) w w' r
      → Cleared laws.view w w'
  unfolding heartbeat term_differs
  Cleared-answer leader w w' r h a =
      let yes' = a.accepted_if h (omega arith, refl) in
      let gone = a.log_replaced yes' in
      (gone, rw (a.commit_taken yes', gone) (omega arith), (r, a.sent, yes'))

  -- Over a lawful store that does not fail and that numbers its entries from 1, as the trait asks,
  -- a heartbeat of a leader whose term is not stale, if it can be answered, empties the log of a
  -- follower and sets its commit index to 0, and is answered as a success.
  pub heartbeat_clears_log :
      (leader w : World S R P)
      → w.current_term ≤ leader.current_term
      → Returns
          (respond_to_append_entries st (heartbeat st leader) (record { live = true }) w)
          (Cleared laws.view w)
  heartbeat_clears_log leader w h =
      Returns-mono (respond_to_append_entries st (heartbeat st leader) (record { live = true }) w) _
        _ (λ w' a. Cleared-answer leader w w' a.0 h a.1)
        (respond_to_append_entries_lem laws rel (heartbeat st leader) w)

module _ {S R P : Type 0} (st : State S R) where
  send-node :
      (p : NodeId) (l : Lead S R P)
      → (after (on_world (send_append_entries_rpc (heartbeat st l.world) p) l)).node ≡ l.node
  unfolding on_world send_append_entries_rpc
  send-node p l = ground arith

  send_each-node : (ps : List NodeId) (l : Lead S R P) → (after (send_each st ps l)).node ≡ l.node
  unfolding send_each
  send_each-node [] l = refl
  send_each-node (p ∷ ps) l =
      send_each-node ps (after (on_world (send_append_entries_rpc (heartbeat st l.world) p) l))
      ∙ send-node p l

  -- Sending heartbeats changes nothing of the node but what it has sent.
  pub send_heartbeat_to_peers-node :
      (l : Lead S R P) → (after (send_heartbeat_to_peers st l)).node ≡ l.node
  unfolding send_heartbeat_to_peers
  send_heartbeat_to_peers-node l = ground (arith, send_each-node (keys l.peers) l)

  send-session :
      (p : NodeId) (l : Lead S R P)
      → (after (on_world (send_append_entries_rpc (heartbeat st l.world) p) l)).session ≡ l.session
  unfolding on_world send_append_entries_rpc
  send-session p l = ground arith

  send_each-session :
      (ps : List NodeId) (l : Lead S R P) → (after (send_each st ps l)).session ≡ l.session
  unfolding send_each
  send_each-session [] l = refl
  send_each-session (p ∷ ps) l =
      send_each-session ps (after (on_world (send_append_entries_rpc (heartbeat st l.world) p) l))
      ∙ send-session p l

  pub send_heartbeat_to_peers-session :
      (l : Lead S R P) → (after (send_heartbeat_to_peers st l)).session ≡ l.session
  unfolding send_heartbeat_to_peers
  send_heartbeat_to_peers-session l = ground (arith, send_each-session (keys l.peers) l)

  send-now :
      (p : NodeId) (l : Lead S R P)
      → (after (on_world (send_append_entries_rpc (heartbeat st l.world) p) l)).now ≡ l.now
  unfolding on_world send_append_entries_rpc
  send-now p l = ground arith

  send_each-now : (ps : List NodeId) (l : Lead S R P) → (after (send_each st ps l)).now ≡ l.now
  unfolding send_each
  send_each-now [] l = refl
  send_each-now (p ∷ ps) l =
      send_each-now ps (after (on_world (send_append_entries_rpc (heartbeat st l.world) p) l))
      ∙ send-now p l

  pub send_heartbeat_to_peers-now :
      (l : Lead S R P) → (after (send_heartbeat_to_peers st l)).now ≡ l.now
  unfolding send_heartbeat_to_peers
  send_heartbeat_to_peers-now l = ground (arith, send_each-now (keys l.peers) l)

-- The follower keeps its log and calls it a mismatch.
abbrev pub Mismatched : {S R P : Type 0} → (S → View R) → World S R P → World S R P → Type 0
Mismatched view w w' =
    ((view w'.state).log ≡ (view w.state).log)
    × ((r : AppendEntriesResponse) × (w'.sent ≡ append_reply r ∷ w.sent)
        × (r.reason ≡ AppendEntriesResponseReason.log_mismatch))

module _ {S R P : Type 0} {st : State S R} (laws : IsState 0 st) (rel : IsReliable st) where
  Mismatched-answer :
      (leader w w' : World S R P) (e : LogEntry R) (r : AppendEntriesResponse)
      → w.current_term ≤ leader.current_term
      → entry_at 0 (laws.view w.state).log 0 ≡ some e
      → 0 < e.term
      → AppendAnswer 0 laws.view (heartbeat st leader) w w' r
      → Mismatched laws.view w w'
  unfolding heartbeat term_differs
  Mismatched-answer leader w w' e r h there pos a =
      let refused : r.success ≡ false = ground (arith, a.matched) in
      (a.log_kept refused, (r, a.sent, a.mismatch_told h refused))

  -- Over a lawful store that does not fail and that numbers its entries from 0, as `MemoryState`
  -- does, a heartbeat of a leader whose term is not stale, if it can be answered, is refused as a
  -- log mismatch by every follower whose first entry is of a term other than 0, and the log stays.
  pub heartbeat_mismatch :
      (leader w : World S R P) (e : LogEntry R)
      → w.current_term ≤ leader.current_term
      → entry_at 0 (laws.view w.state).log 0 ≡ some e
      → 0 < e.term
      → Returns
          (respond_to_append_entries st (heartbeat st leader) (record { live = true }) w)
          (Mismatched laws.view w)
  heartbeat_mismatch leader w e h there pos =
      Returns-mono (respond_to_append_entries st (heartbeat st leader) (record { live = true }) w) _
        _ (λ w' a. Mismatched-answer leader w w' e a.0 h there pos a.1)
        (respond_to_append_entries_lem laws rel (heartbeat st leader) w)
