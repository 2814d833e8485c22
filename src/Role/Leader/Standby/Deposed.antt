-- ===== src/Role/Leader/Standby/Deposed.antt =====
-- The tasks of a leader that steps down.
use zeroraft.Base.{
  ℕ, ◌+◌, ◌≡◌, ◌≢◌, refl, List, [], ◌∷◌, Option, some, true, false, ok, arith, lookup, Returns, ◌≤◌,
  suc, take,
}
use zeroraft.Store.{State, NodeId, LogEntry}
use zeroraft.Store.Laws.{IsState, IsReliable, entry_at}
use zeroraft.Rpc.{AppendEntriesRequest, append_entries, rpc}
use zeroraft.Node.{World}
use zeroraft.Role.Common.{respond_to_append_entries}
use zeroraft.Role.Leader.{Lead, compose_append_entries_request}
use zeroraft.Role.Leader.Replicate.{replicate_lem, compose_append_entries_request_lem}
use zeroraft.Role.Leader.Standby.{
  awake, awaiting_response, awaiting_signal, over, TaskEvent, resumed, response_arrived,
  millisecond_elapsed, notified, run_task,
}

module _ {S R P : Type 0} (st : State S R) where
  over_stays :
      (peer : NodeId) (es : List TaskEvent) (l : Lead S R P)
      → run_task st peer es over l ≡ ok over l
  unfolding run_task
  over_stays peer [] l = refl
  over_stays peer (resumed ∷ es) l = over_stays peer es l
  over_stays peer (response_arrived true ∷ es) l = over_stays peer es l
  over_stays peer (response_arrived false ∷ es) l = over_stays peer es l
  over_stays peer (millisecond_elapsed ∷ es) l = over_stays peer es l
  over_stays peer (notified ∷ es) l = over_stays peer es l

module _ {S R P : Type 0} {st : State S R} (laws : IsState 1 st) (rel : IsReliable st) where
  open laws use {view}

  resumed_sends :
      (l : Lead S R P) (peer : NodeId) (m : Option ℕ) (n : ℕ) (request : AppendEntriesRequest R)
      → l.write_locked ≡ false
      → lookup peer l.peers ≡ some (n, m)
      → m ≢ some (view l.state).commit
      → l.out_live ≡ true
      → compose_append_entries_request st peer l ≡ ok request l
      → (l' : Lead S R P) × (run_task st peer (resumed ∷ []) awake l ≡ ok awaiting_response l')
        × (l'.sent ≡ rpc peer (append_entries request (record { live = true })) ∷ l.sent)
  unfolding run_task
  resumed_sends l peer m n request free known behind live composed =
      let c = laws.commit_lem l.state in
      (
        record l {
          world = record l.world {
            sent = rpc peer (append_entries request (record { live = true })) ∷ l.sent;
          };
        },
        ground arith,
        refl,
      )

  missed :
      (l l' : Lead S R P) (peer : NodeId)
      → run_task st peer (resumed ∷ []) awake l ≡ ok awaiting_response l'
      → run_task st peer
          (notified ∷ response_arrived true ∷ millisecond_elapsed ∷ resumed ∷ [])
          awaiting_response
          l
        ≡ ok awaiting_response l'
  unfolding run_task
  missed l l' peer e = e

  -- When a leader steps down, a task of its that waits for the stop signal just then is over and never
  -- does anything again. One that waits for a response misses the signal: over a lawful
  -- store that does not fail and numbers its entries from 1, if the peer's match index is not the
  -- commit index, its next index is `k + 2` and the log has an entry `k + 1`, it soon sends the node's
  -- entries again, in the term that the node has by then and with the node as the leader, whatever the
  -- node's role; and a follower of no later term whose log agrees up to that entry ends up with the
  -- node's log.
  pub stop_signal_missed :
      (l : Lead S R P) (peer : NodeId) (k : ℕ) (m : Option ℕ) (e : LogEntry R) (w : World S R P)
      (es : List TaskEvent)
      → l.write_locked ≡ false
      → lookup peer l.peers ≡ some (suc k + 1, m)
      → m ≢ some (view l.state).commit
      → l.out_live ≡ true
      → entry_at 1 (view l.state).log (suc k) ≡ some e
      → w.current_term ≤ l.current_term
      → take (suc k) (view w.state).log ≡ take (suc k) (view l.state).log
      → (run_task st peer (notified ∷ es) awaiting_signal l ≡ ok over l)
        × ((l' : Lead S R P) × (request : AppendEntriesRequest R) × (run_task st peer
                (notified ∷ response_arrived true ∷ millisecond_elapsed ∷ resumed ∷ [])
                awaiting_response
                l
              ≡ ok awaiting_response l')
            × (l'.sent ≡ rpc peer (append_entries request (record { live = true })) ∷ l.sent)
            × (request.term ≡ l.current_term)
            × (request.leader_id ≡ l.id)
            × Returns
                (respond_to_append_entries st request (record { live = true }) w)
                (λ w'. (view w'.state).log ≡ (view l.state).log))
  unfolding run_task
  stop_signal_missed l peer k m e w es free known behind live there fresh same =
      let (request, composed, taken) =
        replicate_lem laws rel l peer k m e w free known there fresh same in
      let (l', ran, sent) =
        resumed_sends l peer m (suc k + 1) request free known behind live composed in
      let c = compose_append_entries_request_lem laws l peer (suc k) m e free known there in
      (
        over_stays st peer es l,
        (
          l',
          request,
          missed l l' peer ran,
          sent,
          ground (arith, c, composed),
          ground (arith, c, composed),
          taken,
        ),
      )
