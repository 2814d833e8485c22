-- ===== src/Role/Leader/CatchUp/Exchanges.antt =====
-- One exchange of a leader with a follower: what it leaves of their logs.
use zeroraft.Base.{
  after, Returns-ok, ◌≢◌, subst, ℕ, zero, suc, ◌+◌, ◌-◌, ◌≤◌, ◌<◌, ◌≡◌, refl, sym, ap, ◌∙◌, inl,
  inr, List, [], ◌∷◌, true, false, Option, some, ok, arith, length, take, drop, lookup, get_elem?,
  Bool, lt_of_get_elem?, Bool-cases,
}
use zeroraft.Store.{State, NodeId, LogEntry}
use zeroraft.Store.Laws.{IsState, IsReliable, entry_at}
use zeroraft.Rpc.{
  AppendEntriesRequest, AppendEntriesResponse, AppendEntriesResponseReason, append_reply,
}
use zeroraft.Node.{World}
use zeroraft.Role.Common.{respond_to_append_entries, term_differs}
use zeroraft.Role.Common.Append.{AppendAnswer, Matches, respond_to_append_entries_lem}
use zeroraft.Role.Candidate.{next}
use zeroraft.Role.Leader.{Lead, set_peer, set_lock, peer_matches, on_standby_response}
use zeroraft.Role.Leader.Lock.{lookup-update}
use zeroraft.Role.Leader.Replicate.{Follows, compose_append_entries_request_lem, Replicated-answer}
use zeroraft.Role.Leader.CatchUp.{
  Exchange, taken, refused, matched, broken, on_request, on_delivery, unless_matched, exchange,
}

-- Two logs that have an entry of one term at one index agree up to there (the log matching property).
abbrev pub LogsMatch : {R : Type 0} → List (LogEntry R) → List (LogEntry R) → Type 0
LogsMatch {R} F L =
    (i : ℕ) (e f : LogEntry R)
    → entry_at 1 F i ≡ some f
    → entry_at 1 L i ≡ some e
    → f.term ≡ e.term
    → take i F ≡ take i L

clash : {b : Bool} → b ≡ false → b ≡ true → ⊥
clash h g = cc

pub get_elem?-some :
    {A : Type 0} (xs : List A) (i : ℕ) → i < length xs → (a : A) × (get_elem? xs i ≡ some a)
get_elem?-some [] i h = absurd (omega arith)
get_elem?-some (x ∷ xs) zero h = (x, refl)
get_elem?-some (x ∷ xs) (suc i) h = get_elem?-some xs i (omega arith)

module _ {R : Type 0} (F : List (LogEntry R)) (request : AppendEntriesRequest R) (k : ℕ)
    (e f : LogEntry R) (at_k : request.prev_log_index ≡ suc k)
    (of_e : request.prev_log_term ≡ e.term) (there : get_elem? F k ≡ some f) where
  Matches-term : Matches 1 F request → f.term ≡ e.term
  unfolding term_differs
  Matches-term fits =
      let same : term_differs (some f) e.term ≡ false = rw (at_k, of_e, there) at (fits.1) in
      ground arith

  term-Matches : f.term ≡ e.term → Matches 1 F request
  unfolding term_differs
  term-Matches same =
      (omega (arith, at_k, lt_of_get_elem? F k f there), rw (at_k, of_e, there) (ground arith))

module _ {S R P : Type 0} (st : State S R) where
  -- A refusal in the loop over the peers' responses takes the next index one down.
  step_back_lem :
      (r : AppendEntriesResponse) (l : Lead S R P) (n : ℕ) (m : Option ℕ)
      → r.reason ≡ AppendEntriesResponseReason.log_mismatch
      → l.write_locked ≡ false
      → lookup r.id l.peers ≡ some (suc n, m)
      → (l' : Lead S R P) × (on_standby_response st r l ≡ ok next l')
        × (l'.write_locked ≡ false)
        × (lookup r.id l'.peers ≡ some (n, m))
        × (l'.world ≡ l.world)
  unfolding on_standby_response
  step_back_lem r l n m e free known = (
    set_lock false (set_peer r.id (n, m) l),
    ground arith,
    refl,
    lookup-update r.id (suc n, m) (n, m) l.peers known,
    refl,
  )

  delivery_taken :
      (r : AppendEntriesResponse) (l : Lead S R P) (w w' : World S R P)
      → w'.sent ≡ append_reply r ∷ w.sent
      → r.success ≡ true
      → on_delivery st l (ok tt w') ≡ taken (after (on_standby_response st r l)) w'
  unfolding on_delivery
  delivery_taken r l w w' h s = rw (h, on_delivery) (ground arith)

  delivery_refused :
      (r : AppendEntriesResponse) (l l' : Lead S R P) (w w' : World S R P)
      → w'.sent ≡ append_reply r ∷ w.sent
      → r.success ≡ false
      → on_standby_response st r l ≡ ok next l'
      → on_delivery st l (ok tt w') ≡ refused l' w'
  unfolding on_delivery
  delivery_refused r l l' w w' h s e = rw (h, on_delivery) (ground arith)

  respond-id :
      (request : AppendEntriesRequest R) (w w' : World S R P)
      → respond_to_append_entries st request (record { live = true }) w ≡ ok tt w'
      → w'.id ≡ w.id
  unfolding respond_to_append_entries
  respond-id request w w' e = ground arith

module _ {S R P : Type 0} {st : State S R} (laws : IsState 1 st) (rel : IsReliable st) where
  open laws use {view}

  -- What an exchange leaves behind: the follower has the leader's log, or the leader is one step back
  -- and the follower's log does not have the previous entry.
  abbrev pub Exchanged :
      NodeId → ℕ → Option ℕ → LogEntry R → Lead S R P → World S R P → Exchange S R P → Type 0
  Exchanged peer k m e l w (taken l' w') = (view w'.state).log ≡ (view l.state).log
  Exchanged peer k m e l w (refused l' w') =
      (l'.write_locked ≡ false)
      × (lookup peer l'.peers ≡ some (suc k, m))
      × (l'.world ≡ l.world)
      × ((view w'.state).log ≡ (view w.state).log)
      × (w'.id ≡ w.id)
      × (w'.current_term ≡ l.current_term)
      × ((f : LogEntry R) → entry_at 1 (view w.state).log (suc k) ≡ some f → f.term ≢ e.term)
  Exchanged peer k m e l w matched = ⊥
  Exchanged peer k m e l w broken = ⊥

  answered-Exchanged :
      (peer : NodeId) (k : ℕ) (m : Option ℕ) (e : LogEntry R) (l : Lead S R P) (w w' : World S R P)
      (request : AppendEntriesRequest R) (r : AppendEntriesResponse)
      → Follows request (view l.state).log 1 (suc k) e
      → request.term ≡ l.current_term
      → l.write_locked ≡ false
      → lookup peer l.peers ≡ some (suc (suc k), m)
      → entry_at 1 (view l.state).log (suc k) ≡ some e
      → w.current_term ≤ l.current_term
      → w.id ≡ peer
      → LogsMatch (view w.state).log (view l.state).log
      → w'.id ≡ w.id
      → AppendAnswer 1 view request w w' r
      → Exchanged peer k m e l w (on_delivery st l (ok tt w'))
  answered-Exchanged peer k m e l w w' request r f own free known there fresh is_peer match same a =
      elim (Bool-cases r.success) [
        | inl taken_it ↦
            let fits = a.matched taken_it in
            let (g, there') = get_elem?-some (view w.state).log k (omega (arith, fits.0, f.0)) in
            let alike =
              match (suc k) e g there' there
                (Matches-term (view w.state).log request k e g f.0 f.1 there' fits) in
            subst (Exchanged peer k m e l w) (sym (delivery_taken st r l w w' a.sent taken_it)) (
              Replicated-answer laws rel (view l.state).log w w' k e request r f (omega arith) there
                alike a)
        | inr no' ↦
            let fresh' : w.current_term ≤ request.term = omega arith in
            let from : r.id ≡ peer = a.from ∙ is_peer in
            let (l', step, free', known', still) =
              step_back_lem st r l (suc k) m (a.mismatch_told fresh' no') free
                (subst (λ p. lookup p l.peers ≡ some (suc (suc k), m)) (sym from) known) in
            subst (Exchanged peer k m e l w) (sym (delivery_refused st r l l' w w' a.sent no' step))
              (
                free',
                subst (λ p. lookup p l'.peers ≡ some (suc k, m)) from known',
                still,
                a.log_kept no',
                same,
                (a.leader_followed fresh').0 ∙ own,
                λ g there' equal. clash no' (
                    a.accepted_if fresh'
                      (term-Matches (view w.state).log request k e g f.0 f.1 there' equal)),
              )
      ]

  peer_matches_lem :
      (peer : NodeId) (n : ℕ) (m : Option ℕ) (l : Lead S R P)
      → l.write_locked ≡ false
      → lookup peer l.peers ≡ some (n, m)
      → m ≢ some (view l.state).commit
      → peer_matches st peer l ≡ ok false l
  unfolding peer_matches
  peer_matches_lem peer n m l free known lags = let c = laws.commit_lem l.state in ground arith

  pub exchange-Exchanged :
      (peer : NodeId) (k : ℕ) (m : Option ℕ) (e : LogEntry R) (l : Lead S R P) (w : World S R P)
      → l.write_locked ≡ false
      → lookup peer l.peers ≡ some (suc (suc k), m)
      → entry_at 1 (view l.state).log (suc k) ≡ some e
      → w.current_term ≤ l.current_term
      → w.id ≡ peer
      → LogsMatch (view w.state).log (view l.state).log
      → m ≢ some (view l.state).commit
      → Exchanged peer k m e l w (exchange st peer l w)
  unfolding exchange
  exchange-Exchanged peer k m e l w free known there fresh is_peer match lags =
      let request : AppendEntriesRequest R = record {
        term = l.current_term;
        leader_id = l.id;
        last_commit_index = (view l.state).commit;
        prev_log_index = suc k;
        prev_log_term = e.term;
        entries = drop (suc k + 1 - 1) (view l.state).log;
      } in
      let known' : lookup peer l.peers ≡ some (suc k + 1, m) =
        known ∙ ap (λ n. some (n, m)) (omega arith) in
      let composed = compose_append_entries_request_lem laws l peer (suc k) m e free known' there in
      let (_, w', answered, (r, a)) =
        Returns-ok (respond_to_append_entries st request (record { live = true }) w) _
          (respond_to_append_entries_lem laws rel request w) in
      rw (peer_matches_lem peer (suc (suc k)) m l free known lags, unless_matched)
        (rw (composed, on_request, answered)
          (answered-Exchanged peer k m e l w w' request r (refl, refl, refl) refl free known there
            fresh is_peer match (respond-id st request w w' answered) a))
