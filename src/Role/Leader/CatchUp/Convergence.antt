-- ===== src/Role/Leader/CatchUp/Convergence.antt =====
-- How many exchanges a leader needs before a follower accepts.
use zeroraft.Base.{
  subst, ℕ, zero, suc, ◌≢◌, Bool, [], ◌∷◌, All, ◌≤◌, ◌<◌, ◌≡◌, refl, sym, ap, ◌∙◌, List, false,
  Option, some, arith, length, lookup, get_elem?,
}
use zeroraft.Store.{State, NodeId, LogEntry}
use zeroraft.Store.Laws.{IsState, IsReliable}
use zeroraft.Node.{World}
use zeroraft.Role.Leader.{Lead}
use zeroraft.Role.Leader.CatchUp.{
  Exchange, taken, refused, matched, broken, accepted, exchange, catch_up,
}
use zeroraft.Role.Leader.CatchUp.Exchanges.{
  LogsMatch, get_elem?-some, Exchanged, exchange-Exchanged,
}

module _ {S R P : Type 0} {st : State S R} (laws : IsState 1 st) (rel : IsReliable st) where
  open laws use {view}

  -- The follower accepts in the end, and has the leader's log then.
  abbrev pub CaughtUp : List Bool → NodeId → Lead S R P → World S R P → List (LogEntry R) → Type 0
  CaughtUp signals peer l w log =
      (l' : Lead S R P) × (w' : World S R P) × (catch_up st signals peer l w ≡ accepted l' w')
      × ((view w'.state).log ≡ log)

  one_more :
      (signals : List Bool) (peer : NodeId) (k : ℕ) (m : Option ℕ) (e : LogEntry R) (l : Lead S R P)
      (w : World S R P) (x : Exchange S R P)
      → exchange st peer l w ≡ x
      → Exchanged laws rel peer k m e l w x
      → ((l' : Lead S R P) (w' : World S R P)
          → Exchanged laws rel peer k m e l w (refused l' w')
          → CaughtUp signals peer l' w' (view l.state).log)
      → CaughtUp (false ∷ signals) peer l w (view l.state).log
  unfolding catch_up
  one_more signals peer k m e l w (taken l' w') q h later = (l', w', rw (q, catch_up) refl, h)
  one_more signals peer k m e l w (refused l' w') q h later =
      let (l₂, w₂, found, same) = later l' w' h in (l₂, w₂, rw (q, catch_up) found, same)
  one_more signals peer k m e l w matched q h later = elim h [ ]
  one_more signals peer k m e l w broken q h later = elim h [ ]

  -- A round after which no stop signal comes.
  one_round :
      (signal : Bool) (signals : List Bool) (peer : NodeId) (k : ℕ) (m : Option ℕ) (e : LogEntry R)
      (l : Lead S R P) (w : World S R P)
      → signal ≡ false
      → Exchanged laws rel peer k m e l w (exchange st peer l w)
      → ((l' : Lead S R P) (w' : World S R P)
          → Exchanged laws rel peer k m e l w (refused l' w')
          → CaughtUp signals peer l' w' (view l.state).log)
      → CaughtUp (signal ∷ signals) peer l w (view l.state).log
  one_round signal signals peer k m e l w quiet x later =
      subst (λ b. CaughtUp (b ∷ signals) peer l w (view l.state).log) (sym quiet)
        (one_more signals peer k m e l w (exchange st peer l w) refl x later)

  -- Over a lawful store that does not fail and numbers its entries from 1: if the leader's log and that
  -- of a follower match and have first entries of one term, the follower's term is not later, nobody
  -- holds the guard of the peers, the peer's match index is not the commit index, and the leader has
  -- the entries before the peer's next index `k + 2`, then, with a response taken in before the next
  -- round, at most `k + 1` rounds without a stop signal make the follower accept, and its log is the
  -- leader's then.
  pub catch_up-Converges :
      (signals : List Bool) (k : ℕ) (peer : NodeId) (m : Option ℕ) (e f : LogEntry R)
      (l : Lead S R P) (w : World S R P)
      → k < length signals
      → All (λ s. s ≡ false) signals
      → l.write_locked ≡ false
      → lookup peer l.peers ≡ some (suc (suc k), m)
      → m ≢ some (view l.state).commit
      → k < length (view l.state).log
      → w.current_term ≤ l.current_term
      → w.id ≡ peer
      → LogsMatch (view w.state).log (view l.state).log
      → get_elem? (view l.state).log 0 ≡ some e
      → get_elem? (view w.state).log 0 ≡ some f
      → f.term ≡ e.term
      → CaughtUp signals peer l w (view l.state).log
  catch_up-Converges [] k peer m e f l w h quiet free known lags long fresh is_peer match el fw
        same =
      absurd (omega arith)
  catch_up-Converges (s ∷ signals) zero peer m e f l w h quiet free known lags long fresh is_peer
        match el fw same =
      one_round s signals peer 0 m e l w quiet.0
        (exchange-Exchanged laws rel peer 0 m e l w free known el fresh is_peer match lags)
        (λ l' w' x. absurd (x.6 f fw same))
  catch_up-Converges (s ∷ signals) (suc k) peer m e f l w h quiet free known lags long fresh is_peer
        match el fw same =
      let (g, there) = get_elem?-some (view l.state).log (suc k) long in
      one_round s signals peer (suc k) m g l w quiet.0
        (exchange-Exchanged laws rel peer (suc k) m g l w free known there fresh is_peer match lags)
        (λ l' w' x.
          let log_l : (view l'.state).log ≡ (view l.state).log = ap (λ v. (view v.state).log) x.2 in
          subst (CaughtUp signals peer l' w') log_l (
            catch_up-Converges signals k peer m e f l' w' (omega arith) quiet.1 x.0 x.1
              (subst (λ v. m ≢ some (view v.state).commit) (sym x.2) lags)
              (omega (arith, ap length log_l, long))
              (omega (arith, x.5, ap (λ v. v.current_term) x.2, fresh)) (x.4 ∙ is_peer)
              (subst (LogsMatch (view w'.state).log) (sym log_l)
                (subst (λ F. LogsMatch F (view l.state).log) (sym x.3) match))
              (ap (λ v. get_elem? v 0) log_l ∙ el) (ap (λ v. get_elem? v 0) x.3 ∙ fw) same))
