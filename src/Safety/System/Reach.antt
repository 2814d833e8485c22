-- ===== src/Safety/System/Reach.antt =====
-- The victories of a cluster's elections, in every state that its steps reach.
use zeroraft.Base.{
  ℕ, ◌≤◌, ◌≡◌, ◌⊎◌, inl, inr, sym, ap, subst, List, [], true, some, none, In, length, arith,
}
use zeroraft.Store.{State, NodeId}
use zeroraft.Node.{World, leader, change_to_leader_state}
use zeroraft.Safety.{vote_request, campaign, learn_term, turn, Ballot, make}
use zeroraft.Safety.Quorum.{shared_member}
use zeroraft.Safety.System.{
  Candidacy, System, set_world, election, Step, moved, opened, asked, answered, heard, taken, Steps,
  here, next,
}
use zeroraft.Safety.System.Sessions.{heard-world, asked_lem, opened_lem}
use zeroraft.Safety.System.Invariant.{Inv, Grows, IsCounted-mono, set_session-Inv}
use zeroraft.Safety.System.Elections.{
  opened-IsCounted, make-Inv, same-Inv, answered-IsCounted, heard-IsCounted,
}

module _ {S R P : Type 0} (st : State S R) (members : List NodeId) where
  -- There are votes that the sessions have counted.
  abbrev Good : System S R P → Type 0
  Good s = (votes : ℕ → List Ballot) × Inv st members votes s

  heard-Inv :
      (votes : ℕ → List Ballot) (s : System S R P) (m : NodeId) (w : World S R P) (t : ℕ)
      → Inv st members votes s
      → (w ≡ s.worlds m)
        ⊎ ((w ≡ make st (learn_term t) (s.worlds m)) × ((s.worlds m).current_term ≤ t))
      → (votes' : ℕ → List Ballot) × Inv st members votes' (set_world m w s) × Grows votes votes'
  heard-Inv votes s m w t h (inl e) = same-Inv st members votes s m w h (ap (λ v. v.node) e)
  heard-Inv votes s m w t h (inr (e, later)) =
      let (votes', h', g, _) = make-Inv st members votes s m (learn_term t) h later in
      (votes', subst (λ v. Inv st members votes' (set_world m v s)) (sym e) h', g)

  Step-Good : {s s' : System S R P} → Step st members s s' → Good s → Good s'
  unfolding make change_to_leader_state
  Step-Good {s} (moved m move steady e) (votes, h) =
      let (votes', h', _, _) = make-Inv st members votes s m move h steady in
      (votes', subst (Inv st members votes') (sym e) h')
  Step-Good {s} (opened c i v w fresh member steady o e) (votes, h) =
      let (made, own, one, none_yet) = opened_lem st (s.worlds c) w v o in
      let (votes', h', _, new) = make-Inv st members votes s c campaign h steady in
      let mine : In (w.current_term, c) (votes' c) =
        new (w.current_term, c)
          (subst (In (w.current_term, c)) (sym own) (inl (ground (arith, h.ids c)))) in
      (
        votes',
        subst (Inv st members votes') (sym e) (
            set_session-Inv i _ (subst (λ x. Inv st members votes' (set_world c x s)) (sym made) h')
              (opened-IsCounted members votes' c v w.current_term member mine one none_yet)),
      )
  Step-Good {s} (asked i b m w q tx known member on_term sent to e) (votes, h) =
      let (same, term, sender) = asked_lem st m (s.worlds b.owner) w q tx sent to in
      let (votes', h', g) = same-Inv st members votes s b.owner w h same in
      let c = IsCounted-mono members votes votes' b g (h.sessions i b known) in
      (
        votes',
        subst (Inv st members votes') (sym e) (
            set_session-Inv i _ h' (record {
              voters = c.voters;
              distinct = c.distinct;
              among = c.among;
              voted = c.voted;
              counted = c.counted;
              requests = λ k p j. elim j [
                | inl new ↦ ground (arith, new, member, term, on_term, sender, h.ids b.owner)
                | inr old ↦ c.requests k p old
              ];
              victory = c.victory;
            })),
      )
  Step-Good {s} (answered i b m q tx r known there sent e) (votes, h) =
      let (votes', h', g, new) = make-Inv st members votes s m (vote_request q tx) h tt in
      (
        votes',
        subst (Inv st members votes') (sym e) (
            set_session-Inv i _ h' (
              answered-IsCounted st members votes votes' s b m q tx r h (h.sessions i b known) g
                there sent new)),
      )
  Step-Good {s} (heard i b before rest r known pending steady e) (votes, h) =
      let (votes', h', g) =
        heard-Inv votes s b.owner _ r.term h
          (heard-world st (length members) r (election b s) steady) in
      (
        votes',
        subst (Inv st members votes') (sym e) (
            set_session-Inv i _ h' (
              heard-IsCounted st members votes' s b before rest r
                (IsCounted-mono members votes votes' b g (h.sessions i b known)) pending)),
      )
  Step-Good {s} (taken i b known told e) (votes, h) =
      let (votes', h', g, _) = make-Inv st members votes s b.owner (turn leader) h tt in
      let c = IsCounted-mono members votes votes' b g (h.sessions i b known) in
      (
        votes',
        subst (Inv st members votes') (sym e) (
            set_session-Inv i _ h' (record {
              voters = c.voters;
              distinct = c.distinct;
              among = c.among;
              voted = c.voted;
              counted = c.counted;
              requests = c.requests;
              victory = λ _. c.victory (inl told);
            })),
      )

  Steps-Good : {s s' : System S R P} → Good s → Steps st members s s' → Good s'
  Steps-Good h here = h
  Steps-Good h (next steps step) = Step-Good step (Steps-Good h steps)

  -- No session has been opened, and every node has its own id.
  pub record IsFresh (s : System S R P) : Type 0 where
    pub ids : (m : ℕ) → (s.worlds m).id ≡ m
    pub no_sessions : (i : ℕ) → s.sessions i ≡ none

  IsFresh-Good : {s : System S R P} → IsFresh s → Good s
  IsFresh-Good f = (
    λ m. [],
    record {
      knows = λ m. record { once = λ b c i j e. elim i [ ]; recorded = λ b i. elim i [ ] };
      ids = f.ids;
      sessions = λ i b e. absurd (ground (arith, f.no_sessions i));
    },
  )

  -- In every state that a cluster can reach from one without vote sessions in which each node has its
  -- own id, two elections of one term whose victories were taken were won by the same node, as long
  -- as no response lowers a node's term, no counter of terms wraps around and a session sends its
  -- requests while its node is in the term in which it was opened. Requests may be answered late,
  -- repeatedly or never, responses may be heard in any order or lost, and all other handlers of the
  -- nodes may run in between.
  pub Steps-won_once :
      (s s' : System S R P) (i j : ℕ) (a b : Candidacy)
      → IsFresh s
      → Steps st members s s'
      → s'.sessions i ≡ some a
      → s'.sessions j ≡ some b
      → a.won ≡ true
      → b.won ≡ true
      → a.term ≡ b.term
      → a.owner ≡ b.owner
  Steps-won_once s s' i j a b fresh steps ea eb wa wb same =
      let (votes, h) = Steps-Good (IsFresh-Good fresh) steps in
      let ca = h.sessions i a ea in
      let cb = h.sessions j b eb in
      let (m, x, y) =
        shared_member ca.voters cb.voters members ca.distinct cb.distinct ca.among cb.among
          (omega (arith, ca.victory (inr wa), cb.victory (inr wb))) in
      (h.knows m).once (a.term, a.owner) (b.term, b.owner) (ca.voted m x) (cb.voted m y) same
