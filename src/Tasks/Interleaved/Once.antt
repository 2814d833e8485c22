-- ===== src/Tasks/Interleaved/Once.antt =====
-- A node votes once in a term, however its tasks are interleaved.
use zeroraft.Base.{refl, sym, ap, ◌∙◌, subst, List, [], ◌∷◌, All-In, inl, inr, arith}
use zeroraft.Store.{State}
use zeroraft.Node.{World}
use zeroraft.Safety.{Ballot}
use zeroraft.Safety.Vote.{VotesOnce}
use zeroraft.Tasks.{Task, done}
use zeroraft.Tasks.Interleaved.{
  Step, looks, acts, fails, casts, meanwhile, begins, Steps, here, ◌▸◌,
}
use zeroraft.Tasks.Interleaved.Ensures.{
  Agree, Keeps, Ensures, Ensures-Inv, Ensures-kept, Interferes-Keeps,
}
use zeroraft.Tasks.Interleaved.Moves.{task_of-Ensures}

Agree-VotesOnce : (vs : List Ballot) → Agree vs → VotesOnce vs
Agree-VotesOnce [] a b c i j e = elim i [ ]
Agree-VotesOnce (v ∷ vs) (h, a) b c (inl p) (inl q) e = ap (λ x. x.1) p ∙ sym (ap (λ x. x.1) q)
Agree-VotesOnce (v ∷ vs) (h, a) b c (inl p) (inr j) e =
    ap (λ x. x.1) p ∙ All-In _ c vs h j (sym (ap (λ x. x.0) p) ∙ e)
Agree-VotesOnce (v ∷ vs) (h, a) b c (inr i) (inl q) e =
    sym (ap (λ x. x.1) q ∙ All-In _ b vs h i (sym (ap (λ x. x.0) q) ∙ sym e))
Agree-VotesOnce (v ∷ vs) (h, a) b c (inr i) (inr j) e = Agree-VotesOnce vs a b c i j e

module _ {S R P : Type 0} (st : State S R) where
  Keeps-refl : (w : World S R P) → Keeps w w
  Keeps-refl w = (omega arith, refl, refl)

  Step-Ensures :
      {t t' : Task (World S R P)} {w w' : World S R P} {vs vs' : List Ballot}
      → Step st t w vs t' w' vs'
      → Ensures st t w vs
      → Ensures st t' w' vs'
  unfolding Ensures
  Step-Ensures {w} {vs} (looks e) (i, h) =
      subst (λ t. Ensures st t w vs) (sym e) (h w (Keeps-refl w))
  Step-Ensures {w} {w'} (acts b e) (i, h) = (h w (Keeps-refl w) b).0 w' e
  Step-Ensures {w} {w'} (fails b e) (i, h) = (h w (Keeps-refl w) b).1 w' e
  Step-Ensures {t'} {w} (casts e) (i, h) =
      subst (λ us. Ensures st t' w us) (sym e) (h w (Keeps-refl w))
  Step-Ensures {t} {w} {w'} {vs} (meanwhile f) h = Ensures-kept st t w w' vs (Interferes-Keeps f) h
  Step-Ensures {w} {vs} (begins m main e) h =
      subst (λ t. Ensures st t w vs) (sym e) (task_of-Ensures st m w vs main h)

  Steps-Ensures :
      {t : Task (World S R P)} {w : World S R P} {vs : List Ballot} {t' : Task (World S R P)}
      {w' : World S R P} {vs' : List Ballot}
      → Steps st t w vs t' w' vs'
      → Ensures st t w vs
      → Ensures st t' w' vs'
  Steps-Ensures here h = h
  Steps-Ensures (steps ▸ step) h = Step-Ensures step (Steps-Ensures steps h)

  -- From any state in which the node's main task is between two handlers, and at any step on: two votes
  -- that the node has cast in the same term since then are for the same candidate, however the steps
  -- of the main task's handlers, which may fail anywhere, and those of its other tasks are
  -- interleaved, as long as no other task lowers the term and the counter of terms stays below its end.
  pub interleaved-VotesOnce :
      (w v : World S R P) (t : Task (World S R P)) (votes : List Ballot)
      → Steps st done w [] t v votes
      → VotesOnce votes
  unfolding Ensures
  interleaved-VotesOnce w v t votes steps =
      Agree-VotesOnce votes (Ensures-Inv st t v votes (Steps-Ensures steps (tt, tt))).1
