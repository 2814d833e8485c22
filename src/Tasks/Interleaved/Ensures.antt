-- ===== src/Tasks/Interleaved/Ensures.antt =====
-- What a task keeps up however other tasks come between its steps.
use zeroraft.Base.{
  ◌+◌, ◌≤◌, ◌<◌, ◌≡◌, refl, sym, ap, subst, List, [], ◌∷◌, Action, Out, ok, err, panic, blocked,
  after, modify, Bool, true, false, if◌then◌else◌, All, arith,
}
use zeroraft.Store.{State}
use zeroraft.Rpc.{Output}
use zeroraft.Node.{World, TaskState, u64_mod, send, on_state, change_state}
use zeroraft.Safety.{Ballot}
use zeroraft.Safety.Vote.{Recorded}
use zeroraft.Tasks.{Task, done, look, perform, cast}
use zeroraft.Tasks.Interleaved.{Interferes, learns, turns, writes, sends, elapses, Fails}

-- Ballots that agree in every term.
abbrev pub Agree : List Ballot → Type 0
Agree [] = Unit
Agree (b ∷ bs) = All (λ (c : Ballot). b.0 ≡ c.0 → b.1 ≡ c.1) bs × Agree bs

module _ {S R P : Type 0} where
  -- What other tasks leave as it is.
  abbrev pub Keeps : World S R P → World S R P → Type 0
  Keeps w v = (w.current_term ≤ v.current_term) × (v.voted_for ≡ w.voted_for) × (v.id ≡ w.id)

  pub Interferes-Keeps : {w v : World S R P} → Interferes w v → Keeps w v
  unfolding change_state on_state
  Interferes-Keeps (learns t h e) = ground arith
  Interferes-Keeps (turns s e) = ground arith
  Interferes-Keeps (writes m e) = ground arith
  Interferes-Keeps (sends o e) = ground arith
  Interferes-Keeps (elapses n s) = ground arith

  pub Keeps-trans : (w v u : World S R P) → Keeps w v → Keeps v u → Keeps w u
  Keeps-trans w v u h k = ground arith

Fails-after : {W : Type 0} (o : Out W (Unit {0})) (u : W) → Fails o u → u ≡ after o
Fails-after (ok a w) u f = absurd f
Fails-after (err x w) u f = f
Fails-after (panic w) u f = f
Fails-after (blocked w) u f = f

pub All-mono :
    {A : Type 0} (P Q : A → Type 0) (xs : List A) → ((a : A) → P a → Q a) → All P xs → All Q xs
All-mono P Q [] f h = tt
All-mono P Q (x ∷ xs) f (p, h) = (f x p, All-mono P Q xs f h)

module _ {S R P : Type 0} (st : State S R) where
  abbrev pub Inv : World S R P → List Ballot → Type 0
  Inv w vs = All (Recorded st w) vs × Agree vs

  -- However a task goes on, the votes agree at every step.
  unfoldable pub Ensures : Task (World S R P) → World S R P → List Ballot → Type 0
  Ensures done w vs = Inv w vs
  Ensures (look k) w vs = Inv w vs × ((v : World S R P) → Keeps w v → Ensures (k v) v vs)
  Ensures (perform m t) w vs =
      Inv w vs
      × ((v : World S R P)
          → Keeps w v
          → v.current_term + 1 < u64_mod
          → ((u : World S R P) → m v ≡ ok tt u → Ensures t u vs)
            × ((u : World S R P) → Fails (m v) u → Inv u vs))
  Ensures (cast f t) w vs = Inv w vs × ((v : World S R P) → Keeps w v → Ensures t v (f v ∷ vs))

  Recorded-kept : (w v : World S R P) (b : Ballot) → Keeps w v → Recorded st w b → Recorded st v b
  Recorded-kept w v b k r = ground arith

  pub Inv-kept : (w v : World S R P) (vs : List Ballot) → Keeps w v → Inv w vs → Inv v vs
  Inv-kept w v vs k (h, a) =
      (All-mono (Recorded st w) (Recorded st v) vs (λ b. Recorded-kept w v b k) h, a)

  pub Ensures-Inv :
      (t : Task (World S R P)) (w : World S R P) (vs : List Ballot) → Ensures t w vs → Inv w vs
  unfolding Ensures
  Ensures-Inv done w vs h = h
  Ensures-Inv (look k) w vs h = h.0
  Ensures-Inv (perform m t) w vs h = h.0
  Ensures-Inv (cast f t) w vs h = h.0

  pub Ensures-kept :
      (t : Task (World S R P)) (w v : World S R P) (vs : List Ballot)
      → Keeps w v
      → Ensures t w vs
      → Ensures t v vs
  unfolding Ensures
  Ensures-kept done w v vs k h = Inv-kept w v vs k h
  Ensures-kept (look f) w v vs k (i, h) = (Inv-kept w v vs k i, λ u l. h u (Keeps-trans w v u k l))
  Ensures-kept (perform m t) w v vs k (i, h) =
      (Inv-kept w v vs k i, λ u l. h u (Keeps-trans w v u k l))
  Ensures-kept (cast f t) w v vs k (i, h) =
      (Inv-kept w v vs k i, λ u l. h u (Keeps-trans w v u k l))

  -- A step that leaves the node's term and vote as they are.
  abbrev pub Quiet : Action (World S R P) (Unit {0}) → Type 0
  Quiet m = (v : World S R P) → Keeps v (after (m v))

  pub Ensures-Quiet :
      (m : Action (World S R P) (Unit {0})) (t : Task (World S R P)) (w : World S R P)
      (vs : List Ballot)
      → Quiet m
      → Inv w vs
      → ((u : World S R P) → Keeps w u → Ensures t u vs)
      → Ensures (perform m t) w vs
  unfolding Ensures
  Ensures-Quiet m t w vs quiet i h = (
    i,
    λ v k _. (
      λ u e. h u (Keeps-trans w v u k (subst (Keeps v) (ap after e) (quiet v))),
      λ u f.
          Inv-kept w u vs
            (Keeps-trans w v u k (subst (Keeps v) (sym (Fails-after (m v) u f)) (quiet v))) i,
    ),
  )

  pub Ensures-modify :
      (f : World S R P → World S R P) (t : Task (World S R P)) (w : World S R P) (vs : List Ballot)
      → Inv w vs
      → ((v : World S R P) → Keeps w v → v.current_term + 1 < u64_mod → Ensures t (f v) vs)
      → Ensures (perform (modify f) t) w vs
  unfolding Ensures
  Ensures-modify f t w vs i h =
      (i, λ v k b. (λ u e. subst (λ x. Ensures t x vs) (ap after e) (h v k b), λ u g. absurd g))

  pub Ensures-if :
      (b : Bool) (t u : Task (World S R P)) (w : World S R P) (vs : List Ballot)
      → (b ≡ true → Ensures t w vs)
      → (b ≡ false → Ensures u w vs)
      → Ensures (if b then t else u) w vs
  Ensures-if true t u w vs h k = h refl
  Ensures-if false t u w vs h k = k refl

  pub on_state-Quiet : (m : Action S (Unit {0})) → Quiet (on_state m)
  unfolding on_state
  on_state-Quiet m v = ground arith

  pub change_state-Quiet : (s : TaskState) → Quiet (change_state s)
  unfolding change_state
  change_state-Quiet s v = ground arith

  pub send-Quiet : (live : Bool) (o : Output R P) → Quiet (send live o)
  unfolding send
  send-Quiet live o v = ground arith

  -- The last step of a handler.
  pub Ensures-last :
      (m : Action (World S R P) (Unit {0})) (w : World S R P) (vs : List Ballot)
      → Quiet m
      → Inv w vs
      → Ensures (perform m done) w vs
  unfolding Ensures
  Ensures-last m w vs quiet i = Ensures-Quiet m done w vs quiet i (λ u k. Inv-kept w u vs k i)

  pub Ensures-look :
      (k : World S R P → Task (World S R P)) (w : World S R P) (vs : List Ballot)
      → Inv w vs
      → ((v : World S R P) → Keeps w v → Ensures (k v) v vs)
      → Ensures (look k) w vs
  unfolding Ensures
  Ensures-look k w vs i h = (i, h)
