-- ===== src/Tasks/Interleaved.antt =====
-- The main task of a node and what its other tasks do, in any order of their steps.
pub mod Ensures
pub mod Votes
pub mod Moves
pub mod Once
pub mod Elections
pub mod Spawned
pub mod Race
use zeroraft.Base.{ℕ, ◌+◌, ◌≤◌, ◌<◌, ◌≡◌, List, ◌∷◌, Action, Out, ok, err, panic, blocked, after}
use zeroraft.Store.{State}
use zeroraft.Rpc.{Output}
use zeroraft.Node.{World, TaskState, u64_mod, on_state, change_state}
use zeroraft.Safety.{Ballot, Move}
use zeroraft.Safety.Moves.{IsOwn}
use zeroraft.Tasks.{Task, done, look, perform, cast, set_term, task_of}

-- The call ended by an error, a panic or a wait, in the state `u`.
abbrev pub Fails : {W : Type 0} → Out W (Unit {0}) → W → Type 0
Fails (ok _ w) u = ⊥
Fails (err _ w) u = u ≡ w
Fails (panic w) u = u ≡ w
Fails (blocked w) u = u ≡ w

module _ {S R P : Type 0} where
  -- A step of a task that is not the main one: the tasks of a vote or replication session.
  pub data Interferes (w : World S R P) : World S R P → Type 0 where
    -- The second step of `update_current_term`, with a term that is not lower than the node's.
    learns :
        {v : World S R P} (t : ℕ) → w.current_term ≤ t → v ≡ after (set_term t w) → Interferes w v
    turns : {v : World S R P} (s : TaskState) → v ≡ after (change_state s w) → Interferes w v
    writes : {v : World S R P} (m : Action S (Unit {0})) → v ≡ after (on_state m w) → Interferes w v
    sends : {v : World S R P} (o : Output R P) → v ≡ record w { sent = o ∷ w.sent } → Interferes w v
    -- Time passes, and the receiver of the outgoing requests may go away.
    elapses : {v : World S R P} → v.node ≡ w.node → v.sent ≡ w.sent → Interferes w v

infixl 5 ◌▸◌
module _ {S R P : Type 0} (st : State S R) where
  -- One step: what is left of the main task's handler, the shared state and the votes so far, newest
  -- first, before and after it.
  pub data Step
      : Task (World S R P)
        → World S R P
        → List Ballot
        → Task (World S R P)
        → World S R P
        → List Ballot
        → Type 0 where
    looks :
        {k : World S R P → Task (World S R P)} {t : Task (World S R P)} {w : World S R P}
        {vs : List Ballot}
        → t ≡ k w
        → Step (look k) w vs t w vs
    acts :
        {m : Action (World S R P) (Unit {0})} {t : Task (World S R P)} {w u : World S R P}
        {vs : List Ballot}
        → w.current_term + 1 < u64_mod
        → m w ≡ ok tt u
        → Step (perform m t) w vs t u vs
    fails :
        {m : Action (World S R P) (Unit {0})} {t : Task (World S R P)} {w u : World S R P}
        {vs : List Ballot}
        → w.current_term + 1 < u64_mod
        → Fails (m w) u
        → Step (perform m t) w vs done u vs
    casts :
        {f : World S R P → Ballot} {t : Task (World S R P)} {w : World S R P} {vs us : List Ballot}
        → us ≡ f w ∷ vs
        → Step (cast f t) w vs t w us
    meanwhile :
        {t : Task (World S R P)} {w u : World S R P} {vs : List Ballot}
        → Interferes w u
        → Step t w vs t u vs
    begins :
        {t : Task (World S R P)} {w : World S R P} {vs : List Ballot} (m : Move S R)
        → IsOwn m
        → t ≡ task_of st m
        → Step done w vs t w vs

  pub data Steps (t : Task (World S R P)) (w : World S R P) (vs : List Ballot)
      : Task (World S R P) → World S R P → List Ballot → Type 0 where
    here : Steps t w vs t w vs
    ◌▸◌ :
        {t₁ t₂ : Task (World S R P)} {w₁ w₂ : World S R P} {vs₁ vs₂ : List Ballot}
        → Steps t w vs t₁ w₁ vs₁
        → Step t₁ w₁ vs₁ t₂ w₂ vs₂
        → Steps t w vs t₂ w₂ vs₂
