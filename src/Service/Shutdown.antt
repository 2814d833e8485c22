-- ===== src/Service/Shutdown.antt =====
-- `RaftNode::shutdown` of zeroraft/src/node.rs, up to the end of the node's loop.
use zeroraft.Base.{◌∙◌, some, none, ℕ, ◌≡◌, refl, [], ok, blocked, arith}
use zeroraft.Store.{State}
use zeroraft.Node.{World, shutdown}
use zeroraft.Channels.{Mpsc, Channels}
use zeroraft.Channels.Laws.{IsMpsc}
use zeroraft.Channels
use zeroraft.Role.Follower.{follower_step}
use zeroraft.Role.Candidate.Loop.{candidate_step}
use zeroraft.Role.Leader.Loop.{leader_step}
use zeroraft.Run.{Running, following, campaigning, leading, stopped, world_of}
use zeroraft.Service.{poll, Arm, served, shutdown_arm, ended}

-- The node's loop is not over.
abbrev pub IsLive : {S R P : Type 0} → Running S R P → Type 0
IsLive (stopped w) = ⊥
IsLive _ = Unit

-- The node is told to shut down and nothing else.
abbrev pub stopped_world : {S R P : Type 0} → World S R P → World S R P
stopped_world w = record w { node = record w.node { current_state = shutdown } }

module _ (mpsc : Mpsc) (laws : IsMpsc mpsc) where
  open laws use {held, capacity}

  -- The channel of a signal takes one, makes a second wait, and is empty when the first is read.
  one_signal :
      (q₀ : mpsc.Queue (Unit {0}))
      → held q₀ ≡ []
      → capacity q₀ ≡ some 1
      → (q : mpsc.Queue (Unit {0})) × (q₁ : mpsc.Queue (Unit {0})) × (mpsc.send tt q₀ ≡ some q)
        × (mpsc.send tt q ≡ none)
        × (mpsc.recv q ≡ some (tt, q₁))
        × (held q₁ ≡ [])
  one_signal q₀ none_left one =
      let (q, s, h, n) = laws.sends tt q₀ (rw (none_left, one) (omega arith)) in
      let (q₁, t, h₁, _) = laws.receives q tt [] (rw (h, none_left) refl) in
      (q, q₁, s, laws.send_waits tt q 1 (n ∙ one) (rw (h, none_left) (omega arith)), t, h₁)

module _ {S R P : Type 0} (mpsc : Mpsc) (laws : IsMpsc mpsc) (st : State S R)
    (gen_range : ℕ → ℕ → ℕ) where
  open laws use {held, capacity}

  reads_signal :
      (r : Running S R P) (c : Channels mpsc R) (q : mpsc.Queue (Unit {0}))
      → IsLive r
      → mpsc.recv c.shutdown_signals ≡ some (tt, q)
      → poll mpsc st gen_range shutdown_arm r c
        ≡ served (record {
          running = stopped (stopped_world (world_of r));
          channels = record c { shutdown_signals = q };
        })
  unfolding poll follower_step candidate_step leader_step
  reads_signal (following f) c q live e = ground arith
  reads_signal (campaigning x) c q live e = ground arith
  reads_signal (leading l) c q live e = ground arith
  reads_signal (stopped w) c q live e = elim live [ ]

  -- A node in any role with no shutdown pending accepts one at once. A second one before the first is
  -- read waits. When the loop reads it, the signal is gone, the node is in the state `Shutdown` and its
  -- loop is over, nothing else of the node being changed; from then on it takes no message.
  pub shutdown_stops :
      (r : Running S R P) (c : Channels mpsc R)
      → IsLive r
      → held c.shutdown_signals ≡ []
      → capacity c.shutdown_signals ≡ some 1
      → (c' : Channels mpsc R) × (c'' : Channels mpsc R) × (Channels.shutdown mpsc c ≡ ok tt c')
        × (Channels.shutdown mpsc c' ≡ blocked c')
        × (poll mpsc st gen_range shutdown_arm r c'
            ≡ served (record { running = stopped (stopped_world (world_of r)); channels = c'' }))
        × (held c''.shutdown_signals ≡ [])
        × ((arm : Arm)
            → poll mpsc st gen_range arm (stopped (stopped_world (world_of r))) c'' ≡ ended)
  unfolding Channels.shutdown poll
  shutdown_stops r c live none_left one =
      let (q, q₁, s, full, t, h) = one_signal mpsc laws c.shutdown_signals none_left one in
      (
        record c { shutdown_signals = q },
        record c { shutdown_signals = q₁ },
        rw s refl,
        rw full refl,
        reads_signal r (record c { shutdown_signals = q }) q₁ live t,
        h,
        λ arm. refl,
      )
