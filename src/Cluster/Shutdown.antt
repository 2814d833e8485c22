-- ===== src/Cluster/Shutdown.antt =====
-- `RaftNodeCluster::shutdown`: who is told, and what a second call meets.
use zeroraft.Base.{
  ℕ, ◌≤◌, ◌≡◌, refl, ap, sym, subst, List, [], ◌∷◌, none, some, All, length, ◌∙◌, ◌++◌, ◌⊎◌, inl,
  inr, arith, ok, blocked,
}
use mathlib.Core.Path.{subst₂}
use zeroraft.Store.{NodeId, HashMap}
use zeroraft.Channels.{Mpsc, Channels, put, create}
use zeroraft.Channels
use zeroraft.Channels.Laws.{IsMpsc, HasRoom}
use zeroraft.Server.Build.{RaftNodeServer, Defaults}
use zeroraft.Server.Build
use zeroraft.Cluster.{RaftNodeCluster, shutdown_each, send_kill, start, shutdown}

module _ {mpsc : Mpsc} {R : Type 0} (laws : IsMpsc mpsc) where
  -- The channel for shutdown signals holds `signals`, and no more than one.
  abbrev pub Holds : List (Unit {0}) → RaftNodeServer mpsc R → Type 0
  Holds signals s =
      (laws.held s.channels.shutdown_signals ≡ signals)
      × (laws.capacity s.channels.shutdown_signals ≡ some 1)

  -- The second list has the servers of the first, unchanged but for one signal that each was sent.
  abbrev pub Told : HashMap (RaftNodeServer mpsc R) → HashMap (RaftNodeServer mpsc R) → Type 0
  Told [] [] = Unit
  Told [] (_ ∷ _) = ⊥
  Told (_ ∷ _) [] = ⊥
  Told ((i, s) ∷ rest) ((j, t) ∷ rest') =
      (j ≡ i)
      × (t ≡ record s {
        channels = record s.channels { shutdown_signals = t.channels.shutdown_signals };
      })
      × Holds (tt ∷ []) t
      × Told rest rest'

  module _ (d : Defaults) where
    room :
        (s : RaftNodeServer mpsc R)
        → Holds [] s
        → HasRoom
            (laws.capacity s.channels.shutdown_signals)
            (length (laws.held s.channels.shutdown_signals))
    room s (empty, one) = subst₂ (λ c h. HasRoom c (length h)) (sym one) (sym empty) (omega arith)

    shutdown_one :
        (s : RaftNodeServer mpsc R)
        → Holds [] s
        → (q : mpsc.Queue (Unit {0})) × (Build.shutdown mpsc d s
            ≡ ok tt (record s { channels = record s.channels { shutdown_signals = q } }))
          × (laws.held q ≡ tt ∷ [])
          × (laws.capacity q ≡ some 1)
    unfolding Build.shutdown Channels.shutdown put
    shutdown_one s (empty, one) =
        let (q, sent, holds, bound) =
          laws.sends tt s.channels.shutdown_signals (room s (empty, one)) in
        (q, ground (arith, sent), holds ∙ ap (λ h. h ++ tt ∷ []) empty, bound ∙ one)

    shutdown_waits :
        (s : RaftNodeServer mpsc R) → Holds (tt ∷ []) s → Build.shutdown mpsc d s ≡ blocked s
    unfolding Build.shutdown Channels.shutdown put
    shutdown_waits s (full, one) =
        let waits =
          laws.send_waits tt s.channels.shutdown_signals 1 one
            (subst (λ h. 1 ≤ length h) (sym full) (omega arith)) in
        ground (arith, waits)

    abbrev Idle : NodeId × RaftNodeServer mpsc R → Type 0
    Idle entry = Holds [] entry.1

    shutdown_each-Told :
        (servers : HashMap (RaftNodeServer mpsc R))
        → All Idle servers
        → (after : HashMap (RaftNodeServer mpsc R)) × (shutdown_each mpsc d servers ≡ ok tt after)
          × Told servers after
    unfolding shutdown_each
    shutdown_each-Told [] h = ([], refl, tt)
    shutdown_each-Told ((i, s) ∷ rest) (idle, h) =
        let (q, told, holds, bound) = shutdown_one s idle in
        let (after, all, them) = shutdown_each-Told rest h in
        (
          (i, record s { channels = record s.channels { shutdown_signals = q } }) ∷ after,
          ground (arith, told, all),
          (refl, refl, (holds, bound), them),
        )

    -- If the first server has not taken its signal, the call waits there.
    shutdown_each_waits :
        (servers after : HashMap (RaftNodeServer mpsc R))
        → Told servers after
        → (servers ≡ []) ⊎ (shutdown_each mpsc d after ≡ blocked after)
    unfolding shutdown_each
    shutdown_each_waits [] [] h = inl refl
    shutdown_each_waits [] (_ ∷ _) h = absurd h
    shutdown_each_waits (_ ∷ _) [] h = absurd h
    shutdown_each_waits ((i, s) ∷ rest) ((j, t) ∷ rest') (_, _, holds, _) =
        inr (ground (arith, shutdown_waits t holds))

    -- The shutdown of a cluster that was started, whose servers have no signal waiting, returns: each
    -- server has been sent one signal and is otherwise unchanged, and the kill signal is used up. If
    -- shutdown is called again before the servers run, it waits, unless there is no server.
    pub start-shutdown :
        (P : Type 0) (gen_range : ℕ → ℕ → ℕ) (now : ℕ) (c : RaftNodeCluster mpsc R)
        → All Idle c.servers
        → (after : RaftNodeCluster mpsc R) × (shutdown mpsc d
              (start mpsc d {P = P} gen_range now c).0
            ≡ ok tt after)
          × Told c.servers after.servers
          × (after.kill_tx ≡ none)
          × ((c.servers ≡ []) ⊎ (shutdown mpsc d after ≡ blocked after))
    unfolding shutdown start send_kill
    start-shutdown P gen_range now c h =
        let (servers, all, told) = shutdown_each-Told c.servers h in
        (
          record { servers = servers; kill_tx = none },
          ground (arith, all),
          told,
          refl,
          elim (shutdown_each_waits c.servers servers told) [
            | inl none_there ↦ inl none_there
            | inr waits ↦ inr (ground (arith, waits))
          ],
        )
