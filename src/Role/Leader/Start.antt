-- ===== src/Role/Leader/Start.antt =====
-- What a leader takes for stale right after it was elected.
use zeroraft.Base.{
  ℕ, ◌+◌, ◌≤◌, ◌<◌, keys, ◌≡◌, refl, [], ◌∷◌, some, none, ok, arith, false, after, ap, ◌∙◌, inl,
  inr, Option-cases,
}
use zeroraft.Role.Leader.Heartbeat.{send_heartbeat_to_peers-session}
use zeroraft.Role.Leader.Loop.{
  Leadership, announce, start_leading, spawn_standby, Event, leader_step,
}
use zeroraft.Role.Leader.Standby.{spawned, start_standby_update_for_peers}
use zeroraft.Store.{NodeId, HashMap, State}
use zeroraft.Node.{World}
use zeroraft.Role.Leader.Peers.{start_peers, stale_keys}
use zeroraft.Role.Leader.{Lead, initialize, get_stale_peers, send_heartbeat_to_peers}

stale_keys-start_peers :
    {V : Type 0} (id : NodeId) (n last : ℕ) (m : HashMap V)
    → last < n
    → stale_keys last (start_peers id n m) ≡ []
unfolding stale_keys start_peers
stale_keys-start_peers id n last [] h = refl
stale_keys-start_peers id n last ((k, v) ∷ m) h =
    ground (arith, stale_keys-start_peers id n last m h)

stale_keys-all :
    {V : Type 0} (id : NodeId) (n last : ℕ) (m : HashMap V)
    → n ≤ last
    → stale_keys last (start_peers id n m) ≡ keys (start_peers id n m)
unfolding stale_keys start_peers
stale_keys-all id n last [] h = refl
stale_keys-all id n last ((k, v) ∷ m) h = ground (arith, stale_keys-all id n last m h)

module _ {S R P : Type 0} (st : State S R) (gen_range : ℕ → ℕ → ℕ) where
  announce-lead :
      (w : World S R P) (l : Lead S R P) (c : Leadership S R P)
      → initialize st w ≡ some l
      → announce st gen_range w ≡ some c
      → (c.lead ≡ after (send_heartbeat_to_peers st l)) × (c.standby ≡ none)
  unfolding announce
  announce-lead w l c i e = ground arith

  initialize_lem :
      (w : World S R P) (l : Lead S R P)
      → initialize st w ≡ some l
      → (l.write_locked ≡ false)
        × (l.peers
            ≡ start_peers w.id (st.get_last_commit_index w.state + 1) (st.get_membership w.state))
        × (l.world ≡ w)
  unfolding initialize
  initialize_lem w l e = ground arith

  not_announced :
      (w : World S R P) (c : Leadership S R P)
      → initialize st w ≡ none
      → announce st gen_range w ≡ some c
      → ⊥
  unfolding announce
  not_announced w c n e = ground arith

  entered :
      (w : World S R P) (c : Leadership S R P)
      → start_leading st gen_range w ≡ some c
      → (c.write_locked ≡ false)
        × (c.peers
            ≡ start_peers w.id (st.get_last_commit_index w.state + 1) (st.get_membership w.state))
        × (c.standby ≡ none)
  unfolding start_leading
  entered w c e = elim (Option-cases (initialize st w)) [
    | inl n ↦ absurd (not_announced w c n e)
    | inr (l, i) ↦
        let (lead, none_yet) = announce-lead w l c i e in
        let (free, peers, same) = initialize_lem w l i in
        let session : c.session ≡ l.session =
          ap (λ x. x.session) lead ∙ send_heartbeat_to_peers-session st l in
        (ground arith, ground arith, none_yet)
  ]

  leader_step-standby :
      (event : Event R) (c c' : Leadership S R P)
      → leader_step st gen_range event c ≡ ok tt c'
      → c'.standby ≡ c.standby
  unfolding leader_step
  leader_step-standby event c c' e = ground arith

  -- A leader that has entered its loop has not looked for stale peers yet. When the task that does so
  -- gets its turn, with the peers' progress as it was at the start and the guard of the peers free: if
  -- the commit index has not risen since, the task spawns no task that would bring a peer up to
  -- date, whatever the leader's log is; if it has, it spawns one for every peer but the node
  -- itself. And it looks but once: none of the events of the loop changes the tasks, and nor does
  -- another turn.
  pub start_leading-standby :
      (w : World S R P) (c d : Leadership S R P)
      → start_leading st gen_range w ≡ some c
      → d.session ≡ c.session
      → d.standby ≡ none
      → let d' = spawn_standby st gen_range d in
        (c.standby ≡ none)
        × (st.get_last_commit_index d.state ≤ st.get_last_commit_index w.state
            → d'.standby ≡ some [])
        × (st.get_last_commit_index w.state < st.get_last_commit_index d.state
            → d'.standby ≡ some (spawned (keys d.peers)))
        × (spawn_standby st gen_range d' ≡ d')
        × ((event : Event R) (c₁ c₂ : Leadership S R P)
            → leader_step st gen_range event c₁ ≡ ok tt c₂
            → c₂.standby ≡ c₁.standby)
  unfolding spawn_standby start_standby_update_for_peers get_stale_peers
  start_leading-standby w c d e same fresh =
      let (free, peers, none_yet) = entered w c e in
      let last = st.get_last_commit_index w.state in
      let now = st.get_last_commit_index d.state in
      let members = st.get_membership w.state in
      let free' : d.write_locked ≡ false = ap (λ s. s.write_locked) same ∙ free in
      let peers' : d.peers ≡ start_peers w.id (last + 1) members = ap (λ s. s.peers) same ∙ peers in
      (
        none_yet,
        λ h. ground (arith, stale_keys-start_peers w.id (last + 1) now members (omega arith)),
        λ h. ground (arith, stale_keys-all w.id (last + 1) now members (omega arith)),
        ground arith,
        leader_step-standby,
      )
