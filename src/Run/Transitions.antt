-- ===== src/Run/Transitions.antt =====
-- How the role of a running node changes.
use zeroraft.Base.{
  ap, ◌∙◌, ℕ, ◌≡◌, refl, inl, inr, Option, some, Out, ok, err, panic, blocked, arith, Option-cases,
  subst, sym,
}
use zeroraft.Store.{State}
use zeroraft.Node.{World, TaskState, follower, candidate, leader, non_voter, shutdown}
use zeroraft.Role.Follower.{Following, follower_step}
use zeroraft.Role.Candidate.Loop.{Campaign, candidate_step}
use zeroraft.Role.Leader.Loop.{
  Leadership, leader_step, start_leading, announce, spawn_standby, spawn_standby-world,
}
use zeroraft.Role.Leader.{initialize}
use zeroraft.Role.Leader.Heartbeat.{send_heartbeat_to_peers-node}
use zeroraft.Run.{
  Running, following, campaigning, leading, stopped, NodeEvent, to_follower, to_candidate,
  to_leader, standby_starts, proceed, world_of, enter_role, after_following, after_campaigning,
  after_leading, run_step,
}
use zeroraft.Run.Roles.{MayBecome, follower_step-role, candidate_step-role, leader_step-role}

pub proceed-some :
    {W B : Type 0} (o : Out W (Unit {0})) (k : W → Option B) (b : B)
    → proceed o k ≡ some b
    → (w : W) × (o ≡ ok tt w) × (k w ≡ some b)
proceed-some (ok tt w) k b h = (w, refl, h)
proceed-some (err e w) k b h = cc
proceed-some (panic w) k b h = cc
proceed-some (blocked w) k b h = cc

module _ {S R P : Type 0} (st : State S R) where
  module _ (gen_range : ℕ → ℕ → ℕ) where
    -- The loop that runs is that of the role on record.
    abbrev pub IsConsistent : Running S R P → Type 0
    IsConsistent (following f) = f.current_state ≡ follower
    IsConsistent (campaigning c) = c.current_state ≡ candidate
    IsConsistent (leading l) = l.current_state ≡ leader
    IsConsistent (stopped w) = w.current_state ≡ shutdown

    announce-role :
        (w : World S R P) (l : Leadership S R P)
        → announce st gen_range w ≡ some l
        → l.current_state ≡ w.current_state
    unfolding announce
    announce-role w l e = elim (Option-cases (initialize st w)) [
      | inl n ↦ absurd (ground arith)
      | inr (l₀, i) ↦ ground (arith, send_heartbeat_to_peers-node st l₀)
    ]

    start_leading-role :
        (w : World S R P) (l : Leadership S R P)
        → start_leading st gen_range w ≡ some l
        → l.current_state ≡ w.current_state
    unfolding start_leading
    start_leading-role w l e = elim (Option-cases (announce st gen_range w)) [
      | inl n ↦ absurd (ground arith)
      | inr (c, i) ↦ ground (arith, announce-role w c i)
    ]

    enter_role-IsConsistent :
        (s : TaskState) (w : World S R P) (r : Running S R P)
        → w.current_state ≡ s
        → enter_role st gen_range s w ≡ some r
        → IsConsistent r × ((world_of r).current_state ≡ s)
    unfolding enter_role
    enter_role-IsConsistent follower w r h e = ground arith
    enter_role-IsConsistent candidate w r h e = ground arith
    enter_role-IsConsistent leader w r h e = elim (Option-cases (start_leading st gen_range w)) [
      | inl n ↦ absurd (ground arith)
      | inr (l, i) ↦ ground (arith, start_leading-role w l i)
    ]
    enter_role-IsConsistent non_voter w r h e = cc
    enter_role-IsConsistent shutdown w r h e = ground arith

    entered :
        (s : TaskState) (w : World S R P) (r : Running S R P)
        → w.current_state ≡ s
        → enter_role st gen_range w.current_state w ≡ some r
        → IsConsistent r × ((world_of r).current_state ≡ s)
    entered s w r h e =
        enter_role-IsConsistent s w r h (subst (λ t. enter_role st gen_range t w ≡ some r) h e)

    after_following-role :
        (s : TaskState) (x : Following S R P) (r : Running S R P)
        → x.current_state ≡ s
        → after_following st gen_range s x ≡ some r
        → IsConsistent r × ((world_of r).current_state ≡ s)
    unfolding after_following
    after_following-role follower x r h e = ground arith
    after_following-role candidate x r h e = entered candidate x.world r h e
    after_following-role leader x r h e = entered leader x.world r h e
    after_following-role non_voter x r h e = entered non_voter x.world r h e
    after_following-role shutdown x r h e = entered shutdown x.world r h e

    after_campaigning-role :
        (s : TaskState) (x : Campaign S R P) (r : Running S R P)
        → x.current_state ≡ s
        → after_campaigning st gen_range s x ≡ some r
        → IsConsistent r × ((world_of r).current_state ≡ s)
    unfolding after_campaigning
    after_campaigning-role candidate x r h e = ground arith
    after_campaigning-role follower x r h e = entered follower x.world r h e
    after_campaigning-role leader x r h e = entered leader x.world r h e
    after_campaigning-role non_voter x r h e = entered non_voter x.world r h e
    after_campaigning-role shutdown x r h e = entered shutdown x.world r h e

    after_leading-role :
        (s : TaskState) (x : Leadership S R P) (r : Running S R P)
        → x.current_state ≡ s
        → after_leading st gen_range s x ≡ some r
        → IsConsistent r × ((world_of r).current_state ≡ s)
    unfolding after_leading
    after_leading-role leader x r h e = ground arith
    after_leading-role follower x r h e = entered follower x.world r h e
    after_leading-role candidate x r h e = entered candidate x.world r h e
    after_leading-role non_voter x r h e = entered non_voter x.world r h e
    after_leading-role shutdown x r h e = entered shutdown x.world r h e

    MayBecome-refl :
        (r : Running S R P)
        → IsConsistent r
        → MayBecome (world_of r).current_state (world_of r).current_state
    MayBecome-refl (following x) c = rw c (inl refl)
    MayBecome-refl (campaigning x) c = rw c (inr (inl refl))
    MayBecome-refl (leading x) c = rw c (inr (inl refl))
    MayBecome-refl (stopped x) c = rw c refl

    stays :
        (r r' : Running S R P)
        → IsConsistent r
        → some r ≡ some r'
        → IsConsistent r' × MayBecome (world_of r).current_state (world_of r').current_state
    stays r r' c e =
        subst
          (λ x. IsConsistent x × MayBecome (world_of r).current_state (world_of x).current_state)
          (cc) (c, MayBecome-refl r c)

    spawned :
        (l : Leadership S R P) (r' : Running S R P)
        → l.current_state ≡ leader
        → some (leading (spawn_standby st gen_range l)) ≡ some r'
        → IsConsistent r' × MayBecome l.current_state (world_of r').current_state
    spawned l r' c e =
        let same = ap (λ w. w.current_state) (spawn_standby-world st gen_range l) in
        let q : leading (spawn_standby st gen_range l) ≡ r' = cc in
        subst (λ x. IsConsistent x × MayBecome l.current_state (world_of x).current_state) q
          (
            same ∙ c,
            subst (λ s. MayBecome l.current_state s) (sym same) (MayBecome-refl (leading l) c),
          )

    -- If the loop that runs is that of the role on record, an event that the node survives leaves
    -- it so, and the role changes as the protocol has it: only a candidate becomes a leader, only a
    -- follower becomes a candidate, and a node that was shut down stays so.
    pub run_step-MayBecome :
        (event : NodeEvent R) (r r' : Running S R P)
        → IsConsistent r
        → run_step st gen_range event r ≡ some r'
        → IsConsistent r' × MayBecome (world_of r).current_state (world_of r').current_state
    unfolding run_step
    run_step-MayBecome (to_follower ev) (following f) r' c e =
        let (f', q, k) =
          proceed-some (follower_step st gen_range ev f)
            (λ x. after_following st gen_range x.current_state x) r' e in
        let m = follower_step-role st gen_range ev f f' c q in
        let (ok', same) = after_following-role f'.current_state f' r' refl k in
        (
          ok',
          subst (λ t. MayBecome t (world_of r').current_state) (sym c)
              (subst (MayBecome follower) (sym same) m),
        )
    run_step-MayBecome (to_candidate ev) (campaigning c₀) r' c e =
        let (c₀', q, k) =
          proceed-some (candidate_step st gen_range ev c₀)
            (λ x. after_campaigning st gen_range x.current_state x) r' e in
        let m = candidate_step-role st gen_range ev c₀ c₀' c q in
        let (ok', same) = after_campaigning-role c₀'.current_state c₀' r' refl k in
        (
          ok',
          subst (λ t. MayBecome t (world_of r').current_state) (sym c)
              (subst (MayBecome candidate) (sym same) m),
        )
    run_step-MayBecome (to_leader ev) (leading l) r' c e =
        let (l', q, k) =
          proceed-some (leader_step st gen_range ev l)
            (λ x. after_leading st gen_range x.current_state x) r' e in
        let m = leader_step-role st gen_range ev l l' c q in
        let (ok', same) = after_leading-role l'.current_state l' r' refl k in
        (
          ok',
          subst (λ t. MayBecome t (world_of r').current_state) (sym c)
              (subst (MayBecome leader) (sym same) m),
        )
    run_step-MayBecome standby_starts (leading l) r' c e = spawned l r' c e
    run_step-MayBecome standby_starts (following x) r' c e = stays (following x) r' c e
    run_step-MayBecome standby_starts (campaigning x) r' c e = stays (campaigning x) r' c e
    run_step-MayBecome standby_starts (stopped x) r' c e = stays (stopped x) r' c e
    run_step-MayBecome (to_follower ev) (campaigning x) r' c e = stays (campaigning x) r' c e
    run_step-MayBecome (to_follower ev) (leading x) r' c e = stays (leading x) r' c e
    run_step-MayBecome (to_follower ev) (stopped x) r' c e = stays (stopped x) r' c e
    run_step-MayBecome (to_candidate ev) (following x) r' c e = stays (following x) r' c e
    run_step-MayBecome (to_candidate ev) (leading x) r' c e = stays (leading x) r' c e
    run_step-MayBecome (to_candidate ev) (stopped x) r' c e = stays (stopped x) r' c e
    run_step-MayBecome (to_leader ev) (following x) r' c e = stays (following x) r' c e
    run_step-MayBecome (to_leader ev) (campaigning x) r' c e = stays (campaigning x) r' c e
    run_step-MayBecome (to_leader ev) (stopped x) r' c e = stays (stopped x) r' c e
