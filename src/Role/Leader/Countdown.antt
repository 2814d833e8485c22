-- ===== src/Role/Leader/Countdown.antt =====
-- What refused heartbeats do to the next index of a peer.
use zeroraft.Base.{
  ℕ, zero, suc, ◌<◌, ◌≡◌, refl, List, [], ◌∷◌, false, Option, some, All, panic, ok, arith, length,
  subst, sym, lookup,
}
use zeroraft.Store.{State, NodeId}
use zeroraft.Rpc.{AppendEntriesResponse, AppendEntriesResponseReason}
use zeroraft.Role.Candidate.{next}
use zeroraft.Role.Leader.Lock.{lookup-update}
use zeroraft.Role.Leader.{Lead, set_peer, set_lock, on_heartbeat_response, collect_responses}

abbrev pub IsMismatchFrom : NodeId → AppendEntriesResponse → Type 0
IsMismatchFrom id r = (r.id ≡ id) × (r.reason ≡ AppendEntriesResponseReason.log_mismatch)

module _ {S R P : Type 0} (st : State S R) where
  one_less :
      (r : AppendEntriesResponse) (l : Lead S R P) (n : ℕ) (m : Option ℕ)
      → r.reason ≡ AppendEntriesResponseReason.log_mismatch
      → l.write_locked ≡ false
      → lookup r.id l.peers ≡ some (suc n, m)
      → (l' : Lead S R P) × (on_heartbeat_response st r l ≡ ok next l')
        × (l'.write_locked ≡ false)
        × (lookup r.id l'.peers ≡ some (n, m))
  unfolding on_heartbeat_response
  one_less r l n m e free known = (
    set_lock false (set_peer r.id (n, m) l),
    ground arith,
    refl,
    lookup-update r.id (suc n, m) (n, m) l.peers known,
  )

  no_less :
      (r : AppendEntriesResponse) (l : Lead S R P) (m : Option ℕ)
      → r.reason ≡ AppendEntriesResponseReason.log_mismatch
      → l.write_locked ≡ false
      → lookup r.id l.peers ≡ some (0, m)
      → on_heartbeat_response st r l ≡ panic l
  unfolding on_heartbeat_response
  no_less r l m e free known = ground arith

  -- The loop over the responses to heartbeats panics if they are refusals by one peer and more than
  -- that peer's next index: each takes the next index one down, and at 0 the subtraction overflows.
  pub mismatches_panic :
      (rs : List AppendEntriesResponse) (l : Lead S R P) (id : NodeId) (n : ℕ) (m : Option ℕ)
      → All (IsMismatchFrom id) rs
      → l.write_locked ≡ false
      → lookup id l.peers ≡ some (n, m)
      → n < length rs
      → (l' : Lead S R P) × (collect_responses (on_heartbeat_response st) rs l ≡ panic l')
  unfolding collect_responses
  mismatches_panic [] l id n m a free known h = absurd (omega arith)
  mismatches_panic (r ∷ rs) l id zero m a free known h =
      let at_r = subst (λ k. lookup k l.peers ≡ some (0, m)) (sym a.0.0) known in
      (l, rw (no_less r l m a.0.1 free at_r, collect_responses))
  mismatches_panic (r ∷ rs) l id (suc n) m a free known h =
      let at_r = subst (λ k. lookup k l.peers ≡ some (suc n, m)) (sym a.0.0) known in
      let (l', step, free', known') = one_less r l n m a.0.1 free at_r in
      let at_id = subst (λ k. lookup k l'.peers ≡ some (n, m)) a.0.0 known' in
      rw (step, collect_responses) (mismatches_panic rs l' id n m a.1 free' at_id (omega arith))
