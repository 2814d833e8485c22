-- ===== src/Role/Leader/Lock.antt =====
-- The guard around the peers' progress: what a response to entries does to it.
use zeroraft.Base.{
  ℕ, ◌+◌, ◌-◌, ◌<◌, ◌≡◌, refl, List, [], ◌∷◌, true, false, some, Option, blocked, arith, lookup,
  update,
}
use zeroraft.Store.{State}
use zeroraft.Rpc.{AppendEntriesResponse, AppendEntriesResponseReason}
use zeroraft.Node.{u64_mod}
use zeroraft.Role.Leader.Peers.{Progress}
use zeroraft.Role.Leader.{
  Lead, set_peer, set_lock, on_standby_response, send_heartbeat_to_peers, on_heartbeat_response,
}

pub lookup-update :
    {V : Type 0} (a : ℕ) (v w : V) (m : List (ℕ × V))
    → lookup a m ≡ some v
    → lookup a (update a w m) ≡ some w
lookup-update a v w [] h = cc
lookup-update a v w ((k, x) ∷ m) h = ground (arith, lookup-update a v w m)

module _ {S R P : Type 0} (st : State S R) where
  -- The first time that a peer takes entries, the task that hears of it waits for itself: it holds
  -- the write guard of the peers and waits for a read guard. By then it has set the peer's match
  -- index to that of the last entry taken, and its next index to twice the old one and the number
  -- of entries. This holds for a peer on record whose next index is not 0, while nobody holds the
  -- guard, and as long as no number overflows. From then on no heartbeat is sent and none is
  -- answered, since both wait for the guard as well.
  pub on_standby_response-deadlock :
      (l : Lead S R P) (r : AppendEntriesResponse) (n : ℕ) (m : Option ℕ)
      → r.reason ≡ AppendEntriesResponseReason.ok
      → l.write_locked ≡ false
      → lookup r.id l.peers ≡ some (n, m)
      → 0 < n
      → n + n + r.len < u64_mod
      → (l' : Lead S R P) × (on_standby_response st r l ≡ blocked l')
        × (lookup r.id l'.peers ≡ some (n + n + r.len, some (n + r.len - 1)))
        × (l'.world ≡ l.world)
        × (send_heartbeat_to_peers st l' ≡ blocked l')
        × ((q : AppendEntriesResponse) → on_heartbeat_response st q l' ≡ blocked l')
  unfolding on_standby_response send_heartbeat_to_peers on_heartbeat_response
  on_standby_response-deadlock l r n m e free known pos small =
      let p : Progress = (n + n + r.len, some (n + r.len - 1)) in
      let q : Progress = (n, some (n + r.len - 1)) in
      let l' : Lead S R P = set_peer r.id p (set_peer r.id q (set_lock true l)) in
      (
        l',
        ground arith,
        lookup-update r.id q p (update r.id q l.peers) (lookup-update r.id (n, m) q l.peers known),
        refl,
        refl,
        λ q. refl,
      )
