-- ===== src/Role/Follower/Late.antt =====
-- A follower whose election timer runs out while it is busy.
use zeroraft.Base.{ℕ, ◌+◌, ◌<◌, ◌≡◌, true, ok, panic, arith, some, Option-cases, inl, inr, after}
use zeroraft.Node.{World}
use zeroraft.Store.{State}
use zeroraft.Rpc.{ClientRequest}
use zeroraft.Timeout.{get_remaining}
use zeroraft.Timeout.Laws.{get_remaining-none_iff}
use zeroraft.Role.Rpc.{redirect}
use zeroraft.Role.Follower.{
  on_world, Following, Event, in_client_request, follower_round, follower_step,
}

module _ {S R P : Type 0} where
  redirect-now :
      (w : World S R P) (request : ClientRequest R)
      → request.response_tx.live ≡ true
      → (w' : World S R P) × (redirect request w ≡ ok tt w') × (w'.now ≡ w.now)
  unfolding redirect
  redirect-now w request live = elim (Option-cases w.leader_id) [
    | inl q ↦ (after (redirect request w), ground arith, ground arith)
    | inr q ↦ (after (redirect request w), ground arith, ground arith)
  ]

  redirecting :
      (st : State S R) (gen_range : ℕ → ℕ → ℕ) (f : Following S R P) (request : ClientRequest R)
      (w' : World S R P)
      → redirect request f.world ≡ ok tt w'
      → follower_step st gen_range (in_client_request request) f ≡ ok tt (record f { world = w' })
  unfolding follower_step on_world
  redirecting st gen_range f request w' h = ground arith

  -- If a follower whose timer can still be read redirects a client at a time past the end of the
  -- timer, which the redirection does not reset, then it panics on the next round, whatever event
  -- comes: it reads the time that the timer has left.
  pub follower_round-late :
      (st : State S R) (gen_range : ℕ → ℕ → ℕ) (f : Following S R P) (request : ClientRequest R)
      (later last : ℕ) (event : Event R)
      → request.response_tx.live ≡ true
      → (left : ℕ) → get_remaining f.now f.election_timeout ≡ some left
      → f.election_timeout.started + f.election_timeout.current_interval < later
      → (f' : Following S R P) × (follower_round st gen_range later (in_client_request request) f
          ≡ ok tt f')
        × (follower_round st gen_range last event f' ≡ panic f')
  unfolding follower_round
  follower_round-late st gen_range f request later last event live left readable late =
      let dead = (get_remaining-none_iff later f.election_timeout).1 late in
      let (w', answered, same) = redirect-now (record f.world { now = later }) request live in
      let stepped =
        redirecting st gen_range (record f { world = record f.world { now = later } }) request w'
          answered in
      (record f { world = w' }, ground arith, ground arith)
