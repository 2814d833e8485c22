-- ===== src/Role/Leader/Standby/First.antt =====
-- The first entry of a log, and the task that is to send it.
use zeroraft.Base.{ℕ, ◌≡◌, ◌≢◌, false, Bool, some, Option, panic, arith, lookup}
use zeroraft.Store.{State, NodeId}
use zeroraft.Store.Laws.{IsState}
use zeroraft.Role.Leader.{Lead}
use zeroraft.Role.Leader.Standby.{standby_round}

module _ {S R P : Type 0} {st : State S R} (laws : IsState 1 st) where
  open laws use {view}

  -- Over a lawful store that numbers its entries from 1, as the trait asks, and while nobody holds
  -- the guard of the peers: the task that is to bring a peer with the next index 1 up to date, and
  -- whose match index is not the leader's commit index, panics in its first round, since it asks
  -- for the term of an entry 0.
  pub standby_round-panic :
      (l : Lead S R P) (peer : NodeId) (m : Option ℕ) (signaled : Bool)
      → l.write_locked ≡ false
      → lookup peer l.peers ≡ some (1, m)
      → m ≢ some (view l.state).commit
      → standby_round st peer signaled l ≡ panic l
  unfolding standby_round
  standby_round-panic l peer m signaled free known behind =
      let c = laws.commit_lem l.state in let e = laws.entry_lem 0 l.state in ground arith
