-- ===== src/Safety/Moves.antt =====
-- What the tasks of the sessions do to the node, told as moves.
pub mod Tasks
use zeroraft.Base.{All, ℕ, ◌≡◌, refl, List, [], ◌∷◌, ◌++◌, ok, after, arith, ap, ◌∙◌, Option, some}
use zeroraft.Store.{State}
use zeroraft.Node.{World, follower, candidate, leader, shutdown}
use zeroraft.Rpc.{PeerRpc, append_entries, request_vote, ClientRequest}
use zeroraft.Role.Rpc.{on_rpc, redirect}
use zeroraft.Safety.{
  Move, vote_request, append_request, campaign, learn_term, turn, write, make, play,
}

-- The same node at the same time; what was sent may differ.
abbrev pub Agrees : {S R P : Type 0} → World S R P → World S R P → Type 0
Agrees w v = (w.node ≡ v.node) × (w.now ≡ v.now)

-- Every move but that of the tasks that hear of another term in a response.
abbrev pub IsOwn : {S R : Type 0} → Move S R → Type 0
IsOwn (learn_term t) = ⊥
IsOwn _ = Unit
