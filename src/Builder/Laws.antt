-- ===== src/Builder/Laws.antt =====
-- What a node that was just built knows.
use zeroraft.Base.{◌≡◌, refl, [], ◌∷◌, none, ok, arith}
use zeroraft.Store.{HashMap, SocketAddr}
use zeroraft.Memory.{MemoryState, memory, set_initial_membership}
use zeroraft.Node.{Node, follower}
use zeroraft.Builder.{RaftNodeBuilder, node_of, build}

-- The members that a node starts with.
abbrev pub members : HashMap SocketAddr → HashMap SocketAddr → HashMap SocketAddr
members [] seeds = seeds
members (m ∷ ms) seeds = m ∷ ms

abbrev seeded : {R C : Type 0} → RaftNodeBuilder (MemoryState R) C → MemoryState R
seeded b = record b.state { membership = members b.state.membership b.seeds }

build-seeded :
    {R C : Type 0} (b : RaftNodeBuilder (MemoryState R) C) (m : HashMap SocketAddr)
    → b.state.membership ≡ m
    → build memory b ≡ ok (node_of memory b (seeded b), b.channels) (seeded b)
unfolding build set_initial_membership
build-seeded b [] e = ground arith
build-seeded b (x ∷ xs) e = ground arith

-- Over the in-memory store building never fails, the node gets the builder's channels, and starts as a follower that knows no
-- leader, in the stored term, with the stored vote, and with the stored membership, or the seeds if
-- that is empty; the rest of the store is as it was.
build_lem :
    {R C : Type 0} (b : RaftNodeBuilder (MemoryState R) C)
    → (n : Node (MemoryState R)) × (build memory b ≡ ok (n, b.channels) n.state)
      × (n.id ≡ b.id)
      × (n.current_state ≡ follower)
      × (n.leader_id ≡ none)
      × (n.current_term ≡ b.state.current_term)
      × (n.voted_for ≡ b.state.voted_for)
      × (n.state ≡ record b.state { membership = members b.state.membership b.seeds })
unfolding node_of
build_lem b = (
  node_of memory b (seeded b),
  build-seeded b b.state.membership refl,
  refl,
  refl,
  refl,
  refl,
  refl,
  refl,
)
