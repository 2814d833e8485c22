-- ===== src/Role/Rpc/Term.antt =====
-- The term of a node while it answers any RPC.
use zeroraft.Base.{◌≤◌, arith, after}
use zeroraft.Store.{State}
use zeroraft.Rpc.{PeerRpc, append_entries, request_vote, config, install_snapshot}
use zeroraft.Node.{World}
use zeroraft.Role.Rpc.{on_rpc}
use zeroraft.Role.Common.Term.{vote_term_le, append_term_le}

-- Whatever RPC a node is sent, and whatever the store does, an error or a panic included, the term
-- that the node has after it is at least the term that it had before.
pub on_rpc-term_le :
    {S R P : Type 0} (st : State S R) (rpc : PeerRpc R) (w : World S R P)
    → w.current_term ≤ (after (on_rpc st rpc w)).current_term
unfolding on_rpc
on_rpc-term_le st (append_entries request tx) w = append_term_le st w tx request
on_rpc-term_le st (request_vote request tx) w = vote_term_le st w tx request
on_rpc-term_le st (config _ _) w = ground arith
on_rpc-term_le st (install_snapshot _ _) w = ground arith
