-- ===== src/Safety/Moves/Tasks.antt =====
-- The tasks that a candidate and a leader spawn, and the moves that they amount to.
use zeroraft.Node.{World}
use zeroraft.Base.{Bool-cases, inl, inr, ◌⊎◌, refl, ◌≡◌, after, arith}
use zeroraft.Store.{State}
use zeroraft.Rpc.{
  RequestVoteResponse, RequestVoteResponseReason, AppendEntriesResponse,
  AppendEntriesResponseReason,
}
use zeroraft.Base.{ℕ}
use zeroraft.Role.Candidate.{Election, on_vote_response}
use zeroraft.Role.Leader.{Lead, on_heartbeat_response}
use zeroraft.Safety.{learn_term, make}
use zeroraft.Safety.Moves.{Agrees}

-- Nothing, or the term of the response and a step down, is done to the node.
abbrev pub Learns : {S R P : Type 0} → State S R → ℕ → World S R P → World S R P → Type 0
Learns st t w v = (Agrees w v) ⊎ (Agrees (make st (learn_term t) w) v)

module _ {S R P : Type 0} (st : State S R) where
  -- One response to a vote request or to a heartbeat, be it handled with success, with an error, a
  -- panic or a wait, does nothing to the node at all, or what the move that takes the response's
  -- term does.
  on_response-Learns :
      (peers_len : ℕ) (r : RequestVoteResponse) (e : Election S R P) (q : AppendEntriesResponse)
      (l : Lead S R P)
      → Learns st r.term e.world (after (on_vote_response st peers_len r e)).world
        × Learns st q.term l.world (after (on_heartbeat_response st q l)).world
  unfolding on_vote_response on_heartbeat_response make
  on_response-Learns n r e q l = (handled r.reason refl, beat q.reason refl)
    where
      handled :
          (x : RequestVoteResponseReason)
          → r.reason ≡ x
          → Learns st r.term e.world (after (on_vote_response st n r e)).world
      handled RequestVoteResponseReason.stale_term q = inr (ground arith)
      handled RequestVoteResponseReason.incomplete_log q = inr (ground arith)
      handled RequestVoteResponseReason.already_voted q = inl (ground arith)
      handled RequestVoteResponseReason.ok q = inl (ground arith)

      beat :
          (x : AppendEntriesResponseReason)
          → q.reason ≡ x
          → Learns st q.term l.world (after (on_heartbeat_response st q l)).world
      beat AppendEntriesResponseReason.stale_term h = elim (Bool-cases l.write_locked) [
        | inl b ↦ inl (ground arith)
        | inr b ↦ inr (ground arith)
      ]
      beat AppendEntriesResponseReason.log_mismatch h = inl (ground arith)
      beat AppendEntriesResponseReason.ok h = inl (ground arith)
