-- ===== src/Role/Candidate/Deadline/Lost.antt =====
-- A vote whose response comes too late.
use zeroraft.Base.{
  ℕ, ◌<◌, ◌≡◌, refl, List, [], ◌∷◌, true, false, some, ok, arith, contains, insert_key,
}
use zeroraft.Store.{State}
use zeroraft.Store.Laws.{IsState, IsReliable}
use zeroraft.Rpc.{RequestVoteRequest, RequestVoteResponse, RequestVoteResponseReason, vote_reply}
use zeroraft.Node.{World}
use zeroraft.Timeout.{Timeout}
use zeroraft.Role.Common.{respond_to_request_vote}
use zeroraft.Role.Common.Vote.{MayVote, IsUpToDate}
use zeroraft.Role.Common.Again.{respond_to_request_vote-again}
use zeroraft.Role.Candidate.{Election, next, on_vote_response, request_votes}
use zeroraft.Role.Candidate.Deadline.{timeouts, arrived, timed_request_votes}

-- Too late for the only response there is.
late_response :
    {S R P : Type 0} (st : State S R) (retry election : Timeout) (now deadline time : ℕ)
    (r : RequestVoteResponse) (e : Election S R P)
    → timeouts retry election now ≡ some deadline
    → deadline < time
    → timed_request_votes st retry election now ((time, r) ∷ []) e ≡ request_votes st [] e
unfolding timed_request_votes arrived
late_response st retry election now deadline time r e d late = ground arith

contains-insert_key : (a : ℕ) (xs : List ℕ) → contains a (insert_key a xs) ≡ true
contains-insert_key a xs = ground arith

-- A refusal by a node that has voted is an acknowledgement, and no vote.
already_voted_lem :
    {S R P : Type 0} (st : State S R) (n : ℕ) (r : RequestVoteResponse) (e : Election S R P)
    → r.reason ≡ RequestVoteResponseReason.already_voted
    → r.vote_granted ≡ false
    → (e' : Election S R P) × (on_vote_response st n r e ≡ ok next e')
      × (e'.granted_votes ≡ e.granted_votes)
      × (contains r.id e'.ack_peers ≡ true)
unfolding on_vote_response
already_voted_lem st n r e already refused = (
  record e { session = record e.session { ack_peers = insert_key r.id e.session.ack_peers } },
  ground (arith, already, refused),
  refl,
  contains-insert_key r.id e.session.ack_peers,
)

module _ {S R P : Type 0} {base : ℕ} {st : State S R} (laws : IsState base st)
    (rel : IsReliable st) where
  -- Over a lawful store that does not fail: a node grants its vote to a candidate, and the response is
  -- there only after one of the two timers of the candidate's task is over. Then the task goes on as
  -- if there were no response; a second request of the same kind, which the candidate sends to a
  -- peer that has not answered, is refused; and the candidate takes that refusal as the peer's
  -- acknowledgement, so that the vote, which the node has given, is never counted.
  pub late_vote-lost :
      (request : RequestVoteRequest) (w : World S R P) (n now deadline time : ℕ)
      (retry election : Timeout) (e : Election S R P)
      → MayVote w request
      → IsUpToDate (laws.view w.state).log request
      → timeouts retry election now ≡ some deadline
      → deadline < time
      → (w₁ : World S R P) × (w₂ : World S R P) × (r₁ : RequestVoteResponse)
        × (r₂ : RequestVoteResponse) × (e' : Election S R P) × (respond_to_request_vote st request
              (record { live = true })
              w
            ≡ ok tt w₁)
        × (w₁.sent ≡ vote_reply r₁ ∷ w.sent)
        × (r₁.vote_granted ≡ true)
        × (timed_request_votes st retry election now ((time, r₁) ∷ []) e ≡ request_votes st [] e)
        × (respond_to_request_vote st request (record { live = true }) w₁ ≡ ok tt w₂)
        × (w₂.sent ≡ vote_reply r₂ ∷ w₁.sent)
        × (on_vote_response st n r₂ e ≡ ok next e')
        × (e'.granted_votes ≡ e.granted_votes)
        × (contains r₂.id e'.ack_peers ≡ true)
  late_vote-lost request w n now deadline time retry election e may up d late =
      let (w₁, w₂, r₁, r₂, first, sent, granted, second, again, refused, already, _) =
        respond_to_request_vote-again laws rel request w may up in
      let (e', heard, same, acked) = already_voted_lem st n r₂ e already refused in
      (
        w₁,
        w₂,
        r₁,
        r₂,
        e',
        first,
        sent,
        granted,
        late_response st retry election now deadline time r₁ e d late,
        second,
        again,
        heard,
        same,
        acked,
      )
