-- ===== src/Safety/Session.antt =====
-- How a vote session counts: when it tells the candidate that the election is won.
use zeroraft.Base.{
  ltb, if◌then◌else◌, ℕ, suc, ◌+◌, ◌/◌, ◌≤◌, ◌<◌, ◌≡◌, ◌⊎◌, List, [], ◌∷◌, true, false, ok, after,
  arith, All, Returns, dec_lt,
}
use zeroraft.Store.{State}
use zeroraft.Rpc.{RequestVoteResponse, RequestVoteResponseReason}
use zeroraft.Node.{u64_mod}
use zeroraft.Role.Candidate.{granted, Election, next, stop, on_vote_response, collect_votes}

-- The responses that grant a vote.
abbrev pub grants : List RequestVoteResponse → ℕ
grants [] = 0
grants (r ∷ rs) = elim r.vote_granted [ true ↦ suc (grants rs) | false ↦ grants rs ]

-- A response that does not make the candidate step down.
abbrev pub IsVote : RequestVoteResponse → Type 0
IsVote r =
    (r.reason ≡ RequestVoteResponseReason.ok) ⊎ (r.reason ≡ RequestVoteResponseReason.already_voted)

-- The count that a candidate must exceed in a membership of `peers_len`.
abbrev pub needed : ℕ → ℕ
needed peers_len = (peers_len + 1) / 2

-- A session that has not told its candidate anything, and has too few votes for that.
pub record IsOpen {S R P : Type 0} (peers_len : ℕ) (e : Election S R P) : Type 0 where
  pub listening : e.listening ≡ true
  pub silent : e.results ≡ []
  pub short : e.granted_votes ≤ needed peers_len

module _ {S R P : Type 0} (st : State S R) (peers_len : ℕ) where
  step_next :
      (r : RequestVoteResponse) (e : Election S R P)
      → IsVote r
      → IsOpen peers_len e
      → needed peers_len + 1 < u64_mod
      → e.granted_votes + grants (r ∷ []) ≤ needed peers_len
      → (e' : Election S R P) × (on_vote_response st peers_len r e ≡ ok next e')
        × IsOpen peers_len e'
        × (e'.granted_votes ≡ e.granted_votes + grants (r ∷ []))
  unfolding on_vote_response
  step_next r e v o h s =
      (after (on_vote_response st peers_len r e), ground arith, ground arith, ground arith)

  step_stop :
      (r : RequestVoteResponse) (e : Election S R P)
      → IsVote r
      → IsOpen peers_len e
      → needed peers_len + 1 < u64_mod
      → needed peers_len < e.granted_votes + grants (r ∷ [])
      → (e' : Election S R P) × (on_vote_response st peers_len r e ≡ ok stop e')
        × (e'.results ≡ granted ∷ [])
  unfolding on_vote_response
  step_stop r e v o h s = (after (on_vote_response st peers_len r e), ground arith, ground arith)

  -- From an open session, and as long as no response makes the candidate step down, the collected
  -- responses win the election exactly if the votes counted before and those that they grant exceed
  -- half of the membership and one, and tell nothing otherwise.
  pub collect_votes_lem :
      (rs : List RequestVoteResponse) (e : Election S R P)
      → All IsVote rs
      → IsOpen peers_len e
      → needed peers_len + 1 < u64_mod
      → Returns (collect_votes st peers_len rs e) λ e'.
        e'.results
        ≡ (if ltb (needed peers_len) (e.granted_votes + grants rs) then granted ∷ [] else [])
  unfolding collect_votes
  collect_votes_lem [] e v o h = ground arith
  collect_votes_lem (r ∷ rs) e v o h =
      elim (dec_lt (needed peers_len) (e.granted_votes + grants (r ∷ []))) [
        | yes enough ↦
            let (e', s, t) = step_stop r e v.0 o h enough in rw (s, Returns) (ground arith)
        | no few ↦
            let (e', s, o', n) = step_next r e v.0 o h (omega arith) in
            rw (s, Returns) (ground (arith, collect_votes_lem rs e' v.1 o' h))
      ]
