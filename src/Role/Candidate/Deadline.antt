-- ===== src/Role/Candidate/Deadline.antt =====
-- `timeouts` of zeroraft/src/role/role_candidate.rs: until when the tasks of a vote session run.
pub mod Lost
use zeroraft.Base.{
  ℕ, ◌+◌, min, List, [], ◌∷◌, Option, none, some, Action, panic, leb, if◌then◌else◌,
}
use zeroraft.Store.{State}
use zeroraft.Rpc.{RequestVoteResponse}
use zeroraft.Timeout.{Timeout, get_remaining}
use zeroraft.Role.Candidate.{Election, request_votes}

-- `time::timeout(retry, time::timeout(election, future))` for a task spawned at the time `now`: the time
-- at which the future is dropped; `none` is a panic.
unfoldable pub timeouts : Timeout → Timeout → ℕ → Option ℕ
unfolding get_remaining
timeouts retry election now = elim (get_remaining now retry) [
  | none ↦ none
  | some r ↦ elim (get_remaining now election) [
    | none ↦ none
    | some e ↦ some (min (now + r) (now + e))
  ]
]

-- The responses, each with the time at which it is there, that a task takes in that is dropped at the
-- time `deadline`.
unfoldable pub arrived : ℕ → List (ℕ × RequestVoteResponse) → List RequestVoteResponse
arrived deadline [] = []
arrived deadline ((time, response) ∷ rest) =
    let later = arrived deadline rest in if leb time deadline then response ∷ later else later

-- The task that `request_votes` spawns at the time `now`.
unfoldable pub timed_request_votes :
    {S R P : Type 0}
    → State S R
    → Timeout
    → Timeout
    → ℕ
    → List (ℕ × RequestVoteResponse)
    → Action (Election S R P) (Unit {0})
unfolding timeouts arrived request_votes
timed_request_votes st retry election now responses e = elim (timeouts retry election now) [
  | none ↦ panic e
  | some deadline ↦ request_votes st (arrived deadline responses) e
]
