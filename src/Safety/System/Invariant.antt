-- ===== src/Safety/System/Invariant.antt =====
-- What holds of a cluster's sessions and votes, and the changes that keep it.
use zeroraft.Base.{
  ℕ, ◌+◌, ◌≤◌, ◌<◌, ◌≡◌, ◌⊎◌, inl, inr, subst, List, [], ◌∷◌, true, some, All, In, length, contains,
  arith, Bool-cases, ◌==◌,
}
use zeroraft.Store.{State, NodeId}
use zeroraft.Rpc.{RequestVoteRequest}
use zeroraft.Node.{World}
use zeroraft.Role.Candidate.{granted}
use zeroraft.Safety.{Ballot}
use zeroraft.Safety.Quorum.{Distinct}
use zeroraft.Safety.Session.{grants, needed}
use zeroraft.Safety.System.{Candidacy, System, set_world, set_session, put_at}
use zeroraft.Safety.System.Votes.{Knows}

-- The votes that a session has counted, or has yet to count, are votes of distinct members for its owner
-- in its term, and it has told of a victory only with enough of them.
pub record IsCounted (members : List NodeId) (votes : ℕ → List Ballot) (b : Candidacy)
    : Type 0 where
  pub voters : List ℕ
  pub distinct : Distinct voters
  pub among : All (λ q. contains q members ≡ true) voters
  pub voted : (m : ℕ) → contains m voters ≡ true → In (b.term, b.owner) (votes m)
  pub counted : b.vote.granted_votes + grants b.pending ≤ length voters
  pub requests :
      (m : NodeId) (q : RequestVoteRequest)
      → In (m, q) b.asked
      → (contains m members ≡ true) × (q.term ≡ b.term) × (q.candidate_id ≡ b.owner)
  pub victory :
      (b.vote.results ≡ granted ∷ []) ⊎ (b.won ≡ true) → needed (length members) < length voters

pub record Inv {S R P : Type 0} (st : State S R) (members : List NodeId) (votes : ℕ → List Ballot)
    (s : System S R P) : Type 0 where
  pub knows : (m : ℕ) → Knows st (s.worlds m) (votes m)
  pub ids : (m : ℕ) → (s.worlds m).id ≡ m
  pub sessions : (i : ℕ) (b : Candidacy) → s.sessions i ≡ some b → IsCounted members votes b

abbrev pub Grows : (ℕ → List Ballot) → (ℕ → List Ballot) → Type 0
Grows votes votes' = (m : ℕ) (b : Ballot) → In b (votes m) → In b (votes' m)

pub IsCounted-mono :
    (members : List NodeId) (votes votes' : ℕ → List Ballot) (b : Candidacy)
    → Grows votes votes'
    → IsCounted members votes b
    → IsCounted members votes' b
IsCounted-mono members votes votes' b g c = record {
  voters = c.voters;
  distinct = c.distinct;
  among = c.among;
  voted = λ m i. g m (b.term, b.owner) (c.voted m i);
  counted = c.counted;
  requests = c.requests;
  victory = c.victory;
}

module _ {S R P : Type 0} {st : State S R} {members : List NodeId} {votes : ℕ → List Ballot}
    {s : System S R P} where
  -- A node changes, and may cast votes.
  pub set_world-Inv :
      (m : NodeId) (w : World S R P) (new : List Ballot)
      → Inv st members votes s
      → Knows st w new
      → w.id ≡ m
      → ((b : Ballot) → In b (votes m) → In b new)
      → Inv st members (put_at m new votes) (set_world m w s) × Grows votes (put_at m new votes)
  set_world-Inv m w new h k same g =
      let grows : Grows votes (put_at m new votes) = λ j b i. elim (Bool-cases (j == m)) [
        | inl e ↦ let x : j ≡ m = ground arith in rw e (g b (subst (λ t. In b (votes t)) x i))
        | inr n ↦ rw n i
      ] in
      (
        record {
          knows = λ j. elim (Bool-cases (j == m)) [ inl e ↦ rw e k | inr n ↦ rw n (h.knows j) ];
          ids = λ j. elim (Bool-cases (j == m)) [
            | inl e ↦ rw e (ground arith)
            | inr n ↦ rw n (h.ids j)
          ];
          sessions =
              λ i b e. IsCounted-mono members votes (put_at m new votes) b grows (h.sessions i b e);
        },
        grows,
      )

  -- A session changes.
  pub set_session-Inv :
      (i : ℕ) (b : Candidacy)
      → Inv st members votes s
      → IsCounted members votes b
      → Inv st members votes (set_session i b s)
  set_session-Inv i b h c = record {
    knows = h.knows;
    ids = h.ids;
    sessions = λ j b' e. elim (Bool-cases (j == i)) [
      | inl here ↦ subst (IsCounted members votes) (ground arith) c
      | inr n ↦ h.sessions j b' (ground arith)
    ];
  }
