-- ===== src/Safety/Quorum.antt =====
-- Majorities of one membership, and the winners of a term.
use zeroraft.Base.{
  ℕ, ◌+◌, ◌*◌, ◌≤◌, ◌<◌, ◌≡◌, inl, inr, List, [], ◌∷◌, true, false, refl, arith, length, In,
  contains, Bool-cases, ◌==◌, All, if◌then◌else◌,
}
use zeroraft.Store.{State}
use zeroraft.Node.{World}
use zeroraft.Safety.{Move, Ballot, ballots}
use zeroraft.Safety.Vote.{VotesOnce, IsSteady, vote_once}

-- No element twice.
abbrev pub Distinct : List ℕ → Type 0
Distinct [] = Unit
Distinct (x ∷ xs) = (contains x xs ≡ false) × Distinct xs

abbrev pub Within : List ℕ → List ℕ → Type 0
Within qs ms = All (λ q. contains q ms ≡ true) qs

remove : ℕ → List ℕ → List ℕ
remove a [] = []
remove a (x ∷ xs) = if x == a then xs else x ∷ remove a xs

contains-remove :
    (a q : ℕ) (xs : List ℕ)
    → (a == q) ≡ false
    → contains q xs ≡ true
    → contains q (remove a xs) ≡ true
unfolding remove
contains-remove a q [] n h = ground arith
contains-remove a q (x ∷ xs) n h = ground (arith, contains-remove a q xs n)

length-remove : (a : ℕ) (xs : List ℕ) → contains a xs ≡ true → length xs ≡ length (remove a xs) + 1
unfolding remove
length-remove a [] h = ground arith
length-remove a (x ∷ xs) h = ground (arith, length-remove a xs)

Within-remove :
    (a : ℕ) (qs ms : List ℕ) → contains a qs ≡ false → Within qs ms → Within qs (remove a ms)
Within-remove a [] ms n h = tt
Within-remove a (q ∷ qs) ms n h =
    (contains-remove a q ms (ground arith) h.0, Within-remove a qs ms (ground arith) h.1)

-- Distinct members of a list are no more than the list has.
length-Within : (qs ms : List ℕ) → Distinct qs → Within qs ms → length qs ≤ length ms
length-Within [] ms d h = omega arith
length-Within (q ∷ qs) ms d h = omega (
  arith,
  length-remove q ms h.0,
  length-Within qs (remove q ms) d.1 (Within-remove q qs ms d.0 h.1),
)

-- Two sets of members that together outnumber the members have one in common.
pub shared_member :
    (qs rs ms : List ℕ)
    → Distinct qs
    → Distinct rs
    → Within qs ms
    → Within rs ms
    → length ms < length qs + length rs
    → (a : ℕ) × (contains a qs ≡ true) × (contains a rs ≡ true)
shared_member [] rs ms d d' h h' lt = absurd (omega (arith, length-Within rs ms d' h'))
shared_member (q ∷ qs) rs ms d d' h h' lt = elim (Bool-cases (contains q rs)) [
  | inl both ↦ (q, ground arith, both)
  | inr only ↦
      let (a, i, j) =
        shared_member qs rs (remove q ms) d.1 d' (Within-remove q qs ms d.0 h.1)
          (Within-remove q rs ms only h') (omega (arith, length-remove q ms h.0)) in
      (a, ground arith, j)
]

pub Within-contains :
    (a : ℕ) (qs ms : List ℕ) → Within qs ms → contains a qs ≡ true → contains a ms ≡ true
Within-contains a [] ms h i = cc
Within-contains a (q ∷ qs) ms h i = ground (arith, h.0, Within-contains a qs ms h.1)

-- A majority of the members has voted for the candidate `c` in term `t`: `votes m` are the votes of
-- member `m`.
pub record Wins (members : List ℕ) (votes : ℕ → List Ballot) (t c : ℕ) : Type 0 where
  pub voters : List ℕ
  pub distinct : Distinct voters
  pub among : Within voters members
  pub majority : length members < 2 * length voters
  pub voted : (m : ℕ) → contains m voters ≡ true → In (t, c) (votes m)

-- A term has one winner at most when the votes of each member agree in it.
pub VotesOnce-Wins :
    (members : List ℕ) (votes : ℕ → List Ballot)
    → ((m : ℕ) → contains m members ≡ true → VotesOnce (votes m))
    → {t c d : ℕ} → Wins members votes t c
    → Wins members votes t d
    → c ≡ d
VotesOnce-Wins members votes agree {t} {c} {d} wc wd =
    let (m, i, j) =
      shared_member wc.voters wd.voters members wc.distinct wd.distinct wc.among wd.among
        (omega (arith, wc.majority, wd.majority)) in
    agree m (Within-contains m wc.voters members wc.among i) (t, c) (t, d) (wc.voted m i)
      (wd.voted m j) refl

module _ {S R P : Type 0} (st : State S R) where
  -- If the moves of every member of a cluster are steady, a term has at most one winner: two
  -- candidates with a majority of the members' votes in the same term are the same.
  pub election_safety :
      (members : List ℕ) (moves : ℕ → List (Move S R)) (w : ℕ → World S R P)
      → ((m : ℕ) → contains m members ≡ true → IsSteady st (moves m) (w m))
      → {t c d : ℕ} → Wins members (λ m. ballots st (moves m) (w m)) t c
      → Wins members (λ m. ballots st (moves m) (w m)) t d
      → c ≡ d
  election_safety members moves w steady =
      VotesOnce-Wins members (λ m. ballots st (moves m) (w m))
        (λ m i. vote_once st (moves m) (w m) (steady m i))
