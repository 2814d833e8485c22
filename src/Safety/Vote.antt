-- ===== src/Safety/Vote.antt =====
-- The votes that a node casts over a sequence of moves.
use zeroraft.Base.{
  ◌+◌, ◌≤◌, ◌<◌, ◌≡◌, ◌⊎◌, inl, inr, List, [], ◌∷◌, some, All, In, In-append, All-In, arith, sym,
}
use zeroraft.Store.{State}
use zeroraft.Node.{World, u64_mod}
use zeroraft.Safety.{
  Move, vote_request, append_request, campaign, learn_term, turn, write, Ballot, make, cast,
  ballots,
}

-- The votes of a node agree in every term.
abbrev pub VotesOnce : List Ballot → Type 0
VotesOnce bs = (b c : Ballot) → In b bs → In c bs → b.0 ≡ c.0 → b.1 ≡ c.1

module _ {S R P : Type 0} (st : State S R) where
  abbrev pub Steady : Move S R → World S R P → Type 0
  Steady (learn_term t) w = w.current_term ≤ t
  Steady campaign w = w.current_term + 1 < u64_mod
  Steady _ w = Unit

  -- No response makes the node take a lower term, and the counter of terms does not wrap around.
  abbrev pub IsSteady : List (Move S R) → World S R P → Type 0
  IsSteady [] w = Unit
  IsSteady (m ∷ ms) w = Steady m w × IsSteady ms (make st m w)

  -- A vote of the past is of an older term, or the one on record.
  abbrev pub Recorded : World S R P → Ballot → Type 0
  Recorded w b = (b.0 < w.current_term) ⊎ (b.0 ≡ w.current_term) × (w.voted_for ≡ some b.1)

  abbrev pub Newest : World S R P → Ballot → Type 0
  Newest w b = (b.0 ≡ w.current_term) × (w.voted_for ≡ some b.1)

  pub make-Recorded :
      (m : Move S R) (w : World S R P) (b : Ballot)
      → Steady m w
      → Recorded w b
      → Recorded (make st m w) b
  unfolding make
  make-Recorded (vote_request q tx) w b h r = ground arith
  make-Recorded (append_request q tx) w b h r = ground arith
  make-Recorded campaign w b h r = ground arith
  make-Recorded (learn_term t) w b h r = ground arith
  make-Recorded (turn s) w b h r = ground arith
  make-Recorded (write m) w b h r = ground arith

  pub cast-Newest :
      (m : Move S R) (w : World S R P) → Steady m w → All (Newest (make st m w)) (cast st m w)
  unfolding cast
  cast-Newest (vote_request q tx) w h = ground arith
  cast-Newest campaign w h = ground arith
  cast-Newest _ w h = tt

  later_agrees :
      (ms : List (Move S R)) (w : World S R P) (b c : Ballot)
      → IsSteady ms w
      → Recorded w b
      → In c (ballots st ms w)
      → b.0 ≡ c.0
      → b.1 ≡ c.1
  unfolding ballots
  later_agrees [] w b c h r i e = elim i [ ]
  later_agrees (m ∷ ms) w b c h r i e =
      let r' = make-Recorded m w b h.0 r in
      elim (In-append c (cast st m w) _ i) [
        | inl now ↦
            let n = All-In (Newest (make st m w)) c (cast st m w) (cast-Newest m w h.0) now in
            ground arith
        | inr later ↦ later_agrees ms (make st m w) b c h.1 r' later e
      ]

  Newest-agree : (w : World S R P) (b c : Ballot) → Newest w b → Newest w c → b.1 ≡ c.1
  Newest-agree w b c h k = ground arith

  ballots_agree :
      (ms : List (Move S R)) (w : World S R P) (b c : Ballot)
      → IsSteady ms w
      → In b (ballots st ms w)
      → In c (ballots st ms w)
      → b.0 ≡ c.0
      → b.1 ≡ c.1
  unfolding ballots
  ballots_agree [] w b c h i j e = elim i [ ]
  ballots_agree (m ∷ ms) w b c h i j e =
      let w' = make st m w in
      let newest = cast-Newest m w h.0 in
      elim (In-append b (cast st m w) _ i) [
        | inl bi ↦
            let nb = All-In (Newest w') b (cast st m w) newest bi in
            elim (In-append c (cast st m w) _ j) [
              | inl ci ↦ Newest-agree w' b c nb (All-In (Newest w') c (cast st m w) newest ci)
              | inr cj ↦ later_agrees ms w' b c h.1 (inr nb) cj e
            ]
        | inr bj ↦ elim (In-append c (cast st m w) _ j) [
          | inl ci ↦
              let nc = All-In (Newest w') c (cast st m w) newest ci in
              sym (later_agrees ms w' c b h.1 (inr nc) bj (sym e))
          | inr cj ↦ ballots_agree ms w' b c h.1 bj cj e
        ]
      ]

  -- Over any sequence of moves of its tasks in which no response lowers the node's term and the
  -- counter of terms does not wrap around, two votes of the node in one term, its own candidacies
  -- included, are for the same candidate.
  pub vote_once :
      (ms : List (Move S R)) (w : World S R P) → IsSteady ms w → VotesOnce (ballots st ms w)
  vote_once ms w h b c = ballots_agree ms w b c h
