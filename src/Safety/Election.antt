-- ===== src/Safety/Election.antt =====
-- Elections from end to end: candidates that count the answers of peers (role/role_candidate.rs), and
-- the votes that those peers cast (role/common.rs).
use zeroraft.Base.{
  ℕ, ◌+◌, ◌≤◌, ◌<◌, ◌≡◌, refl, sym, subst, ◌⊎◌, inl, inr, List, [], ◌∷◌, ◌++◌, true, false, Out, ok,
  err, panic, blocked, after, arith, All, In, In-append_left, In-append_right, length, contains,
  Bool-cases, ◌==◌,
}
use zeroraft.Store.{State, NodeId}
use zeroraft.Node.{World}
use zeroraft.Rpc.{RequestVoteRequest, RequestVoteResponse, Sender, vote_reply}
use zeroraft.Role.Common.{respond_to_request_vote}
use zeroraft.Role.Candidate.{Flow, granted, Election, next, stop, on_vote_response, collect_votes}
use zeroraft.Safety.{Move, vote_request, campaign, Ballot, make, cast, play, ballots, granted_by}
use zeroraft.Safety.Vote.{IsSteady}
use zeroraft.Safety.Session.{grants, needed}
use zeroraft.Safety.Quorum.{Distinct, Wins, election_safety}

-- The peers whose responses grant a vote.
abbrev pub grant_ids : List RequestVoteResponse → List NodeId
grant_ids [] = []
grant_ids (r ∷ rs) = elim r.vote_granted [ true ↦ r.id ∷ grant_ids rs | false ↦ grant_ids rs ]

length-grant_ids : (rs : List RequestVoteResponse) → length (grant_ids rs) ≡ grants rs
length-grant_ids [] = refl
length-grant_ids (r ∷ rs) = ground (arith, length-grant_ids rs)

grant_ids-members :
    (members : List ℕ) (rs : List RequestVoteResponse)
    → All (λ r. contains r.id members ≡ true) rs
    → All (λ q. contains q members ≡ true) (grant_ids rs)
grant_ids-members members [] h = tt
grant_ids-members members (r ∷ rs) h = elim (Bool-cases r.vote_granted) [
  | inl g ↦ rw g (h.0, grant_ids-members members rs h.1)
  | inr n ↦ rw n (grant_ids-members members rs h.1)
]

module _ {S R P : Type 0} (st : State S R) where
  -- Some move of the node is its answer `r` to the candidate `c` in term `t`. What it had sent before
  -- is put aside.
  pub record Answers (ms : List (Move S R)) (w : World S R P) (t c : ℕ) (r : RequestVoteResponse)
      : Type 0 where
    pub before : List (Move S R)
    pub rest : List (Move S R)
    pub request : RequestVoteRequest
    pub tx : Sender
    pub moves : ms ≡ before ++ vote_request request tx ∷ rest
    pub term : request.term ≡ t
    pub candidate : request.candidate_id ≡ c
    pub answer :
        (after
          (respond_to_request_vote st request tx (record (play st before w) { sent = [] }))).sent
        ≡ vote_reply r ∷ []

  -- What the move `m` casts is among the votes of a sequence that has it.
  In-ballots :
      (before rest : List (Move S R)) (m : Move S R) (w : World S R P) (b : Ballot)
      → In b (cast st m (play st before w))
      → In b (ballots st (before ++ m ∷ rest) w)
  unfolding ballots play
  In-ballots [] rest m w b i = In-append_left b (cast st m w) _ i
  In-ballots (x ∷ before) rest m w b i =
      In-append_right b (cast st x w) _ (In-ballots before rest m (make st x w) b i)

  Answers-In :
      (ms : List (Move S R)) (w : World S R P) (t c : ℕ) (r : RequestVoteResponse)
      → Answers ms w t c r
      → r.vote_granted ≡ true
      → In (t, c) (ballots st ms w)
  unfolding cast granted_by
  Answers-In ms w t c r a g =
      subst (λ xs. In (t, c) (ballots st xs w)) (sym a.moves)
        (In-ballots a.before a.rest (vote_request a.request a.tx) w (t, c)
          (subst (λ os. In (t, c) (granted_by a.request os)) (sym a.answer) (ground arith)))

  -- The candidate `c` ran in term `t`, and the vote session of that candidacy told it that it won, by the
  -- responses of distinct peers, each the answer of a member to its request.
  pub record Elected (members : List ℕ) (moves : ℕ → List (Move S R)) (w : ℕ → World S R P)
      (t c : ℕ) : Type 0 where
    pub before : List (Move S R)
    pub rest : List (Move S R)
    pub ran : moves c ≡ before ++ campaign ∷ rest
    pub member : contains c members ≡ true
    pub own_term : (make st campaign (play st before (w c))).current_term ≡ t
    pub own_id : (play st before (w c)).id ≡ c
    pub session : Election S R P
    pub started : session.granted_votes ≡ 1
    pub silent : session.results ≡ []
    pub responses : List RequestVoteResponse
    pub won : (after (collect_votes st (length members) responses session)).results ≡ granted ∷ []
    pub once : Distinct (c ∷ grant_ids responses)
    pub members_only : All (λ r. contains r.id members ≡ true) responses
    pub honest : All (λ r. Answers (moves r.id) (w r.id) t c r) responses

  -- What one response does to a session that has told nothing yet.
  abbrev Counted : ℕ → RequestVoteResponse → Election S R P → Out (Election S R P) Flow → Type 0
  Counted n r e (ok next e') =
      (e'.results ≡ []) × (e'.granted_votes ≤ e.granted_votes + grants (r ∷ []))
  Counted n r e (ok stop e') = (e'.results ≡ []) ⊎ (needed n < e.granted_votes + grants (r ∷ []))
  Counted n r e (err x e') = e'.results ≡ []
  Counted n r e (panic e') = e'.results ≡ []
  Counted n r e (blocked e') = e'.results ≡ []

  on_vote_response-Counted :
      (n : ℕ) (r : RequestVoteResponse) (e : Election S R P)
      → e.results ≡ []
      → Counted n r e (on_vote_response st n r e)
  unfolding on_vote_response
  on_vote_response-Counted n r e s = ground arith

  none_granted : {A : Type 0} (e : Election S R P) → e.results ≡ [] → e.results ≡ granted ∷ [] → A
  none_granted e s g = absurd (ground arith)

  -- What is left to collect after one response.
  won_after :
      (n : ℕ) (r : RequestVoteResponse) (rs : List RequestVoteResponse) (e : Election S R P)
      (o : Out (Election S R P) Flow)
      → on_vote_response st n r e ≡ o
      → Counted n r e o
      → ((e' : Election S R P)
          → e'.results ≡ []
          → (after (collect_votes st n rs e')).results ≡ granted ∷ []
          → needed n < e'.granted_votes + grants rs)
      → (after (collect_votes st n (r ∷ rs) e)).results ≡ granted ∷ []
      → needed n < e.granted_votes + grants (r ∷ rs)
  unfolding collect_votes
  won_after n r rs e (ok next e') q c later g =
      let g' : (after (collect_votes st n rs e')).results ≡ granted ∷ [] = ground arith in
      ground (arith, later e' c.0 g')
  won_after n r rs e (ok stop e') q c later g = ground arith
  won_after n r rs e (err x e') q c later g = none_granted e' c (ground arith)
  won_after n r rs e (panic e') q c later g = none_granted e' c (ground arith)
  won_after n r rs e (blocked e') q c later g = none_granted e' c (ground arith)

  won-needed :
      (n : ℕ) (rs : List RequestVoteResponse) (e : Election S R P)
      → e.results ≡ []
      → (after (collect_votes st n rs e)).results ≡ granted ∷ []
      → needed n < e.granted_votes + grants rs
  unfolding collect_votes
  won-needed n [] e s g = none_granted e s g
  won-needed n (r ∷ rs) e s g =
      won_after n r rs e (on_vote_response st n r e) refl (on_vote_response-Counted n r e s)
        (λ e' s' g'. won-needed n rs e' s' g') g

  -- The voters of an elected candidate have voted for it.
  voters_voted :
      (moves : ℕ → List (Move S R)) (w : ℕ → World S R P) (t c m : ℕ)
      (rs : List RequestVoteResponse)
      → All (λ r. Answers (moves r.id) (w r.id) t c r) rs
      → contains m (grant_ids rs) ≡ true
      → In (t, c) (ballots st (moves m) (w m))
  voters_voted moves w t c m [] h i = cc
  voters_voted moves w t c m (r ∷ rs) h i = elim (Bool-cases r.vote_granted) [
    | inr no_vote ↦ voters_voted moves w t c m rs h.1 (ground arith)
    | inl vote ↦ elim (Bool-cases (r.id == m)) [
      | inl same ↦
          let e : r.id ≡ m = ground arith in
          subst (λ k. In (t, c) (ballots st (moves k) (w k))) e
            (Answers-In (moves r.id) (w r.id) t c r h.0 vote)
      | inr other ↦ voters_voted moves w t c m rs h.1 (ground arith)
    ]
  ]

  -- An elected candidate has its own vote.
  own_vote :
      (members : List ℕ) (moves : ℕ → List (Move S R)) (w : ℕ → World S R P) (t c : ℕ)
      → Elected members moves w t c
      → In (t, c) (ballots st (moves c) (w c))
  unfolding cast
  own_vote members moves w t c l =
      subst (λ xs. In (t, c) (ballots st xs (w c))) (sym l.ran)
        (In-ballots l.before l.rest campaign (w c) (t, c)
          (inl (ground (arith, l.own_term, l.own_id))))

  Elected-Wins :
      (members : List ℕ) (moves : ℕ → List (Move S R)) (w : ℕ → World S R P) (t c : ℕ)
      → Elected members moves w t c
      → Wins members (λ m. ballots st (moves m) (w m)) t c
  Elected-Wins members moves w t c l = record {
    voters = c ∷ grant_ids l.responses;
    distinct = l.once;
    among = (l.member, grant_ids-members members l.responses l.members_only);
    majority = omega (
      arith,
      won-needed (length members) l.responses l.session l.silent l.won,
      length-grant_ids l.responses,
      l.started,
    );
    voted = λ m i. elim (Bool-cases (c == m)) [
      | inl same ↦
          let e : c ≡ m = ground arith in
          subst (λ k. In (t, c) (ballots st (moves k) (w k))) e (own_vote members moves w t c l)
      | inr other ↦ voters_voted moves w t c m l.responses l.honest (ground arith)
    ];
  }

  -- In a cluster whose members' moves are steady, no two candidates win the election of one term: if
  -- the vote sessions of `c` and of `d`, each opened by a candidacy in term `t` and counting the
  -- members' answers to its requests, no peer's grant twice, both tell of a victory, then `c` is `d`.
  Elected-once :
      (members : List ℕ) (moves : ℕ → List (Move S R)) (w : ℕ → World S R P)
      → ((m : ℕ) → contains m members ≡ true → IsSteady st (moves m) (w m))
      → {t c d : ℕ} → Elected members moves w t c
      → Elected members moves w t d
      → c ≡ d
  Elected-once members moves w steady {t} {c} {d} lc ld =
      election_safety st members moves w steady (Elected-Wins members moves w t c lc)
        (Elected-Wins members moves w t d ld)
