-- ===== src/Safety/System/Elections.antt =====
-- Elections in a cluster, whatever the order of its steps.
use zeroraft.Base.{
  ℕ, ◌+◌, ◌≡◌, inl, inr, refl, sym, ap, ◌∙◌, subst, List, [], ◌∷◌, ◌++◌, true, false, In,
  In-append_left, In-append_right, length, contains, arith, Bool-cases, ◌==◌, after,
}
use zeroraft.Store.{State, NodeId}
use zeroraft.Rpc.{RequestVoteRequest, RequestVoteResponse, Sender, vote_reply}
use zeroraft.Node.{World}
use zeroraft.Role.Common.{respond_to_request_vote}
use zeroraft.Role.Candidate.{VoteSession, on_vote_response}
use zeroraft.Safety.{Move, vote_request, Ballot, make, cast}
use zeroraft.Safety.Vote.{Steady}
use zeroraft.Safety.Session.{grants}
use zeroraft.Safety.System.{Candidacy, System, set_world, put_at, election}
use zeroraft.Safety.System.Votes.{make-Knows, make-id, Knows-node, granted_first}
use zeroraft.Safety.System.Sessions.{grants-append, heard-counted, cast-granted}
use zeroraft.Safety.System.Invariant.{IsCounted, Inv, Grows, IsCounted-mono, set_world-Inv}

pub opened-IsCounted :
    (members : List NodeId) (votes : ℕ → List Ballot) (c : NodeId) (v : VoteSession) (t : ℕ)
    → contains c members ≡ true
    → In (t, c) (votes c)
    → v.granted_votes ≡ 1
    → v.results ≡ []
    → IsCounted members votes
        (record { owner = c; term = t; vote = v; asked = []; pending = []; won = false })
opened-IsCounted members votes c v t member own one none_yet = record {
  voters = c ∷ [];
  distinct = (refl, tt);
  among = (member, tt);
  voted = λ m i. let e : m ≡ c = ground arith in subst (λ k. In (t, c) (votes k)) (sym e) own;
  counted = omega (arith, one);
  requests = λ m q i. elim i [ ];
  victory = λ x. absurd (elim x [ inl r ↦ ground arith | inr n ↦ ground arith ]);
}

-- The granted votes among the pending responses do not depend on their order.
grants-middle :
    (before rest : List RequestVoteResponse) (r : RequestVoteResponse)
    → grants (before ++ r ∷ rest) ≡ grants (r ∷ []) + grants (before ++ rest)
grants-middle before rest r =
    ground (arith, grants-append before (r ∷ rest), grants-append before rest)

module _ {S R P : Type 0} (st : State S R) (members : List NodeId) where
  -- A node makes a move.
  pub make-Inv :
      (votes : ℕ → List Ballot) (s : System S R P) (m : NodeId) (move : Move S R)
      → Inv st members votes s
      → Steady st move (s.worlds m)
      → (votes' : ℕ → List Ballot) × Inv st members votes'
          (set_world m (make st move (s.worlds m)) s)
        × Grows votes votes'
        × ((b : Ballot) → In b (cast st move (s.worlds m)) → In b (votes' m))
  make-Inv votes s m move h steady =
      let w = s.worlds m in
      let new = cast st move w ++ votes m in
      let (h', g) =
        set_world-Inv m (make st move w) new h (make-Knows st move w (votes m) steady (h.knows m))
          (make-id st move w ∙ h.ids m) (λ b i. In-append_right b (cast st move w) (votes m) i) in
      (
        put_at m new votes,
        h',
        g,
        λ b i.
            let e : (m == m) ≡ true = ground arith in
            rw e (In-append_left b (cast st move w) (votes m) i),
      )

  -- A node changes outside of what votes depend on.
  pub same-Inv :
      (votes : ℕ → List Ballot) (s : System S R P) (m : NodeId) (w : World S R P)
      → Inv st members votes s
      → w.node ≡ (s.worlds m).node
      → (votes' : ℕ → List Ballot) × Inv st members votes' (set_world m w s) × Grows votes votes'
  same-Inv votes s m w h e =
      let (h', g) =
        set_world-Inv m w (votes m) h (Knows-node st (s.worlds m) w (votes m) e (h.knows m))
          (ap (λ n. n.id) e ∙ h.ids m) (λ b i. i) in
      (put_at m (votes m) votes, h', g)

  pub answered-IsCounted :
      (votes votes' : ℕ → List Ballot) (s : System S R P) (b : Candidacy) (m : NodeId)
      (q : RequestVoteRequest) (tx : Sender) (r : RequestVoteResponse)
      → Inv st members votes s
      → IsCounted members votes b
      → Grows votes votes'
      → In (m, q) b.asked
      → (after (respond_to_request_vote st q tx (record (s.worlds m) { sent = [] }))).sent
        ≡ vote_reply r ∷ []
      → ((x : Ballot) → In x (cast st (vote_request q tx) (s.worlds m)) → In x (votes' m))
      → IsCounted members votes' (record b { pending = r ∷ b.pending })
  answered-IsCounted votes votes' s b m q tx r h c g i e new = elim (Bool-cases r.vote_granted) [
    | inr no_vote ↦
        let c' = IsCounted-mono members votes votes' b g c in
        record {
          voters = c'.voters;
          distinct = c'.distinct;
          among = c'.among;
          voted = c'.voted;
          counted = ground (arith, c'.counted);
          requests = c'.requests;
          victory = c'.victory;
        }
    | inl vote ↦
        let (member, same_term, for_owner) = c.requests m q i in
        let first : contains m c.voters ≡ false = elim (Bool-cases (contains m c.voters)) [
          | inr n ↦ n
          | inl again ↦ absurd (
              granted_first st q tx (s.worlds m) r (b.term, b.owner) e vote
                ((h.knows m).recorded (b.term, b.owner) (c.voted m again)) (sym same_term))
        ] in
        let cast' : In (b.term, b.owner) (votes' m) =
          new (b.term, b.owner)
            (subst (In (b.term, b.owner)) (sym (cast-granted st q tx (s.worlds m) r e vote))
              (inl (ground (arith, same_term, for_owner)))) in
        record {
          voters = m ∷ c.voters;
          distinct = (first, c.distinct);
          among = (member, c.among);
          voted = λ k j. elim (Bool-cases (m == k)) [
            | inl itself ↦
                let x : m ≡ k = ground arith in subst (λ y. In (b.term, b.owner) (votes' y)) x cast'
            | inr other ↦ g k (b.term, b.owner) (c.voted k (ground arith))
          ];
          counted = ground (arith, c.counted);
          requests = c.requests;
          victory = λ x. omega (arith, c.victory x);
        }
  ]

  pub heard-IsCounted :
      (votes : ℕ → List Ballot) (s : System S R P) (b : Candidacy)
      (before rest : List RequestVoteResponse) (r : RequestVoteResponse)
      → IsCounted members votes b
      → b.pending ≡ before ++ r ∷ rest
      → IsCounted members votes (record b {
        vote = (after (on_vote_response st (length members) r (election b s))).session;
        pending = before ++ rest;
      })
  heard-IsCounted votes s b before rest r c e =
      let (few, victory) = heard-counted st (length members) r (election b s) in
      let split : grants b.pending ≡ grants (r ∷ []) + grants (before ++ rest) =
        ap grants e ∙ grants-middle before rest r in
      record {
        voters = c.voters;
        distinct = c.distinct;
        among = c.among;
        voted = c.voted;
        counted = omega (arith, few, split, c.counted);
        requests = c.requests;
        victory = λ x. elim x [
          | inr w ↦ c.victory (inr w)
          | inl told ↦ elim (victory told) [
            | inl before' ↦ c.victory (inl before')
            | inr enough ↦ omega (arith, enough, split, c.counted)
          ]
        ];
      }
