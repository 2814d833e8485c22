-- ===== src/Safety/System/Votes.antt =====
-- The votes that a node has cast so far, and what its shared state knows of them.
use zeroraft.Base.{
  ◌≡◌, inl, inr, List, [], ◌∷◌, ◌++◌, true, In, In-append, All-In, arith, sym, after,
}
use zeroraft.Store.{State}
use zeroraft.Node.{World}
use zeroraft.Rpc.{RequestVoteRequest, RequestVoteResponse, Sender, vote_reply}
use zeroraft.Role.Common.{respond_to_request_vote}
use zeroraft.Safety.{
  Move, vote_request, append_request, campaign, learn_term, turn, write, Ballot, make, cast,
}
use zeroraft.Safety.Vote.{VotesOnce, Steady, Recorded, Newest, make-Recorded, cast-Newest}

module _ {S R P : Type 0} (st : State S R) where
  -- The votes agree in every term, and the newest is the one on record.
  pub record Knows (w : World S R P) (votes : List Ballot) : Type 0 where
    pub once : VotesOnce votes
    pub recorded : (b : Ballot) → In b votes → Recorded st w b

  Newest-Recorded :
      (w : World S R P) (b c : Ballot) → Newest st w b → Recorded st w c → b.0 ≡ c.0 → b.1 ≡ c.1
  Newest-Recorded w b c n r e = ground arith

  pub make-Knows :
      (move : Move S R) (w : World S R P) (votes : List Ballot)
      → Steady st move w
      → Knows w votes
      → Knows (make st move w) (cast st move w ++ votes)
  make-Knows move w votes h k =
      let new = cast-Newest st move w h in
      let w' = make st move w in
      let old = λ (b : Ballot) (i : In b votes). make-Recorded st move w b h (k.recorded b i) in
      let newest = λ (b : Ballot) (i : In b (cast st move w)).
        All-In (Newest st w') b (cast st move w) new i in
      record {
        once = λ b c i j e. elim (In-append b (cast st move w) votes i) [
          | inl bi ↦ elim (In-append c (cast st move w) votes j) [
            | inl ci ↦ Newest-Recorded w' b c (newest b bi) (inr (newest c ci)) e
            | inr cj ↦ Newest-Recorded w' b c (newest b bi) (old c cj) e
          ]
          | inr bj ↦ elim (In-append c (cast st move w) votes j) [
            | inl ci ↦ sym (Newest-Recorded w' c b (newest c ci) (old b bj) (sym e))
            | inr cj ↦ k.once b c bj cj e
          ]
        ];
        recorded = λ b i. elim (In-append b (cast st move w) votes i) [
          | inl bi ↦ inr (newest b bi)
          | inr bj ↦ old b bj
        ];
      }

  -- Every handler leaves the node's id.
  pub make-id : (move : Move S R) (w : World S R P) → (make st move w).id ≡ w.id
  unfolding make
  make-id (vote_request q tx) w = ground arith
  make-id (append_request q tx) w = ground arith
  make-id campaign w = ground arith
  make-id (learn_term t) w = ground arith
  make-id (turn s) w = ground arith
  make-id (write m) w = ground arith

  -- A vote that is granted is the node's first in that term.
  pub granted_first :
      (q : RequestVoteRequest) (tx : Sender) (w : World S R P) (r : RequestVoteResponse)
      (c : Ballot)
      → (after (respond_to_request_vote st q tx (record w { sent = [] }))).sent ≡ vote_reply r ∷ []
      → r.vote_granted ≡ true
      → Recorded st w c
      → c.0 ≡ q.term
      → ⊥
  unfolding respond_to_request_vote
  granted_first q tx w r c e g k same = ground arith

  -- What matters is the node alone.
  pub Knows-node :
      (w v : World S R P) (votes : List Ballot) → v.node ≡ w.node → Knows w votes → Knows v votes
  Knows-node w v votes e k = record {
    once = k.once;
    recorded = λ b i. let h = k.recorded b i in ground arith;
  }
