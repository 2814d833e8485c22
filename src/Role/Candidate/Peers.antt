-- ===== src/Role/Candidate/Peers.antt =====
-- `get_unack_peers` of zeroraft/src/role/role_candidate.rs: whom a vote session asks.
use zeroraft.Base.{
  ℕ, ◌≡◌, ◌≢◌, ◌↔◌, ◌⊎◌, inl, inr, refl, List, [], ◌∷◌, Bool, true, false, Option, none, some, Out,
  ok, arith, contains, difference, keys,
}
use zeroraft.Store.{State, NodeId}
use zeroraft.Role.Candidate.{
  no_peers, Election, others, unack_of, send_result, some_peers, set_session, get_unack_peers,
}

contains-others :
    (q id : ℕ) (ks : List ℕ)
    → (contains q (others id ks) ≡ true) ↔ (contains q ks ≡ true) × (q ≢ id)
unfolding others
contains-others q id [] = ground arith
contains-others q id (k ∷ ks) = ground (arith, contains-others q id ks)

contains-difference :
    (q : ℕ) (xs ys : List ℕ)
    → (contains q (difference xs ys) ≡ true) ↔ (contains q xs ≡ true) × (contains q ys ≡ false)
contains-difference q [] ys = ground arith
contains-difference q (x ∷ xs) ys = ground (arith, contains-difference q xs ys)

-- Whether a peer is asked.
unfoldable pub asked : ℕ → Option (List ℕ) → Bool
asked q none = false
asked q (some ps) = contains q ps

asked-some_peers : (q : ℕ) (ps : List ℕ) → asked q (some_peers ps) ≡ contains q ps
unfolding asked some_peers
asked-some_peers q [] = refl
asked-some_peers q (p ∷ ps) = refl

module _ {S R P : Type 0} where
  -- What `unack_of` answers, and how it leaves the session.
  abbrev Answers :
      List ℕ → List ℕ → Election S R P → Out (Election S R P) (Option (List ℕ)) → Type 0
  Answers ks ack e out =
      (asks : Option (List ℕ)) × (e' : Election S R P) × (out ≡ ok asks e')
      × ((q : ℕ) → (asked q asks ≡ true) ↔ (contains q ks ≡ true) × (contains q ack ≡ false))
      × ((ks ≡ []) → e' ≡ set_session (λ s. record s { results = no_peers ∷ [] }) e)
      × ((ks ≢ []) → e' ≡ e)

  unack_of_lem :
      (ks ack : List ℕ) (e : Election S R P)
      → e.listening ≡ true
      → e.results ≡ []
      → Answers ks ack e (unack_of ks ack e)
  unfolding unack_of send_result asked
  unack_of_lem [] ack e l r = (
    none,
    set_session (λ s. record s { results = no_peers ∷ [] }) e,
    ground arith,
    λ q. ground arith,
    λ _. refl,
    λ n. ground arith,
  )
  unack_of_lem (k ∷ ks) ack e l r = (
    some_peers (difference (k ∷ ks) ack),
    e,
    refl,
    λ q.
        ground
          (arith, asked-some_peers q (difference (k ∷ ks) ack), contains-difference q (k ∷ ks) ack),
    λ n. ground arith,
    λ _. refl,
  )

others-nil : (id : ℕ) (ks : List ℕ) → others id ks ≡ [] → (q : ℕ) → contains q ks ≡ true → q ≡ id
others-nil id ks none_left q inside = ground (arith, contains-others q id ks)

nil-cases : (ks : List ℕ) → (ks ≡ []) ⊎ (ks ≢ [])
nil-cases [] = inl refl
nil-cases (k ∷ ks) = inr (ground arith)

alone_cases :
    {S R P : Type 0} {e e' : Election S R P} (n : NodeId) (ms : List ℕ)
    → ((others n ms ≡ []) → e' ≡ set_session (λ s. record s { results = no_peers ∷ [] }) e)
    → ((others n ms ≢ []) → e' ≡ e)
    → (e' ≡ e)
      ⊎ (e' ≡ set_session (λ s. record s { results = no_peers ∷ [] }) e)
        × ((q : ℕ) → contains q ms ≡ true → q ≡ n)
alone_cases n ms alone together = elim (nil-cases (others n ms)) [
  | inl e ↦ inr (alone e, others-nil n ms e)
  | inr ne ↦ inl (together ne)
]

module _ {S R P : Type 0} where
  -- While the loop listens and its channel is empty, a vote session asks exactly the members that are
  -- neither the candidate nor among the peers that answered, and leaves the session as it is, except
  -- that a session with no member but the candidate announces that there are no peers.
  pub get_unack_peers_lem :
      (st : State S R) (e : Election S R P)
      → e.listening ≡ true
      → e.results ≡ []
      → (asks : Option (List ℕ)) × (e' : Election S R P) × (get_unack_peers st e ≡ ok asks e')
        × ((q : ℕ)
            → (asked q asks ≡ true)
              ↔ (contains q (keys (st.get_membership e.state)) ≡ true)
                × (q ≢ e.id)
                × (contains q e.ack_peers ≡ false))
        × ((e' ≡ e)
            ⊎ (e' ≡ set_session (λ s. record s { results = no_peers ∷ [] }) e)
              × ((q : ℕ) → contains q (keys (st.get_membership e.state)) ≡ true → q ≡ e.id))
  unfolding get_unack_peers
  get_unack_peers_lem st e l r =
      let ms = keys (st.get_membership e.state) in
      let (asks, e', eq, asks_iff, alone, together) =
        unack_of_lem (others e.id ms) e.ack_peers e l r in
      (
        asks,
        e',
        eq,
        λ q. ground (arith, asks_iff q, contains-others q e.id ms),
        alone_cases e.id ms alone together,
      )
