-- ===== src/Role/Leader/Commit.antt =====
-- Which entries a leader takes for committed.
pub mod Greatest
use zeroraft.Base.{
  subst, ℕ, zero, suc, ◌+◌, ◌*◌, ◌/◌, ◌≤◌, ◌<◌, ◌≡◌, refl, List, [], ◌∷◌, none, some, Option, arith,
  length, get_elem?, All, Option-cases, leb, if◌then◌else◌, inl, inr,
}
use zeroraft.Store.{HashMap, State, LogEntry}
use zeroraft.Node.{World}
use zeroraft.Role.Leader.Peers.{
  Progress, match_indices, insert_sorted, sort_unstable, median, of_term,
}
use zeroraft.Role.Leader.{commit_candidate}

-- How many numbers are at least `i`.
abbrev pub count_ge : ℕ → List ℕ → ℕ
count_ge i [] = 0
count_ge i (x ∷ xs) = (if leb i x then 1 else 0) + count_ge i xs

abbrev IsSorted : List ℕ → Type 0
IsSorted [] = Unit
IsSorted (x ∷ xs) = All (λ y. x ≤ y) xs × IsSorted xs

All-insert_sorted :
    (b a : ℕ) (xs : List ℕ) → b ≤ a → All (λ y. b ≤ y) xs → All (λ y. b ≤ y) (insert_sorted a xs)
unfolding insert_sorted
All-insert_sorted b a [] h k = (h, tt)
All-insert_sorted b a (x ∷ xs) h k = ground (arith, All-insert_sorted b a xs h k.1)

All-mono : (b a : ℕ) (xs : List ℕ) → b ≤ a → All (λ y. a ≤ y) xs → All (λ y. b ≤ y) xs
All-mono b a [] h k = tt
All-mono b a (x ∷ xs) h k = (omega arith, All-mono b a xs h k.1)

insert_sorted-IsSorted : (a : ℕ) (xs : List ℕ) → IsSorted xs → IsSorted (insert_sorted a xs)
unfolding insert_sorted
insert_sorted-IsSorted a [] h = (tt, tt)
insert_sorted-IsSorted a (x ∷ xs) h =
    ground (arith, All-insert_sorted x a xs, All-mono a x xs, insert_sorted-IsSorted a xs h.1)

sort-IsSorted : (xs : List ℕ) → IsSorted (sort_unstable xs)
unfolding sort_unstable
sort-IsSorted [] = tt
sort-IsSorted (x ∷ xs) = insert_sorted-IsSorted x (sort_unstable xs) (sort-IsSorted xs)

count_ge-insert_sorted :
    (i a : ℕ) (xs : List ℕ) → count_ge i (insert_sorted a xs) ≡ count_ge i (a ∷ xs)
unfolding insert_sorted
count_ge-insert_sorted i a [] = refl
count_ge-insert_sorted i a (x ∷ xs) = ground (arith, count_ge-insert_sorted i a xs)

count_ge-sort : (i : ℕ) (xs : List ℕ) → count_ge i (sort_unstable xs) ≡ count_ge i xs
unfolding sort_unstable
count_ge-sort i [] = refl
count_ge-sort i (x ∷ xs) =
    omega (arith, count_ge-insert_sorted i x (sort_unstable xs), count_ge-sort i xs)

length-insert_sorted : (a : ℕ) (xs : List ℕ) → length (insert_sorted a xs) ≡ suc (length xs)
unfolding insert_sorted
length-insert_sorted a [] = refl
length-insert_sorted a (x ∷ xs) = ground (arith, length-insert_sorted a xs)

length-sort : (xs : List ℕ) → length (sort_unstable xs) ≡ length xs
unfolding sort_unstable
length-sort [] = refl
length-sort (x ∷ xs) = omega (arith, length-insert_sorted x (sort_unstable xs), length-sort xs)

All-count_ge : (i : ℕ) (xs : List ℕ) → All (λ y. i ≤ y) xs → count_ge i xs ≡ length xs
All-count_ge i [] h = refl
All-count_ge i (x ∷ xs) h = ground (arith, All-count_ge i xs h.1)

sorted-count_ge :
    (xs : List ℕ) (k i : ℕ) → IsSorted xs → get_elem? xs k ≡ some i → length xs ≤ count_ge i xs + k
sorted-count_ge [] k i s h = cc
sorted-count_ge (x ∷ xs) zero i s h = ground (arith, All-count_ge x xs s.0)
sorted-count_ge (x ∷ xs) (suc k) i s h = ground (arith, sorted-count_ge xs k i s.1 h)

median-count_ge :
    (xs : List ℕ) (i : ℕ) → median xs ≡ some i → length xs ≤ count_ge i xs + length xs / 2
unfolding median
median-count_ge xs i h = omega (
  arith,
  sorted-count_ge (sort_unstable xs) (length (sort_unstable xs) / 2) i (sort-IsSorted xs) h,
  count_ge-sort i xs,
  length-sort xs,
)

of_term-some :
    {R : Type 0} (t i j : ℕ) (o : Option (LogEntry R))
    → of_term t i o ≡ some j
    → (i ≡ j) × ((e : LogEntry R) × (o ≡ some e) × (e.term ≡ t))
unfolding of_term
of_term-some t i j none h = cc
of_term-some t i j (some e) h = (ground arith, (e, refl, ground arith))

module _ {S R P : Type 0} (st : State S R) where
  -- An index that a leader finds to commit has an entry of the leader's term in its log, and more
  -- than half of the leader and the peers whose match index is known, the leader counted, are at
  -- that index or further on.
  pub commit_candidate-majority :
      (peers : HashMap Progress) (w : World S R P) (i : ℕ)
      → commit_candidate st peers w ≡ some i
      → ((e : LogEntry R) × (st.get_entry i w.state ≡ some e) × (e.term ≡ w.current_term))
        × (length (match_indices peers) + 1 < 2 * (1 + count_ge i (match_indices peers)))
  unfolding commit_candidate
  commit_candidate-majority peers w i h = elim (Option-cases (median (match_indices peers))) [
    | inl e ↦ absurd (ground arith)
    | inr (j, e) ↦
        let of : of_term w.current_term j (st.get_entry j w.state) ≡ some i = ground arith in
        let (same, found) = of_term-some w.current_term j i (st.get_entry j w.state) of in
        let majority = median-count_ge (match_indices peers) j e in
        (
          subst
              (λ k.
                (x : LogEntry R) × (st.get_entry k w.state ≡ some x) × (x.term ≡ w.current_term))
              same found,
          ground arith,
        )
  ]
