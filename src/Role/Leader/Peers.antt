-- ===== src/Role/Leader/Peers.antt =====
-- The arithmetic of a replication session: the progress of the peers, and the median match index.
use zeroraft.Base.{
  ℕ, ◌+◌, ◌-◌, ◌/◌, List, [], ◌∷◌, Bool, false, Option, none, some, if◌then◌else◌, ltb, leb, ◌==◌,
  length, get_elem?,
}
use zeroraft.Store.{NodeId, HashMap, LogEntry}
use zeroraft.Node.{u64_mod}

-- `(next_index, match_index)`
abbrev pub Progress : Type 0
Progress = ℕ × Option ℕ

-- `a + b` and `a - b` on `u64`; `none` is a panic.
unfoldable pub checked_add : ℕ → ℕ → Option ℕ
checked_add a b = if ltb (a + b) u64_mod then some (a + b) else none

unfoldable pub checked_sub : ℕ → ℕ → Option ℕ
checked_sub a b = if leb b a then some (a - b) else none

-- Every member but the node itself, from the same next index and with no match index.
unfoldable pub start_peers {ℓ} : {V : Type ℓ} → NodeId → ℕ → HashMap V → HashMap Progress
start_peers id next_index [] = []
start_peers id next_index ((k, _) ∷ m) =
    let rest = start_peers id next_index m in
    if k == id then rest else (k, (next_index, none)) ∷ rest

-- The peers whose next index is at most `last`.
unfoldable pub stale_keys : ℕ → HashMap Progress → List NodeId
stale_keys last [] = []
stale_keys last ((k, (next_index, _)) ∷ m) =
    let rest = stale_keys last m in if leb next_index last then k ∷ rest else rest

unfoldable pub match_indices : HashMap Progress → List ℕ
match_indices [] = []
match_indices ((_, (_, none)) ∷ m) = match_indices m
match_indices ((_, (_, some i)) ∷ m) = i ∷ match_indices m

-- `sort_unstable`: the one sorted arrangement of the numbers.
unfoldable pub insert_sorted : ℕ → List ℕ → List ℕ
insert_sorted a [] = a ∷ []
insert_sorted a (x ∷ xs) = if leb a x then a ∷ x ∷ xs else x ∷ insert_sorted a xs

unfoldable pub sort_unstable : List ℕ → List ℕ
unfolding insert_sorted
sort_unstable [] = []
sort_unstable (x ∷ xs) = insert_sorted x (sort_unstable xs)

-- `match_indices[match_indices.len() / 2]` after the sort, `none` if there is none.
unfoldable pub median : List ℕ → Option ℕ
unfolding sort_unstable
median xs = let sorted = sort_unstable xs in get_elem? sorted (length sorted / 2)

unfoldable pub matches : Option ℕ → ℕ → Bool
matches none last = false
matches (some i) last = i == last

-- The index `i`, if its entry is of the current term.
unfoldable pub of_term : {R : Type 0} → ℕ → ℕ → Option (LogEntry R) → Option ℕ
of_term current_term i none = none
of_term current_term i (some e) = if e.term == current_term then some i else none
