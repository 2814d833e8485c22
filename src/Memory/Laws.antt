-- ===== src/Memory/Laws.antt =====
-- `MemoryState` of zeroraft/tests/fixtures/state.rs against the promises of the trait `State`.
use mathlib.Core.List.{append_assoc, append-nil}
use zeroraft.Base.{
  ℕ, zero, suc, ◌≡◌, refl, sym, ◌∙◌, List, [], ◌∷◌, ◌++◌, arith, ap, last?, drop, ◌-◌, none, length,
  take-drop, take, some, get_elem?, after,
}
use zeroraft.Store.{HashMap, SocketAddr, Command, LogEntry, State}
use zeroraft.Store.Laws.{View, Leaves, IsState, IsReliable, entry_at, term_or_zero}
use zeroraft.Memory.{
  MemoryState, set_initial_membership, push_all, append_entries, remove_entries_after, get_entry,
  get_entries, get_last_term, memory, numbered,
}

-- There is nothing at the length of a list, or after it.
get_elem?-take : {A : Type 0} (i : ℕ) (xs : List A) → get_elem? (take i xs) i ≡ none
get_elem?-take zero [] = refl
get_elem?-take (suc i) [] = refl
get_elem?-take zero (x ∷ xs) = refl
get_elem?-take (suc i) (x ∷ xs) = get_elem?-take i xs

get_elem?-length : {A : Type 0} (xs : List A) → get_elem? xs (length xs) ≡ none
get_elem?-length [] = refl
get_elem?-length (x ∷ xs) = get_elem?-length xs

module _ {R : Type 0} where
  abbrev pub memory_view : MemoryState R → View R
  memory_view s = record {
    log = s.entries;
    commit = s.commit_index;
    membership = s.membership;
    vote = s.voted_for;
  }

  pub push_all-append : (log es : List (LogEntry R)) → push_all log es ≡ log ++ es
  unfolding push_all
  push_all-append log [] = sym (append-nil log)
  push_all-append log (e ∷ es) = push_all-append (log ++ e ∷ []) es ∙ append_assoc log (e ∷ []) es

  appends_lem :
      (es : List (LogEntry R)) (s : MemoryState R)
      → ◌≡◌ {A = View R}
          (record (memory_view s) { log = push_all s.entries es })
          (record (memory_view s) { log = s.entries ++ es })
  appends_lem es s = ap (λ l. record (memory_view s) { log = l }) (push_all-append s.entries es)

  pub last_term : (s : MemoryState R) → get_last_term s ≡ term_or_zero (last? s.entries)
  unfolding get_last_term
  last_term s = ground arith

  memory_entries : (i : ℕ) (s : MemoryState R) → get_entries i none s ≡ drop (i - 0) s.entries
  unfolding get_entries
  memory_entries i s =
      let e : i - 0 ≡ i = omega arith in
      rw e (take-drop (length s.entries) i s.entries (omega arith))

  numbered_entries :
      (i : ℕ) (s : MemoryState R) → State.get_entries numbered i none s ≡ drop (i - 1) s.entries
  unfolding get_entries
  numbered_entries zero s = take-drop (length s.entries) 0 s.entries (omega arith)
  numbered_entries (suc i) s =
      let e : suc i - 1 ≡ i = omega arith in
      rw e (take-drop (length s.entries) i s.entries (omega arith))

  memory_limit :
      (i limit : ℕ) (s : MemoryState R)
      → get_entries i (some limit) s ≡ take limit (drop (i - 0) s.entries)
  unfolding get_entries
  memory_limit i limit s = let e : i - 0 ≡ i = omega arith in rw e refl

  numbered_limit :
      (i limit : ℕ) (s : MemoryState R)
      → State.get_entries numbered i (some limit) s ≡ take limit (drop (i - 1) s.entries)
  unfolding get_entries
  numbered_limit zero limit s = refl
  numbered_limit (suc i) limit s = let e : suc i - 1 ≡ i = omega arith in rw e refl

  members_lem :
      (m : HashMap SocketAddr) (s : MemoryState R)
      → Leaves memory_view (set_initial_membership m s) (record (memory_view s) { membership = m })
  unfolding set_initial_membership
  members_lem m s = ground arith

  -- The laws of `MemoryState`, whose first entry has index 0.
  pub memory_laws : IsState 0 (memory {R = R})
  unfolding append_entries remove_entries_after get_entry
  memory_laws = record {
    view = memory_view;
    appends = appends_lem;
    removes = λ i s. refl;
    commits = λ i s. refl;
    initial_members = members_lem;
    votes = λ c s. refl;
    stores_term = λ t s. refl;
    entry_lem = λ i s. refl;
    entries_lem = λ i s. memory_entries i s;
    entries_limit_lem = λ i limit s. memory_limit i limit s;
    last_index_lem = λ s. refl;
    last_term_lem = last_term;
    commit_lem = λ s. refl;
    membership_lem = λ s. refl;
    vote_lem = λ s. refl;
  }

  from_one_lem : (i : ℕ) (s : MemoryState R) → State.get_entry numbered i s ≡ entry_at 1 s.entries i
  from_one_lem zero s = refl
  from_one_lem (suc i) s = refl

  -- The laws of the same store with entries numbered from 1.
  pub numbered_laws : IsState 1 (numbered {R = R})
  unfolding append_entries remove_entries_after
  numbered_laws = record {
    view = memory_view;
    appends = appends_lem;
    removes = λ i s. refl;
    commits = λ i s. refl;
    initial_members = members_lem;
    votes = λ c s. refl;
    stores_term = λ t s. refl;
    entry_lem = from_one_lem;
    entries_lem = λ i s. numbered_entries i s;
    entries_limit_lem = λ i limit s. numbered_limit i limit s;
    last_index_lem = λ s. refl;
    last_term_lem = last_term;
    commit_lem = λ s. refl;
    membership_lem = λ s. refl;
    vote_lem = λ s. refl;
  }

  pub memory_view_lem : (s : MemoryState R) → memory_laws.view s ≡ memory_view s
  unfolding memory_laws
  memory_view_lem s = refl

  removes_itself :
      (i : ℕ) (s : MemoryState R) → get_entry i (after (remove_entries_after i s)) ≡ none
  unfolding get_entry remove_entries_after
  removes_itself i s = get_elem?-take i s.entries

  past_the_end : (s : MemoryState R) → get_entry (length s.entries) s ≡ none
  unfolding get_entry
  past_the_end s = get_elem?-length s.entries

  not_from_one : ¬ IsState 1 (memory {R = R})
  unfolding get_entry
  not_from_one laws =
      let e : LogEntry R = record { term = 1; command = Command.single_config [] } in
      let s : MemoryState R = record {
        entries = e ∷ [];
        membership = [];
        commit_index = 0;
        applied_index = 0;
        current_term = 0;
        voted_for = none;
      } in
      absurd (ground (arith, laws.entry_lem 0 s))

  -- `MemoryState` keeps the laws `IsState` with entries that start at index 0, its view being its
  -- fields, but not with entries that start at index 1, as the trait has it: an entry that
  -- `get_entry` finds at an index is gone after `remove_entries_after` of that index, which is to
  -- remove only those that follow it, and at the last index there is no entry.
  pub memory-IsState :
      (laws : IsState 0 (memory {R = R})) × ((s : MemoryState R) → laws.view s ≡ memory_view s)
      × (¬ IsState 1 (memory {R = R}))
      × ((i : ℕ) (s : MemoryState R)
          → memory.get_entry i (after (memory.remove_entries_after i s)) ≡ none)
      × ((s : MemoryState R) → memory.get_entry (memory.get_last_index s) s ≡ none)
  memory-IsState = (memory_laws, memory_view_lem, not_from_one, removes_itself, past_the_end)

  pub numbered_view_lem : (s : MemoryState R) → numbered_laws.view s ≡ memory_view s
  unfolding numbered_laws
  numbered_view_lem s = refl

  pub memory-IsReliable : IsReliable (memory {R = R})
  unfolding append_entries remove_entries_after
  memory-IsReliable = record {
    appends_ok = λ es s. (_, refl);
    removes_ok = λ i s. (_, refl);
    commits_ok = λ i s. (_, refl);
    votes_ok = λ c s. (_, refl);
    stores_term_ok = λ t s. (_, refl);
  }

  pub numbered-IsReliable : IsReliable (numbered {R = R})
  unfolding append_entries remove_entries_after
  numbered-IsReliable = record {
    appends_ok = λ es s. (_, refl);
    removes_ok = λ i s. (_, refl);
    commits_ok = λ i s. (_, refl);
    votes_ok = λ c s. (_, refl);
    stores_term_ok = λ t s. (_, refl);
  }
