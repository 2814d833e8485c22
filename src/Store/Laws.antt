-- ===== src/Store/Laws.antt =====
-- Laws of a store, over a view of it; with entries numbered from 1 they are what the comments of the trait
-- `State` promise of the methods that a node calls.
use zeroraft.Base.{
  ℕ, zero, suc, ◌≡◌, List, ◌++◌, Option, none, some, Out, ok, err, panic, blocked, length, arith,
  min, get_elem?, take, drop, ◌-◌, last?,
}
use zeroraft.Store.{NodeId, HashMap, SocketAddr, LogEntry, State}

-- What a client can tell of a store. The stored term stands apart: see `MemoryState`.
pub record View (R : Type 0) : Type 0 where
  pub log : List (LogEntry R)
  pub commit : ℕ
  pub membership : HashMap SocketAddr
  pub vote : Option NodeId

-- A call that returns `Ok` leaves the view `v`; one that fails may leave anything, and none panics.
abbrev pub Leaves : {S R : Type 0} → (S → View R) → Out S (Unit {0}) → View R → Type 0
Leaves view (ok _ s) v = view s ≡ v
Leaves view (err _ s) v = Unit
Leaves view (panic s) v = ⊥
Leaves view (blocked s) v = ⊥

-- The entry of a log whose first entry has the index `base`.
abbrev pub entry_at {ℓ} : {A : Type ℓ} → ℕ → List A → ℕ → Option A
entry_at zero xs i = get_elem? xs i
entry_at (suc b) xs zero = none
entry_at (suc b) xs (suc i) = entry_at b xs i

abbrev pub term_or_zero : {R : Type 0} → Option (LogEntry R) → ℕ
term_or_zero none = 0
term_or_zero (some e) = e.term

-- What the results assume of a store. `get_entry` and `get_entries` have the first entry at index `base`.
-- `remove_entries_after` and `get_last_index` count the entries, whatever `base` is: so only with
-- the base 1 is this what the trait promises, that entries start at index 1, that what follows the
-- entry of an index is removed, and that the last index is that of the last entry. With the base 0
-- it is what `MemoryState` does instead. Nothing is said of applying entries to a state machine.
pub record IsState {S R : Type 0} (base : ℕ) (st : State S R) : Type 0 where
  pub view : S → View R
  pub appends :
      (es : List (LogEntry R)) (s : S)
      → Leaves view (st.append_entries es s) (record (view s) { log = (view s).log ++ es })
  pub removes :
      (i : ℕ) (s : S)
      → Leaves view (st.remove_entries_after i s) (record (view s) { log = take i (view s).log })
  pub commits :
      (i : ℕ) (s : S) → Leaves view (st.set_last_commit_index i s) (record (view s) { commit = i })
  pub initial_members :
      (m : HashMap SocketAddr) (s : S)
      → Leaves view (st.set_initial_membership m s) (record (view s) { membership = m })
  pub votes :
      (c : NodeId) (s : S)
      → Leaves view (st.store_voted_for c s) (record (view s) { vote = some c })
  pub stores_term : (t : ℕ) (s : S) → Leaves view (st.store_current_term t s) (view s)
  pub entry_lem : (i : ℕ) (s : S) → st.get_entry i s ≡ entry_at base (view s).log i
  pub entries_lem : (i : ℕ) (s : S) → st.get_entries i none s ≡ drop (i - base) (view s).log
  pub entries_limit_lem :
      (i limit : ℕ) (s : S)
      → st.get_entries i (some limit) s ≡ take limit (drop (i - base) (view s).log)
  pub last_index_lem : (s : S) → st.get_last_index s ≡ length (view s).log
  pub last_term_lem : (s : S) → st.get_last_term s ≡ term_or_zero (last? (view s).log)
  pub commit_lem : (s : S) → st.get_last_commit_index s ≡ (view s).commit
  pub membership_lem : (s : S) → st.get_membership s ≡ (view s).membership
  pub vote_lem : (s : S) → st.load_voted_for s ≡ (view s).vote

-- No write of the store fails.
pub record IsReliable {S R : Type 0} (st : State S R) : Type 0 where
  pub appends_ok : (es : List (LogEntry R)) (s : S) → (s' : S) × (st.append_entries es s ≡ ok tt s')
  pub removes_ok : (i : ℕ) (s : S) → (s' : S) × (st.remove_entries_after i s ≡ ok tt s')
  pub commits_ok : (i : ℕ) (s : S) → (s' : S) × (st.set_last_commit_index i s ≡ ok tt s')
  pub votes_ok : (c : NodeId) (s : S) → (s' : S) × (st.store_voted_for c s ≡ ok tt s')
  pub stores_term_ok : (t : ℕ) (s : S) → (s' : S) × (st.store_current_term t s ≡ ok tt s')

pub Leaves-ok :
    {S R : Type 0} (view : S → View R) (r : Out S (Unit {0})) (s : S) (v : View R)
    → Leaves view r v
    → r ≡ ok tt s
    → view s ≡ v
Leaves-ok view (ok a s') s v l e = ground arith
Leaves-ok view (err x s') s v l e = cc
Leaves-ok view (panic s') s v l e = cc
Leaves-ok view (blocked s') s v l e = cc

module _ {S R : Type 0} {base : ℕ} {st : State S R} (laws : IsState base st)
    (rel : IsReliable st) where
  open laws use {view}

  -- The two writes of a vote: both are made, and the log stays as it was.
  pub vote_writes :
      (t : ℕ) (c : NodeId) (s : S)
      → (s₁ : S) × (s₂ : S) × (st.store_current_term t s ≡ ok tt s₁)
        × (st.store_voted_for c s₁ ≡ ok tt s₂)
        × (view s₂ ≡ record (view s) { vote = some c })
  vote_writes t c s =
      let (s₁, e₁) = rel.stores_term_ok t s in
      let (s₂, e₂) = rel.votes_ok c s₁ in
      let v₁ = Leaves-ok view _ s₁ _ (laws.stores_term t s) e₁ in
      let v₂ = Leaves-ok view _ s₂ _ (laws.votes c s₁) e₂ in (s₁, s₂, e₁, e₂, rw (v₂, v₁))

  -- The three writes of an accepted AppendEntries, after the write of the term.
  pub append_writes :
      (t i c : ℕ) (es : List (LogEntry R)) (s : S)
      → let log' = take i (view s).log ++ es in
        (s₀ : S) × (s₁ : S) × (s₂ : S) × (s₃ : S) × (st.store_current_term t s ≡ ok tt s₀)
        × (view s₀ ≡ view s)
        × (st.remove_entries_after i s₀ ≡ ok tt s₁)
        × (st.append_entries es s₁ ≡ ok tt s₂)
        × (st.get_last_index s₂ ≡ length log')
        × (st.set_last_commit_index (min c (length log')) s₂ ≡ ok tt s₃)
        × (view s₃ ≡ record (view s) { log = log'; commit = min c (length log') })
  append_writes t i c es s =
      let log' = take i (view s).log ++ es in
      let (s₀, e₀) = rel.stores_term_ok t s in
      let (s₁, e₁) = rel.removes_ok i s₀ in
      let (s₂, e₂) = rel.appends_ok es s₁ in
      let (s₃, e₃) = rel.commits_ok (min c (length log')) s₂ in
      let v₀ = Leaves-ok view _ s₀ _ (laws.stores_term t s) e₀ in
      let v₁ = Leaves-ok view _ s₁ _ (laws.removes i s₀) e₁ in
      let v₂ = Leaves-ok view _ s₂ _ (laws.appends es s₁) e₂ in
      let v₃ = Leaves-ok view _ s₃ _ (laws.commits _ s₂) e₃ in
      (
        s₀,
        s₁,
        s₂,
        s₃,
        e₀,
        v₀,
        e₁,
        e₂,
        rw (laws.last_index_lem s₂, v₂, v₁, v₀),
        e₃,
        rw (v₃, v₂, v₁, v₀),
      )
