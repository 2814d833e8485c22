-- ===== src/Memory.antt =====
-- zeroraft/tests/fixtures/state.rs: `MemoryState`, the store that the repository runs its nodes on.
pub mod Laws
pub mod Term
use zeroraft.Base.{
  ℕ, zero, List, [], ◌∷◌, ◌++◌, Option, none, some, Action, ok, err, length, get_elem?, take, drop,
  last?,
}
use zeroraft.Error.{custom}
use zeroraft.Store.{NodeId, HashMap, SocketAddr, LogEntry, State}

pub record MemoryState {ℓ} (R : Type ℓ) : Type ℓ where
  pub entries : List (LogEntry R)
  pub membership : HashMap SocketAddr
  pub commit_index : ℕ
  pub applied_index : ℕ
  pub current_term : ℕ
  pub voted_for : Option NodeId

module _ {ℓ} {R : Type ℓ} where
  -- `for e in entries { self.entries.push(e); }`
  unfoldable pub push_all : List (LogEntry R) → List (LogEntry R) → List (LogEntry R)
  push_all log [] = log
  push_all log (e ∷ es) = push_all (log ++ e ∷ []) es

  unfoldable pub get_last_term : MemoryState R → ℕ
  get_last_term s = elim (last? s.entries) [ none ↦ 0 | some e ↦ e.term ]

  unfoldable pub append_entries : List (LogEntry R) → Action (MemoryState R) (Unit {0})
  unfolding push_all get_last_term
  append_entries es s =
      let s' = record s { entries = push_all s.entries es } in
      ok tt (record s' { current_term = get_last_term s' })

  unfoldable pub remove_entries_after : ℕ → Action (MemoryState R) (Unit {0})
  remove_entries_after index s = ok tt (record s { entries = take index s.entries })

  unfoldable pub get_entry : ℕ → MemoryState R → Option (LogEntry R)
  get_entry index s = get_elem? s.entries index

  unfoldable pub get_entries : ℕ → Option ℕ → MemoryState R → List (LogEntry R)
  get_entries start none s = take (length s.entries) (drop start s.entries)
  get_entries start (some limit) s = take limit (drop start s.entries)

  unfoldable pub set_initial_membership : HashMap SocketAddr → Action (MemoryState R) (Unit {0})
  unfolding custom
  set_initial_membership membership s = elim s.membership [
    | [] ↦ ok tt (record s { membership = membership })
    | _ ∷ _ ↦ err (custom "membership already set") s
  ]

  unfoldable pub default : MemoryState R
  default = record {
    entries = [];
    membership = [];
    commit_index = 0;
    applied_index = 0;
    current_term = 0;
    voted_for = none;
  }

  -- `impl State<R> for MemoryState<R>`; the one-line getters and setters stand here.
  abbrev pub memory : State (MemoryState R) R
  memory = record {
    append_entries = append_entries;
    remove_entries_after = remove_entries_after;
    get_entry = get_entry;
    get_entries = get_entries;
    get_last_index = λ s. length s.entries;
    get_last_term = get_last_term;
    get_last_commit_index = λ s. s.commit_index;
    get_last_applied_index = λ s. s.applied_index;
    get_membership = λ s. s.membership;
    set_initial_membership = set_initial_membership;
    set_last_commit_index = λ i s. ok tt (record s { commit_index = i });
    load_voted_for = λ s. s.voted_for;
    load_current_term = λ s. s.current_term;
    store_voted_for = λ c s. ok tt (record s { voted_for = some c });
    store_current_term = λ t s. ok tt (record s { current_term = t });
  }

  -- A store that numbers its entries from 1, as the trait asks; otherwise as above.
  abbrev pub numbered : State (MemoryState R) R
  numbered = record memory { get_entry = from_one; get_entries = entries_from_one }
    where
      from_one : ℕ → MemoryState R → Option (LogEntry R)
      from_one zero s = none
      from_one (ℕ.suc i) s = get_elem? s.entries i

      entries_from_one : ℕ → Option ℕ → MemoryState R → List (LogEntry R)
      entries_from_one zero limit s = get_entries 0 limit s
      entries_from_one (ℕ.suc i) limit s = get_entries i limit s
