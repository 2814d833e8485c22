-- ===== src/Store.antt =====
-- zeroraft/src/state.rs and command.rs: log entries, and the trait `State` as an interface, a record
-- of its methods over the type `S` of the store. `get_snapshot` is left out: nothing calls it.
pub mod Laws
pub mod Equality
pub mod Copies
use zeroraft.Base.{ℕ, List, Option, Action}

-- A `Uuid` is a 128-bit number; the code only compares them.
abbrev pub NodeId : Type 0
NodeId = ℕ

pub record SocketAddr : Type 0 where
  pub ip : ℕ
  pub port : ℕ

-- A `HashMap`: its entries in the order in which it would be iterated.
abbrev pub HashMap {ℓ} : Type ℓ → Type ℓ
HashMap V = List (NodeId × V)

pub data Command {ℓ} (R : Type ℓ) : Type ℓ where
  single_config : List NodeId → Command R
  joint_config : List NodeId → List NodeId → Command R
  client_request : R → Command R

pub record LogEntry {ℓ} (R : Type ℓ) : Type ℓ where
  pub term : ℕ
  pub command : Command R

-- A method by `&mut self` returns the store that it leaves behind also when it fails.
pub record State {ℓ κ} (S : Type ℓ) (R : Type κ) : Type (ℓ ⊔ κ) where
  pub append_entries : List (LogEntry R) → Action S (Unit {0})
  pub remove_entries_after : ℕ → Action S (Unit {0})
  pub get_entry : ℕ → S → Option (LogEntry R)
  pub get_entries : ℕ → Option ℕ → S → List (LogEntry R)
  pub get_last_index : S → ℕ
  pub get_last_term : S → ℕ
  pub get_last_commit_index : S → ℕ
  pub get_last_applied_index : S → ℕ
  pub get_membership : S → HashMap SocketAddr
  pub set_initial_membership : HashMap SocketAddr → Action S (Unit {0})
  pub set_last_commit_index : ℕ → Action S (Unit {0})
  pub load_voted_for : S → Option NodeId
  pub load_current_term : S → ℕ
  pub store_voted_for : NodeId → Action S (Unit {0})
  pub store_current_term : ℕ → Action S (Unit {0})
