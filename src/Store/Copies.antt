-- ===== src/Store/Copies.antt =====
-- `Clone` of zeroraft/src/state.rs (LogEntry) and command.rs (Command, where it is derived). How a client
-- request is cloned is a parameter.
use zeroraft.Base.{◌≡◌, refl, ap, List, [], ◌∷◌, arith}
use zeroraft.Store.{Command, single_config, joint_config, client_request, LogEntry}

module _ {R : Type 0} (clone_request : R → R) where
  clone_command : Command R → Command R
  clone_command (single_config ids) = single_config ids
  clone_command (joint_config old new) = joint_config old new
  clone_command (client_request q) = client_request (clone_request q)

  unfoldable pub clone : LogEntry R → LogEntry R
  unfolding clone_command
  clone e = record { term = e.term; command = clone_command e.command }

  -- `Vec::clone`
  unfoldable pub clone_each : List (LogEntry R) → List (LogEntry R)
  unfolding clone
  clone_each [] = []
  clone_each (e ∷ es) = clone e ∷ clone_each es

module _ {R : Type 0} (clone_request : R → R) (same : (q : R) → clone_request q ≡ q) where
  clone_command_lem : (c : Command R) → clone_command clone_request c ≡ c
  unfolding clone_command
  clone_command_lem (single_config ids) = refl
  clone_command_lem (joint_config old new) = refl
  clone_command_lem (client_request q) = ap client_request (same q)

  -- If the clone of a client request is the same request, that of a log entry is the same entry.
  clone_lem : (e : LogEntry R) → clone clone_request e ≡ e
  unfolding clone
  clone_lem e = ground (arith, clone_command_lem e.command)

  pub clone_each_lem : (es : List (LogEntry R)) → clone_each clone_request es ≡ es
  unfolding clone_each
  clone_each_lem [] = refl
  clone_each_lem (e ∷ es) = ground (arith, clone_lem e, clone_each_lem es)
