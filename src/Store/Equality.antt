-- ===== src/Store/Equality.antt =====
-- `PartialEq` of zeroraft/src/state.rs (LogEntry) and command.rs (Command, where it is derived). The
-- comparison of client requests is a parameter.
use zeroraft.Base.{◌≡◌, ◌↔◌, refl, List, [], ◌∷◌, Bool, true, false, ◌==◌, ◌&&◌, arith}
use zeroraft.Store.{NodeId, Command, single_config, joint_config, client_request, LogEntry}

same_ids : List NodeId → List NodeId → Bool
same_ids [] [] = true
same_ids (a ∷ is) (b ∷ js) = (a == b) && same_ids is js
same_ids _ _ = false

module _ {R : Type 0} (same_request : R → R → Bool) where
  same_command : Command R → Command R → Bool
  unfolding same_ids
  same_command (single_config is) (single_config js) = same_ids is js
  same_command (joint_config is js) (joint_config ks ls) = same_ids is ks && same_ids js ls
  same_command (client_request q) (client_request r) = same_request q r
  same_command _ _ = false

  unfoldable eq : LogEntry R → LogEntry R → Bool
  unfolding same_command
  eq a b = (a.term == b.term) && same_command a.command b.command

same_ids-true_iff : (is js : List NodeId) → (same_ids is js ≡ true) ↔ (is ≡ js)
unfolding same_ids
same_ids-true_iff [] [] = (λ h. refl, λ h. refl)
same_ids-true_iff [] (b ∷ js) = ground arith
same_ids-true_iff (a ∷ is) [] = ground arith
same_ids-true_iff (a ∷ is) (b ∷ js) = ground (arith, same_ids-true_iff is js)

module _ {R : Type 0} (same_request : R → R → Bool)
    (decides : (q r : R) → (same_request q r ≡ true) ↔ (q ≡ r)) where
  same_command-true_iff : (c d : Command R) → (same_command same_request c d ≡ true) ↔ (c ≡ d)
  unfolding same_command
  same_command-true_iff (single_config is) (single_config js) =
      ground (arith, same_ids-true_iff is js)
  same_command-true_iff (joint_config is js) (joint_config ks ls) =
      ground (arith, same_ids-true_iff is ks, same_ids-true_iff js ls)
  same_command-true_iff (client_request q) (client_request r) = ground (arith, decides q r)
  same_command-true_iff (single_config is) (joint_config js ks) = ground arith
  same_command-true_iff (single_config is) (client_request r) = ground arith
  same_command-true_iff (joint_config is js) (single_config ks) = ground arith
  same_command-true_iff (joint_config is js) (client_request r) = ground arith
  same_command-true_iff (client_request q) (single_config js) = ground arith
  same_command-true_iff (client_request q) (joint_config js ks) = ground arith

  -- If the comparison of client requests decides their equality, that of log entries decides theirs.
  eq-true_iff : (a b : LogEntry R) → (eq same_request a b ≡ true) ↔ (a ≡ b)
  unfolding eq
  eq-true_iff a b = ground (arith, same_command-true_iff a.command b.command)
