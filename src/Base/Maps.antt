-- ===== src/Base/Maps.antt =====
-- `HashMap` and `HashSet` over numbers, as lists in the order of iteration.
use Prim.Native.Nat.{ℕ}
use mathlib.Core.Bool.{Bool, false, ◌||◌}
use mathlib.Core.List.{List, [], ◌∷◌}
use mathlib.Core.Option.{Option, none, some}
use zeroraft.Base.Tests.{◌==◌, if◌then◌else◌}

abbrev pub contains : ℕ → List ℕ → Bool
contains a [] = false
contains a (x ∷ xs) = x == a || contains a xs

-- `HashSet::insert`
abbrev pub insert_key : ℕ → List ℕ → List ℕ
insert_key a xs = if contains a xs then xs else a ∷ xs

-- `HashSet::difference`
abbrev pub difference : List ℕ → List ℕ → List ℕ
difference [] ys = []
difference (x ∷ xs) ys = let rest = difference xs ys in if contains x ys then rest else x ∷ rest

module _ {ℓ} {V : Type ℓ} where
  abbrev pub keys : List (ℕ × V) → List ℕ
  keys [] = []
  keys ((k, v) ∷ m) = k ∷ keys m

  abbrev pub lookup : ℕ → List (ℕ × V) → Option V
  lookup a [] = none
  lookup a ((k, v) ∷ m) = if k == a then some v else lookup a m

  -- A write through `get_mut(a)`: nothing if the key is missing.
  abbrev pub update : ℕ → V → List (ℕ × V) → List (ℕ × V)
  update a v [] = []
  update a v ((k, x) ∷ m) = if k == a then (k, v) ∷ m else (k, x) ∷ update a v m

  -- `insert(k, v)`: the value of a key that is there is replaced.
  abbrev pub insert : ℕ → V → List (ℕ × V) → List (ℕ × V)
  insert k v [] = (k, v) ∷ []
  insert k v ((j, w) ∷ m) = if j == k then (k, v) ∷ m else (j, w) ∷ insert k v m
