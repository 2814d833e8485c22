-- ===== src/Cluster/Laws.antt =====
-- The servers of a new cluster, and their addresses.
use zeroraft.Base.{
  ℕ, zero, suc, ◌+◌, ◌*◌, ◌≤◌, ◌<◌, ◌≡◌, refl, sym, ap, ◌∙◌, List, [], ◌∷◌, ◌++◌, false, none, some,
  ltb, ltb→lt, Bool-cases, inl, inr, insert, keys, contains, arith,
}
use mathlib.Core.List.{append-nil, append_assoc}
use zeroraft.Store.{NodeId, HashMap, SocketAddr}
use zeroraft.Server.Build.{localhost}
use zeroraft.Safety.Quorum.{Distinct}
use zeroraft.Cluster.{peer_port, peer_addrs}

-- A new key goes to the end.
pub insert_fresh {ℓ} :
    {V : Type ℓ} (k : ℕ) (v : V) (m : List (ℕ × V))
    → contains k (keys m) ≡ false
    → insert k v m ≡ m ++ (k, v) ∷ []
insert_fresh k v [] h = refl
insert_fresh k v ((j, w) ∷ m) h = ground (arith, insert_fresh k v m)

keys-append {ℓ} : {V : Type ℓ} (m n : List (ℕ × V)) → keys (m ++ n) ≡ keys m ++ keys n
keys-append [] n = refl
keys-append ((k, v) ∷ m) n = ap (λ x. k ∷ x) (keys-append m n)

contains-append :
    (a : ℕ) (xs ys : List ℕ)
    → contains a xs ≡ false
    → contains a ys ≡ false
    → contains a (xs ++ ys) ≡ false
contains-append a [] ys h g = g
contains-append a (x ∷ xs) ys h g = ground (arith, contains-append a xs ys)

-- The numbers for which a port exists.
abbrev pub max_nodes : ℕ
max_nodes = 29993

peer_port-some : (i : ℕ) → i < max_nodes → peer_port i ≡ some (5550 + i * 2)
unfolding peer_port
peer_port-some i h = ground arith

peer_port-none : (i : ℕ) → max_nodes ≤ i → peer_port i ≡ none
unfolding peer_port
peer_port-none i h = ground arith

-- The ports of the nodes from number `i` on: one for peers and one for clients each.
abbrev pub ports_from : ℕ → ℕ → List ℕ
ports_from i zero = []
ports_from i (suc left) = (5550 + i * 2) ∷ (5551 + i * 2) ∷ ports_from (i + 1) left

ports_above : (p i left : ℕ) → p < 5550 + i * 2 → contains p (ports_from i left) ≡ false
ports_above p i zero h = refl
ports_above p i (suc left) h = ground (arith, ports_above p (i + 1) left)

pub ports-Distinct : (i left : ℕ) → Distinct (ports_from i left)
ports-Distinct i zero = tt
ports-Distinct i (suc left) = (
  ground (arith, ports_above (5550 + i * 2) (i + 1) left (omega arith)),
  (ports_above (5551 + i * 2) (i + 1) left (omega arith), ports-Distinct (i + 1) left),
)

-- The address of the node with number `i`.
abbrev pub address_of : ℕ → SocketAddr
address_of i = record { ip = localhost; port = 5550 + i * 2 }

module _ (new_v4 : ℕ → NodeId) where
  -- The addresses of `left` nodes from number `i` on, under their ids.
  abbrev pub addrs_from : ℕ → ℕ → HashMap SocketAddr
  addrs_from i zero = []
  addrs_from i (suc left) = (new_v4 i, address_of i) ∷ addrs_from (i + 1) left

  -- The ids are those that no other node has.
  abbrev pub IsUnique : Type 0
  IsUnique = (i j : ℕ) → new_v4 i ≡ new_v4 j → i ≡ j

  pub peer_addrs-none :
      (i left : ℕ) (m : HashMap SocketAddr)
      → i ≤ max_nodes
      → max_nodes < i + left
      → peer_addrs new_v4 i left m ≡ none
  unfolding peer_addrs
  peer_addrs-none i zero m h g = absurd (omega arith)
  peer_addrs-none i (suc left) m h g = elim (Bool-cases (ltb i max_nodes)) [
    | inl l ↦ ground (
      arith,
      peer_addrs-none (i + 1) left (insert (new_v4 i) (address_of i) m)
          (omega (arith, ltb→lt i max_nodes l)),
    )
    | inr l ↦ ground arith
  ]

  keys_after :
      (k i left : ℕ) → IsUnique → k < i → contains (new_v4 k) (keys (addrs_from i left)) ≡ false
  keys_after k i zero u h = refl
  keys_after k i (suc left) u h = ground (arith, u k i, keys_after k (i + 1) left u)

  -- No key of the map is an id that is still to be drawn.
  abbrev pub Below : {V : Type 0} → ℕ → HashMap V → Type 0
  Below i m = (j : ℕ) → i ≤ j → contains (new_v4 j) (keys m) ≡ false

  peer_addrs-suc :
      (i left : ℕ) (m : HashMap SocketAddr)
      → i < max_nodes
      → contains (new_v4 i) (keys m) ≡ false
      → peer_addrs new_v4 i (suc left) m
        ≡ peer_addrs new_v4 (i + 1) left (m ++ (new_v4 i, address_of i) ∷ [])
  unfolding peer_addrs
  peer_addrs-suc i left m h b = ground (arith, insert_fresh (new_v4 i) (address_of i) m b)

  pub Below-append :
      {V : Type 0} (i : ℕ) (v : V) (m : HashMap V)
      → IsUnique
      → Below i m
      → Below (i + 1) (m ++ (new_v4 i, v) ∷ [])
  Below-append i v m u b j h =
      ap (contains (new_v4 j)) (keys-append m ((new_v4 i, v) ∷ []))
      ∙ contains-append (new_v4 j) (keys m) (new_v4 i ∷ []) (b j (omega arith))
          (ground (arith, u i j))

  pub peer_addrs-some :
      (i left : ℕ) (m : HashMap SocketAddr)
      → IsUnique
      → Below i m
      → i + left ≤ max_nodes
      → peer_addrs new_v4 i left m ≡ some (m ++ addrs_from i left)
  unfolding peer_addrs
  peer_addrs-some i zero m u b h = ap some (sym (append-nil m))
  peer_addrs-some i (suc left) m u b h =
      peer_addrs-suc i left m (omega arith) (b i (omega arith))
      ∙ peer_addrs-some (i + 1) left (m ++ (new_v4 i, address_of i) ∷ []) u
          (Below-append i (address_of i) m u b) (omega arith)
      ∙ ap some (append_assoc m ((new_v4 i, address_of i) ∷ []) (addrs_from (i + 1) left))
