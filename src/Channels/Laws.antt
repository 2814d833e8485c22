-- ===== src/Channels/Laws.antt =====
-- What the documentation of `tokio::sync::mpsc` says of a channel whose two ends exist.
use zeroraft.Base.{ℕ, ◌≤◌, ◌<◌, ◌≡◌, List, [], ◌∷◌, ◌++◌, Option, none, some, length}
use zeroraft.Channels.{Mpsc}

-- There is room in a channel without a bound, or with one that is not reached.
abbrev pub HasRoom : Option ℕ → ℕ → Type 0
HasRoom none n = Unit
HasRoom (some capacity) n = n < capacity

-- What a channel holds, oldest first, and its capacity.
pub record IsMpsc (mpsc : Mpsc) : Type 1 where
  pub held : {A : Type 0} → mpsc.Queue A → List A
  pub capacity : {A : Type 0} → mpsc.Queue A → Option ℕ
  pub unbounded_lem :
      {A : Type 0}
      → (held (mpsc.unbounded_channel {A = A}) ≡ [])
        × (capacity (mpsc.unbounded_channel {A = A}) ≡ none)
  pub channel_lem :
      {A : Type 0} (n : ℕ)
      → (held (mpsc.channel {A = A} n) ≡ []) × (capacity (mpsc.channel {A = A} n) ≡ some n)
  pub sends :
      {A : Type 0} (a : A) (q : mpsc.Queue A)
      → HasRoom (capacity q) (length (held q))
      → (q' : mpsc.Queue A) × (mpsc.send a q ≡ some q')
        × (held q' ≡ held q ++ a ∷ [])
        × (capacity q' ≡ capacity q)
  pub send_waits :
      {A : Type 0} (a : A) (q : mpsc.Queue A) (n : ℕ)
      → capacity q ≡ some n
      → n ≤ length (held q)
      → mpsc.send a q ≡ none
  pub receives :
      {A : Type 0} (q : mpsc.Queue A) (a : A) (rest : List A)
      → held q ≡ a ∷ rest
      → (q' : mpsc.Queue A) × (mpsc.recv q ≡ some (a, q'))
        × (held q' ≡ rest)
        × (capacity q' ≡ capacity q)
  pub recv_waits : {A : Type 0} (q : mpsc.Queue A) → held q ≡ [] → mpsc.recv q ≡ none
