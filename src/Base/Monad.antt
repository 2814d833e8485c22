-- ===== src/Base/Monad.antt =====
-- How a call ends: a state monad whose failures keep the state, since what a method wrote to a
-- shared object before an early return stays written.
use mathlib.Core.Path.{◌≡◌, refl}
use zeroraft.Error.{ZeroraftError}

-- `Ok(a)`, an early return with `Err(e)`, a panic, or an `await` that can never be woken.
pub data Out {ℓ κ} (W : Type ℓ) (A : Type κ) : Type (ℓ ⊔ κ) where
  ok : A → W → Out W A
  err : ZeroraftError → W → Out W A
  panic : W → Out W A
  blocked : W → Out W A

abbrev pub Action {ℓ κ} : Type ℓ → Type κ → Type (ℓ ⊔ κ)
Action W A = W → Out W A

infixl 5 ◌>>=◌ ◌>>◌
abbrev pub ◌>>=◌ {ℓ κ μ} :
    {W : Type ℓ} {A : Type κ} {B : Type μ} → Action W A → (A → Action W B) → Action W B
◌>>=◌ m f w = elim (m w) [
  | ok a w' ↦ f a w'
  | err e w' ↦ err e w'
  | panic w' ↦ panic w'
  | blocked w' ↦ blocked w'
]

abbrev pub ◌>>◌ {ℓ κ} : {W : Type ℓ} {B : Type κ} → Action W (Unit {0}) → Action W B → Action W B
m >> k = m >>= λ _. k

abbrev pub return {ℓ κ} : {W : Type ℓ} {A : Type κ} → A → Action W A
return a w = ok a w

abbrev pub fail {ℓ κ} : {W : Type ℓ} {A : Type κ} → ZeroraftError → Action W A
fail e w = err e w

abbrev pub abort {ℓ κ} : {W : Type ℓ} {A : Type κ} → Action W A
abort w = panic w

abbrev pub gets {ℓ κ} : {W : Type ℓ} {A : Type κ} → (W → A) → Action W A
gets f w = ok (f w) w

abbrev pub modify {ℓ} : {W : Type ℓ} → (W → W) → Action W (Unit {0})
modify f w = ok tt (f w)

-- The state in which a call ends, however it ends.
abbrev pub after {ℓ κ} : {W : Type ℓ} {A : Type κ} → Out W A → W
after (ok a w) = w
after (err e w) = w
after (panic w) = w
after (blocked w) = w

-- The call ended with `Ok`, in a state with `Q`.
abbrev pub Returns {ℓ κ} : {W : Type ℓ} {A : Type κ} → Out W A → (W → Type 0) → Type 0
Returns (ok a w) Q = Q w
Returns (err e w) Q = ⊥
Returns (panic w) Q = ⊥
Returns (blocked w) Q = ⊥

pub Returns-mono :
    {W A : Type 0} (o : Out W A) (P Q : W → Type 0)
    → ((w : W) → P w → Q w)
    → Returns o P
    → Returns o Q
Returns-mono (ok a w) P Q f h = f w h
Returns-mono (err e w) P Q f h = h
Returns-mono (panic w) P Q f h = h
Returns-mono (blocked w) P Q f h = h

pub Returns-ok :
    {W A : Type 0} (o : Out W A) (Q : W → Type 0)
    → Returns o Q
    → (a : A) × (w : W) × (o ≡ ok a w) × Q w
Returns-ok (ok a w) Q h = (a, w, refl, h)
Returns-ok (err e w) Q h = elim h [ ]
Returns-ok (panic w) Q h = elim h [ ]
Returns-ok (blocked w) Q h = elim h [ ]
