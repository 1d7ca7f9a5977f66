-- ===== src/Lifecycle/Effects.antt =====
-- Asynchronous code as state passing: an effect takes the state of the host, and leaves one and
-- a result. Each `await` of the source is one step, and code that throws is an `err`.
use pickforge.Base.{◌≡◌, ◌⊎◌, inl, inr, refl, Result, ok, err}

abbrev pub Effect {σ ε ℓ} : Type σ → Type ε → Type ℓ → Type (σ ⊔ ε ⊔ ℓ)
Effect S E A = S → S × Result E A

-- What follows an `await` that returned.
abbrev pub and_then {σ ε ℓ κ} :
    {S : Type σ} {E : Type ε} {A : Type ℓ} {B : Type κ}
    → S × Result E A
    → (A → Effect S E B)
    → S × Result E B
and_then (s, ok a) f = f a s
and_then (s, err e) f = (s, err e)

-- `await m.catch(() => {})`, before what follows.
abbrev pub ignoring {σ ε ℓ} : {S : Type σ} {E : Type ε} {A : Type ℓ} → S × Result E A → S
ignoring (s, r) = s

pub Outcome-cases {σ ε ℓ} :
    {S : Type σ} {E : Type ε} {A : Type ℓ} (m : S × Result E A)
    → ((s : S) × (a : A) × (m ≡ (s, ok a))) ⊎ ((s : S) × (e : E) × (m ≡ (s, err e)))
Outcome-cases (s, ok a) = inl (s, a, refl)
Outcome-cases (s, err e) = inr (s, e, refl)
