-- ===== src/Base/Results.antt =====
-- Code that may throw, as values: `err` is what it throws.
use mathlib.Core.Path.{◌≡◌, refl, sym}
use mathlib.Core.Logic.{◌⊎◌, inl, inr}
use mathlib.Core.Bool.{Bool, true, false}

pub data Result {ℓ κ} (E : Type κ) (A : Type ℓ) : Type (ℓ ⊔ κ) where
  ok : A → Result E A
  err : E → Result E A

infixl 5 ◌>>=◌ ◌>>◌
abbrev pub ◌>>=◌ {ℓ κ ι} :
    {E : Type ι} {A : Type ℓ} {B : Type κ} → Result E A → (A → Result E B) → Result E B
ok a >>= f = f a
err e >>= f = err e

abbrev pub ◌>>◌ {ℓ ι} : {E : Type ι} {B : Type ℓ} → Result E (Unit {0}) → Result E B → Result E B
m >> k = m >>= λ _. k

-- `if (!test) throw e`
abbrev pub require {ι} : {E : Type ι} → Bool → E → Result E (Unit {0})
require true e = ok tt
require false e = err e

-- A chain that returned: its first part returned a value, and the rest returned on that value.
pub >>=-returned {ℓ κ ι} :
    {E : Type ι} {A : Type ℓ} {B : Type κ} (next : A → Result E B) {last : B} (first : Result E A)
    → ok last ≡ (first >>= next)
    → (x : A) × (first ≡ ok x) × (next x ≡ ok last)
>>=-returned next (ok x) e = (x, refl, sym e)
>>=-returned next (err thrown) e = cc

pub Result-cases {ℓ ι} :
    {E : Type ι} {A : Type ℓ} (m : Result E A) → ((a : A) × (m ≡ ok a)) ⊎ ((e : E) × (m ≡ err e))
Result-cases (ok a) = inl (a, refl)
Result-cases (err e) = inr (e, refl)
