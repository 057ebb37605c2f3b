-- ===== src/Common/Partial.antt =====
-- `Option` as the result of a call that may not return.
use mathlib.Core.Path.{◌≡◌, refl, subst}
use mathlib.Core.Option.{Option, none, some, some-injective}

infixl 5 ◌>>=◌
abbrev pub ◌>>=◌ {ℓ κ} : {A : Type ℓ} {B : Type κ} → Option A → (A → Option B) → Option B
some a >>= f = f a
none >>= f = none

-- Inversion of a chain that returns.
pub >>=-eq-some {ℓ κ} :
    {A : Type ℓ} {B : Type κ} (m : Option A) (f : A → Option B) {b : B}
    → (m >>= f) ≡ some b
    → (a : A) × (m ≡ some a) × (f a ≡ some b)
>>=-eq-some (some a) f h = (a, refl, h)
>>=-eq-some none f h = cc

-- A fact about what a call returns, carried over to the name of its result.
pub along_some {ℓ κ} :
    {A : Type ℓ} (P : A → Type κ) (a b : A) → ◌≡◌ {A = Option A} (some a) (some b) → P a → P b
along_some P a b h = subst P (some-injective a b h)
