-- ===== src/Base/Outcome.antt =====
-- The outcome of code that may meet undefined behaviour or a failed assertion (`undefined`), and
-- whose loops are modelled on fuel (`out_of_fuel`).

use mathlib.Core.Path.{◌≡◌, refl}
use mathlib.Core.Option.{Option, none, some}

pub data Outcome {ℓ} (A : Type ℓ) : Type ℓ where
  done : A → Outcome A
  undefined : Outcome A
  out_of_fuel : Outcome A

infixl 5 ◌>>=◌
abbrev pub ◌>>=◌ {ℓ κ} : {A : Type ℓ} {B : Type κ} → Outcome A → (A → Outcome B) → Outcome B
done a >>= f = f a
undefined >>= f = undefined
out_of_fuel >>= f = out_of_fuel

-- An optional value that has to be there.
abbrev pub defined {ℓ} : {A : Type ℓ} → Option A → Outcome A
defined none = undefined
defined (some a) = done a

pub bind_congr {ℓ κ} :
    {A : Type ℓ} {B : Type κ} (x : Outcome A) (f g : A → Outcome B)
    → ((a : A) → f a ≡ g a)
    → (x >>= f) ≡ (x >>= g)
bind_congr (done a) f g h = h a
bind_congr undefined f g h = refl
bind_congr out_of_fuel f g h = refl

pub bind_assoc {ℓ κ μ} :
    {A : Type ℓ} {B : Type κ} {C : Type μ} (x : Outcome A) (f : A → Outcome B) (g : B → Outcome C)
    → ((x >>= f) >>= g) ≡ (x >>= λ a. f a >>= g)
bind_assoc (done a) f g = refl
bind_assoc undefined f g = refl
bind_assoc out_of_fuel f g = refl

-- The result, if there is one, has the property.
abbrev pub Holds {ℓ κ} : {A : Type ℓ} → (A → Type κ) → Outcome A → Type κ
Holds P (done a) = P a
Holds P undefined = Unit
Holds P out_of_fuel = Unit

pub bind_congr_where {ℓ κ μ} :
    {A : Type ℓ} {B : Type κ} (P : A → Type μ) (x : Outcome A) (f g : A → Outcome B)
    → Holds P x
    → ((a : A) → P a → f a ≡ g a)
    → (x >>= f) ≡ (x >>= g)
bind_congr_where P (done a) f g p h = h a p
bind_congr_where P undefined f g p h = refl
bind_congr_where P out_of_fuel f g p h = refl
