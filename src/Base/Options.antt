-- ===== src/Base/Options.antt =====
-- A run that may fault: `none` is undefined behaviour, such as a read through NULL.
use mathlib.Core.Path.{◌≡◌, refl}
use mathlib.Core.Logic.{◌⊎◌, inl, inr}
use mathlib.Core.Option.{Option, none, some}

infixl 5 ◌>>=◌
abbrev pub ◌>>=◌ {ℓ κ} : {A : Type ℓ} {B : Type κ} → Option A → (A → Option B) → Option B
none >>= f = none
some a >>= f = f a

pub Option-cases {ℓ} : {A : Type ℓ} (o : Option A) → (o ≡ none) ⊎ ((a : A) × (o ≡ some a))
Option-cases none = inl refl
Option-cases (some a) = inr (a, refl)

-- The run ends without a fault, in a value that satisfies `P`.
abbrev pub Returns {ℓ κ} : {A : Type ℓ} → Option A → (A → Type κ) → Type (ℓ ⊔ κ)
Returns {A} r P = (a : A) × (r ≡ some a) × P a

-- What a run that has ended says of its first step.
pub bind_inv {ℓ κ} :
    {A : Type ℓ} {B : Type κ} (m : Option A) (f : A → Option B) {b : B}
    → (m >>= f) ≡ some b
    → (a : A) × (m ≡ some a) × (f a ≡ some b)
bind_inv none f h = cc
bind_inv (some a) f h = (a, refl, h)

pub eq_of_some {ℓ} : {A : Type ℓ} {a b : A} → some a ≡ some b → a ≡ b
eq_of_some h = cc

-- A run that may also report an error: `some none` is a return of -1.
infixl 5 ◌>>?◌
abbrev pub ◌>>?◌ {ℓ κ} :
    {A : Type ℓ} {B : Type κ} → Option (Option A) → (A → Option (Option B)) → Option (Option B)
none >>? f = none
some none >>? f = some none
some (some a) >>? f = f a
