-- ===== src/Base/Options.antt =====
-- Fallible steps: `none` is a fault, such as a read through a null pointer or a failed assert.
use mathlib.Core.Path.{◌≡◌, refl}
use mathlib.Core.Logic.{◌⊎◌, inl, inr}
use mathlib.Core.Option.{Option, none, some}

infixl 5 ◌>>=◌
abbrev pub ◌>>=◌ {ℓ κ} : {A : Type ℓ} {B : Type κ} → Option A → (A → Option B) → Option B
none >>= f = none
some a >>= f = f a

-- A run that does not fault, and whose result satisfies `P`.
abbrev pub Returns {ℓ} : {A : Type ℓ} → Option A → (A → Type 0) → Type 0
Returns none P = ⊥
Returns (some a) P = P a

-- Every run that does not fault has a result that satisfies `P`.
abbrev pub Ensures {ℓ κ} : {A : Type ℓ} → Option A → (A → Type κ) → Type κ
Ensures none P = Unit
Ensures (some a) P = P a

pub Option-cases {ℓ} : {A : Type ℓ} (o : Option A) → (o ≡ none) ⊎ ((a : A) × (o ≡ some a))
Option-cases none = inl refl
Option-cases (some a) = inr (a, refl)

pub Returns->>= {ℓ κ} :
    {A : Type ℓ} {B : Type κ} (m : Option A) (f : A → Option B) (P : A → Type 0) (Q : B → Type 0)
    → Returns m P
    → ((a : A) → P a → Returns (f a) Q)
    → Returns (m >>= f) Q
Returns->>= (some a) f P Q h k = k a h
Returns->>= none f P Q h k = h

-- A check that is known to pass.
pub Returns_passed {ℓ κ} :
    {A : Type ℓ} {B : Type κ} (m : Option A) (a : A) (f : A → Option B) (P : B → Type 0)
    → m ≡ some a
    → Returns (f a) P
    → Returns (m >>= f) P
Returns_passed m a f P e h = rw e h

pub Returns_map {ℓ} :
    {A : Type ℓ} (m : Option A) (P Q : A → Type 0)
    → Returns m P
    → ((a : A) → P a → Q a)
    → Returns m Q
Returns_map (some a) P Q h k = k a h
Returns_map none P Q h k = h

pub Ensures->>= {ℓ κ μ} :
    {A : Type ℓ} {B : Type κ} (m : Option A) (f : A → Option B) (P : A → Type μ) (Q : B → Type μ)
    → Ensures m P
    → ((a : A) → P a → Ensures (f a) Q)
    → Ensures (m >>= f) Q
Ensures->>= (some a) f P Q h k = k a h
Ensures->>= none f P Q h k = tt

pub Ensures-self {ℓ} : {A : Type ℓ} (m : Option A) → Ensures m (λ a. m ≡ some a)
Ensures-self none = tt
Ensures-self (some a) = refl

-- A result that is there, and what every result satisfies.
pub Returns_both {ℓ} :
    {A : Type ℓ} (m : Option A) (P : A → Type 0) (Q : A → Type ℓ)
    → Returns m P
    → Ensures m Q
    → (a : A) × (m ≡ some a) × P a × Q a
Returns_both none P Q h k = absurd h
Returns_both (some a) P Q h k = (a, refl, h, k)
