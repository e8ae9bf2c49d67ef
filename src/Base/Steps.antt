-- ===== src/Base/Steps.antt =====
-- Steps that may raise: `Option`, with none for an exception.
use mathlib.Core.Path.{◌≡◌, refl}
use mathlib.Core.Option.{Option, none, some}
use true_presence_ese.Base.Tests.{Always}

-- A raise ends a chain of steps.
infixl 5 ◌>>=◌
abbrev pub ◌>>=◌ {ℓ κ} : {A : Type ℓ} {B : Type κ} → Option A → (A → Option B) → Option B
none >>= f = none
some a >>= f = f a

-- A value is there, and has a property.
abbrev pub Returns {ℓ} : {A : Type ℓ} → (A → Type 0) → Option A → Type 0
Returns P none = ⊥
Returns P (some a) = P a

pub >>=-Returns {ℓ κ} :
    {A : Type ℓ} {B : Type κ} (Q : A → Type 0) (P : B → Type 0) (m : Option A) (f : A → Option B)
    → Returns Q m
    → ((a : A) → Q a → Returns P (f a))
    → Returns P (m >>= f)
>>=-Returns Q P none f q h = elim q [ ]
>>=-Returns Q P (some a) f q h = h a q

-- A value is there.
abbrev pub IsSome {ℓ} : {A : Type ℓ} → Option A → Type 0
IsSome m = Returns (λ a. Unit {0}) m

pub >>=-IsSome {ℓ κ} :
    {A : Type ℓ} {B : Type κ} (m : Option A) (f : A → Option B)
    → IsSome m
    → ((a : A) → IsSome (f a))
    → IsSome (m >>= f)
>>=-IsSome m f h k = >>=-Returns (λ a. Unit) (λ b. Unit) m f h (λ a u. k a)

pub Returns→IsSome {ℓ} : {A : Type ℓ} (P : A → Type 0) (m : Option A) → Returns P m → IsSome m
Returns→IsSome P none h = h
Returns→IsSome P (some a) h = tt

pub Returns-some {ℓ} :
    {A : Type ℓ} (P : A → Type 0) (m : Option A) → Returns P m → (a : A) × (m ≡ some a) × P a
Returns-some P none h = elim h [ ]
Returns-some P (some a) h = (a, refl, h)

-- A chain that returns has passed its first step.
pub >>=-eq-some {ℓ κ} :
    {A : Type ℓ} {B : Type κ} (m : Option A) (f : A → Option B) {b : B}
    → (m >>= f) ≡ some b
    → (a : A) × (m ≡ some a) × (f a ≡ some b)
>>=-eq-some none f h = cc
>>=-eq-some (some a) f h = (a, refl, h)

-- What holds of every result of a last step.
pub >>=-Always_any {ℓ κ ν} :
    {A : Type ℓ} {B : Type κ} (P : B → Type ν) (m : Option A) (f : A → Option B)
    → ((a : A) → Always P (f a))
    → Always P (m >>= f)
>>=-Always_any P none f h = tt
>>=-Always_any P (some a) f h = h a
