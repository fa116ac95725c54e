-- ===== src/Base/Runs.antt =====
-- What a run of a C function comes to: a value, or an access outside an array. `out_of_fuel` is
-- nothing that the C code does: it says that a bounded loop of the model was given too few rounds.
use mathlib.Core.Path.{◌≡◌, refl}
use mathlib.Core.Bool.{Bool, true, false}
use spamass.Base.Tests.{if◌then◌else◌}

pub data Outcome {ℓ} (A : Type ℓ) : Type ℓ where
  ok : A → Outcome A
  out_of_bounds : Outcome A
  out_of_fuel : Outcome A

infixl 5 ◌>>=◌
abbrev pub ◌>>=◌ {ℓ κ} : {A : Type ℓ} {B : Type κ} → Outcome A → (A → Outcome B) → Outcome B
ok a >>= f = f a
out_of_bounds >>= f = out_of_bounds
out_of_fuel >>= f = out_of_fuel

-- A value is returned, and it has the property.
abbrev pub Returns {ℓ} : {A : Type ℓ} → Outcome A → (A → Type 0) → Type 0
Returns (ok a) P = P a
Returns out_of_bounds P = ⊥
Returns out_of_fuel P = ⊥

pub Returns-eq_ok {ℓ} :
    {A : Type ℓ} (m : Outcome A) {P : A → Type 0} → Returns m P → (a : A) × (m ≡ ok a) × P a
Returns-eq_ok (ok a) p = (a, refl, p)
Returns-eq_ok out_of_bounds p = absurd p
Returns-eq_ok out_of_fuel p = absurd p

pub Returns-bind {ℓ κ} :
    {A : Type ℓ} {B : Type κ} (m : Outcome A) (f : A → Outcome B) (P : A → Type 0) (Q : B → Type 0)
    → Returns m P
    → ((a : A) → P a → Returns (f a) Q)
    → Returns (m >>= f) Q
Returns-bind (ok a) f P Q p h = h a p
Returns-bind out_of_bounds f P Q p h = p
Returns-bind out_of_fuel f P Q p h = p

pub Returns-if {ℓ} :
    {A : Type ℓ} (b : Bool) (x y : Outcome A) (P : A → Type 0)
    → (b ≡ true → Returns x P)
    → (b ≡ false → Returns y P)
    → Returns (if b then x else y) P
Returns-if true x y P h k = h refl
Returns-if false x y P h k = k refl

pub Returns-map {ℓ} :
    {A : Type ℓ} (m : Outcome A) (P Q : A → Type 0)
    → ((a : A) → P a → Q a)
    → Returns m P
    → Returns m Q
Returns-map (ok a) P Q f p = f a p
Returns-map out_of_bounds P Q f p = p
Returns-map out_of_fuel P Q f p = p

-- What a result satisfies, if there is one.
abbrev pub WhenReturns {ℓ} : {A : Type ℓ} → Outcome A → (A → Type 0) → Type 0
WhenReturns (ok a) P = P a
WhenReturns out_of_bounds P = Unit
WhenReturns out_of_fuel P = Unit

pub WhenReturns-bind {ℓ κ} :
    {A : Type ℓ} {B : Type κ} (m : Outcome A) (f : A → Outcome B) (P : A → Type 0) (Q : B → Type 0)
    → WhenReturns m P
    → ((a : A) → P a → WhenReturns (f a) Q)
    → WhenReturns (m >>= f) Q
WhenReturns-bind (ok a) f P Q p h = h a p
WhenReturns-bind out_of_bounds f P Q p h = tt
WhenReturns-bind out_of_fuel f P Q p h = tt

pub WhenReturns-if {ℓ} :
    {A : Type ℓ} (b : Bool) (x y : Outcome A) (P : A → Type 0)
    → WhenReturns x P
    → WhenReturns y P
    → WhenReturns (if b then x else y) P
WhenReturns-if true x y P p q = p
WhenReturns-if false x y P p q = q

pub WhenReturns-weaken {ℓ} :
    {A : Type ℓ} (m : Outcome A) (P Q : A → Type 0)
    → WhenReturns m P
    → ((a : A) → P a → Q a)
    → WhenReturns m Q
WhenReturns-weaken (ok a) P Q p h = h a p
WhenReturns-weaken out_of_bounds P Q p h = tt
WhenReturns-weaken out_of_fuel P Q p h = tt

pub WhenReturns-ok {ℓ} :
    {A : Type ℓ} (m : Outcome A) (P : A → Type 0) {a : A} → WhenReturns m P → m ≡ ok a → P a
WhenReturns-ok m P h e = rw e at h

pub WhenReturns-after {ℓ κ} :
    {A : Type ℓ} {B : Type κ} (m : Outcome A) (f : A → Outcome B) (Q : B → Type 0)
    → ((a : A) → WhenReturns (f a) Q)
    → WhenReturns (m >>= f) Q
WhenReturns-after (ok a) f Q h = h a
WhenReturns-after out_of_bounds f Q h = tt
WhenReturns-after out_of_fuel f Q h = tt
