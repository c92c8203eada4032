-- ===== src/Base/Results.antt =====
-- What a call returns or throws.
use mathlib.Core.Path.{◌≡◌, refl}
use mathlib.Core.Logic.{◌⊎◌, inl, inr}

pub data Result {ℓ κ} (E : Type ℓ) (A : Type κ) : Type (ℓ ⊔ κ) where
  ok : A → Result E A
  err : E → Result E A

infixl 5 ◌>>=◌
abbrev pub ◌>>=◌ {ℓ κ ι} :
    {E : Type ℓ} {A : Type κ} {B : Type ι} → Result E A → (A → Result E B) → Result E B
ok a >>= f = f a
err e >>= f = err e

pub Result-cases {ℓ κ} :
    {E : Type ℓ} {A : Type κ} (r : Result E A) → ((a : A) × (r ≡ ok a)) ⊎ ((e : E) × (r ≡ err e))
Result-cases (ok a) = inl (a, refl)
Result-cases (err e) = inr (e, refl)

-- A property of what is returned, if anything is.
abbrev pub Holds {ℓ κ ι} : {E : Type ℓ} {A : Type κ} → (A → Type ι) → Result E A → Type ι
Holds P (ok a) = P a
Holds P (err e) = Unit

pub Holds-bind {ℓ κ ι μ ν} :
    {E : Type ℓ} {A : Type κ} {B : Type ι} (P : A → Type μ) (Q : B → Type ν) (m : Result E A)
    (f : A → Result E B)
    → Holds P m
    → ((a : A) → P a → Holds Q (f a))
    → Holds Q (m >>= f)
Holds-bind P Q (ok a) f h k = k a h
Holds-bind P Q (err e) f h k = tt

pub Holds-eq {ℓ κ ι} :
    {E : Type ℓ} {A : Type κ} (P : A → Type ι) (m : Result E A)
    → ((a : A) → m ≡ ok a → P a)
    → Holds P m
Holds-eq P (ok a) h = h a refl
Holds-eq P (err e) h = tt

pub Holds-map {ℓ κ ι ν} :
    {E : Type ℓ} {A : Type κ} (P : A → Type ι) (Q : A → Type ν) (m : Result E A)
    → Holds P m
    → ((a : A) → P a → Q a)
    → Holds Q m
Holds-map P Q (ok a) h f = f a h
Holds-map P Q (err e) h f = tt

-- With what the first call returned.
pub Holds-then {ℓ κ ι ν} :
    {E : Type ℓ} {A : Type κ} {B : Type ι} (Q : B → Type ν) (m : Result E A) (f : A → Result E B)
    → ((a : A) → m ≡ ok a → Holds Q (f a))
    → Holds Q (m >>= f)
Holds-then Q (ok a) f k = k a refl
Holds-then Q (err e) f k = tt
