-- ===== src/Base/Raise.antt =====
-- The result of code that may raise: a value, or the error that was raised.
use switchstand.Base.Names.{Bool, true, false, ◌≡◌, refl, ◌⊎◌, inl, inr}

pub data Result {ℓ κ} (E : Type κ) (A : Type ℓ) : Type (ℓ ⊔ κ) where
  ok : A → Result E A
  err : E → Result E A

infixl 5 ◌>>=◌ ◌>>◌
abbrev pub ◌>>=◌ {κ ℓ μ} :
    {Err : Type μ} {T : Type κ} {U : Type ℓ} → Result Err T → (T → Result Err U) → Result Err U
err raised >>= next = err raised
ok value >>= next = next value

-- one step after another, for a step that gives no value
abbrev pub ◌>>◌ {κ μ} :
    {Err : Type μ} {U : Type κ} → Result Err (Unit {0}) → Result Err U → Result Err U
first >> second = first >>= λ nothing. second

-- `if not test: raise e`
abbrev pub require {μ} : {E : Type μ} → Bool → E → Result E (Unit {0})
require true e = ok tt
require false e = err e

-- `if test: raise e`
abbrev pub forbid {μ} : {E : Type μ} → Bool → E → Result E (Unit {0})
forbid true e = err e
forbid false e = ok tt

-- What is known of a check that was passed, and of what came after it.
pub forbid_passed {ℓ μ} :
    {E : Type μ} {A : Type ℓ} (b : Bool) (e : E) (m : Result E A) (a : A)
    → (forbid b e >> m) ≡ ok a
    → (b ≡ false) × (m ≡ ok a)
forbid_passed true e m a h = cc
forbid_passed false e m a h = (refl, h)

pub require_passed {ℓ μ} :
    {E : Type μ} {A : Type ℓ} (b : Bool) (e : E) (m : Result E A) (a : A)
    → (require b e >> m) ≡ ok a
    → (b ≡ true) × (m ≡ ok a)
require_passed true e m a h = (refl, h)
require_passed false e m a h = cc

pub then_passed {ℓ μ} :
    {E : Type μ} {A : Type ℓ} (m : Result E (Unit {0})) (k : Result E A) {a : A}
    → (m >> k) ≡ ok a
    → (m ≡ ok tt) × (k ≡ ok a)
then_passed (ok t) k h = (refl, h)
then_passed (err e) k h = cc

pub bind_passed {ℓ κ μ} :
    {E : Type μ} {A : Type ℓ} {B : Type κ} (m : Result E A) (f : A → Result E B) {b : B}
    → (m >>= f) ≡ ok b
    → (a : A) × (m ≡ ok a) × (f a ≡ ok b)
bind_passed (ok a) f h = (a, refl, h)
bind_passed (err e) f h = cc

pub Result-cases {ℓ κ} :
    {E : Type κ} {A : Type ℓ} (m : Result E A) → ((a : A) × (m ≡ ok a)) ⊎ ((e : E) × (m ≡ err e))
Result-cases (ok a) = inl (a, refl)
Result-cases (err e) = inr (e, refl)
