-- ===== src/Result.antt =====
-- Go's (value, error) pair as one value. A run that goes out of a slice's bounds is `panic`; a loop
-- that runs out of the fuel of the model is `stuck`, which is no Go behaviour.
use backhaul_plus.Prelude.{◌≡◌, refl, Bool, true, false}

pub data Result {ℓ κ} (E : Type ℓ) (A : Type κ) : Type (ℓ ⊔ κ) where
  ok : A → Result E A
  err : E → Result E A
  panic : Result E A
  stuck : Result E A

infixl 5 ◌>>=◌ ◌>>◌
abbrev pub ◌>>=◌ {ℓ κ μ} :
    {E : Type ℓ} {A : Type κ} {B : Type μ} → Result E A → (A → Result E B) → Result E B
ok a >>= f = f a
err e >>= f = err e
panic >>= f = panic
stuck >>= f = stuck

abbrev pub ◌>>◌ {ℓ κ} : {E : Type ℓ} {B : Type κ} → Result E (Unit {0}) → Result E B → Result E B
m >> k = m >>= λ _. k

-- `if bad { return err }`
abbrev pub refuse {ℓ} : {E : Type ℓ} → Bool → E → Result E (Unit {0})
refuse true e = err e
refuse false e = ok tt

-- The run ends in a value or a reported error.
abbrev pub IsSafe {ℓ κ} : {E : Type ℓ} {A : Type κ} → Result E A → Type 0
IsSafe (ok a) = Unit
IsSafe (err e) = Unit
IsSafe panic = ⊥
IsSafe stuck = ⊥

module _ {ℓ κ μ} {E : Type ℓ} {A : Type κ} {B : Type μ} where
  pub >>=-eq-ok :
      (r : Result E A) (next : A → Result E B) {y : B}
      → (r >>= next) ≡ ok y
      → (x : A) × (r ≡ ok x) × (next x ≡ ok y)
  >>=-eq-ok (ok x) next e = (x, refl, e)
  >>=-eq-ok (err why) next e = cc
  >>=-eq-ok panic next e = cc
  >>=-eq-ok stuck next e = cc

  pub >>=-IsSafe :
      (m : Result E A) (f : A → Result E B)
      → IsSafe m
      → ((a : A) → m ≡ ok a → IsSafe (f a))
      → IsSafe (m >>= f)
  >>=-IsSafe (ok a) f h k = k a refl
  >>=-IsSafe (err e) f h k = tt
  >>=-IsSafe panic f h k = h
  >>=-IsSafe stuck f h k = h

module _ {ℓ κ} {E : Type ℓ} {A : Type κ} where
  pub ok-injective : {a b : A} → ◌≡◌ {A = Result E A} (ok a) (ok b) → a ≡ b
  ok-injective h = cc

  pub err-ne-ok : {e : E} {a : A} → ◌≡◌ {A = Result E A} (err e) (ok a) → ⊥
  err-ne-ok h = cc

-- A guard that was passed.
pub refuse-ok {ℓ κ} :
    {E : Type ℓ} {B : Type κ} (bad : Bool) (e : E) (k : Result E B) {b : B}
    → (refuse bad e >> k) ≡ ok b
    → (bad ≡ false) × (k ≡ ok b)
refuse-ok true e k h = cc
refuse-ok false e k h = (refl, h)
