-- ===== src/Sni/Inspect/Outcome.antt =====
-- Postconditions of the reading steps: one for a value, one for an error, and no other end.
use backhaul_plus.Prelude.{◌≤◌, ◌≡◌, refl, Bool, true, false, length}
use backhaul_plus.Result.{Result, ok, err, panic, stuck, IsSafe}
use backhaul_plus.Sni.Parse.{SniError}
use backhaul_plus.Sni.Inspect.{Inspection, M, resume, refuse, max_client_hello_size}

-- What an error leaves behind.
abbrev pub IsBounded : Inspection → Type 0
IsBounded s = length s.raw ≤ max_client_hello_size

abbrev pub Ends : {A : Type 0} → (A → Inspection → Type 0) → Result SniError A × Inspection → Type 0
Ends P (ok a, s) = P a s
Ends P (err e, s) = IsBounded s
Ends P (panic, s) = ⊥
Ends P (stuck, s) = ⊥

module _ {A B : Type 0} (P : A → Inspection → Type 0) (Q : B → Inspection → Type 0) where
  pub Ends-resume :
      (p : Result SniError A × Inspection) (f : A → M B)
      → Ends P p
      → ((a : A) (s : Inspection) → P a s → Ends Q (f a s))
      → Ends Q (resume p.0 f p.1)
  Ends-resume (ok a, s) f h k = k a s h
  Ends-resume (err e, s) f h k = h
  Ends-resume (panic, s) f h k = h
  Ends-resume (stuck, s) f h k = h

-- A guard passes only if its test fails.
pub Ends-refuse :
    {B : Type 0} (Q : B → Inspection → Type 0) (bad : Bool) (e : SniError) (s : Inspection)
    (k : M B)
    → IsBounded s
    → (bad ≡ false → Ends Q (k s))
    → Ends Q (resume (refuse bad e s).0 (λ _. k) (refuse bad e s).1)
Ends-refuse Q true e s k b h = b
Ends-refuse Q false e s k b h = h refl

-- A pure result inside the state.
pub Ends-lift :
    {A B : Type 0} (Q : B → Inspection → Type 0) (r : Result SniError A) (f : A → M B)
    (s : Inspection)
    → IsBounded s
    → IsSafe r
    → ((a : A) → r ≡ ok a → Ends Q (f a s))
    → Ends Q (resume r f s)
Ends-lift Q (ok a) f s b i k = k a refl
Ends-lift Q (err e) f s b i k = b
Ends-lift Q panic f s b i k = i
Ends-lift Q stuck f s b i k = i

pub Ends-IsSafe :
    {A : Type 0} (P : A → Inspection → Type 0) (p : Result SniError A × Inspection)
    → Ends P p
    → IsSafe p.0
Ends-IsSafe P (ok a, s) h = tt
Ends-IsSafe P (err e, s) h = tt
Ends-IsSafe P (panic, s) h = h
Ends-IsSafe P (stuck, s) h = h
