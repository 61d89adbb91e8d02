-- ===== src/Usage/Totals.antt =====
-- The traffic of one port in a map of internal/web/sniffer.go, under each operation.
use backhaul_plus.Prelude.{
  two_64, ℕ, ◌+◌, ◌%◌, ◌≡◌, true, false, List, [], ◌∷◌, ◌==◌, if◌then◌else◌, arith, Bool-cases, inl,
  inr,
}
use mathlib.Core.Path.{subst}
use backhaul_plus.Usage.{
  PortUsage, UsageMap, add_or_update_port, set_port, set_all, add_all, merge_usage,
}

-- The sum of the entries of a port.
abbrev pub usage_at : ℕ → List PortUsage → ℕ
usage_at p [] = 0
usage_at p (e ∷ es) = (if e.port == p then e.usage else 0) + usage_at p es

-- No port stands twice.
abbrev pub Lacks : ℕ → List PortUsage → Type 0
Lacks p [] = Unit
Lacks p (e ∷ es) = ((e.port == p) ≡ false) × Lacks p es

abbrev pub IsDistinct : List PortUsage → Type 0
IsDistinct [] = Unit
IsDistinct (e ∷ es) = Lacks e.port es × IsDistinct es

pub apart_sym : (p q : ℕ) → (p == q) ≡ false → (q == p) ≡ false
apart_sym p q h = ground arith

same_port : (p q : ℕ) (m : UsageMap) → (p == q) ≡ true → Lacks p m → Lacks q m
same_port p q m h l = subst (λ r. Lacks r m) (equal_of p q h) l
  where
    equal_of : (p q : ℕ) → (p == q) ≡ true → p ≡ q
    equal_of p q h = ground arith

add-Lacks :
    (p q u : ℕ) (m : UsageMap) → (q == p) ≡ false → Lacks p m → Lacks p (add_or_update_port q u m)
unfolding add_or_update_port
add-Lacks p q u [] h l = (h, tt)
add-Lacks p q u (e ∷ m) h l = elim (Bool-cases (e.port == q)) [
  | inl here ↦ rw here l
  | inr there ↦ rw there (l.0, add-Lacks p q u m h l.1)
]

pub add-IsDistinct : (q u : ℕ) (m : UsageMap) → IsDistinct m → IsDistinct (add_or_update_port q u m)
unfolding add_or_update_port
add-IsDistinct q u [] d = (tt, tt)
add-IsDistinct q u (e ∷ m) d = elim (Bool-cases (e.port == q)) [
  | inl here ↦ rw here d
  | inr there ↦
      rw there (add-Lacks e.port q u m (apart_sym e.port q there) d.0, add-IsDistinct q u m d.1)
]

pub add_all-IsDistinct :
    (es : List PortUsage) (m : UsageMap) → IsDistinct m → IsDistinct (add_all es m)
unfolding add_all
add_all-IsDistinct [] m d = d
add_all-IsDistinct (e ∷ es) m d =
    add_all-IsDistinct es (add_or_update_port e.port e.usage m) (add-IsDistinct e.port e.usage m d)

set-Lacks :
    (p : ℕ) (new : PortUsage) (m : UsageMap)
    → (new.port == p) ≡ false
    → Lacks p m
    → Lacks p (set_port new m)
unfolding set_port
set-Lacks p new [] h l = (h, tt)
set-Lacks p new (e ∷ m) h l = elim (Bool-cases (e.port == new.port)) [
  | inl here ↦ rw here (h, l.1)
  | inr there ↦ rw there (l.0, set-Lacks p new m h l.1)
]

set-IsDistinct : (new : PortUsage) (m : UsageMap) → IsDistinct m → IsDistinct (set_port new m)
unfolding set_port
set-IsDistinct new [] d = (tt, tt)
set-IsDistinct new (e ∷ m) d = elim (Bool-cases (e.port == new.port)) [
  | inl here ↦ rw here (same_port e.port new.port m here d.0, d.1)
  | inr there ↦
      rw there
        (set-Lacks e.port new m (apart_sym e.port new.port there) d.0, set-IsDistinct new m d.1)
]

pub set_all-IsDistinct :
    (es : List PortUsage) (m : UsageMap) → IsDistinct m → IsDistinct (set_all es m)
unfolding set_all
set_all-IsDistinct [] m d = d
set_all-IsDistinct (e ∷ es) m d = set_all-IsDistinct es (set_port e m) (set-IsDistinct e m d)

-- Adding traffic to a port adds to its counter, on 64 bits, and to no other.
pub usage_at-add_or_update_port :
    (p q u : ℕ) (m : UsageMap)
    → usage_at p (add_or_update_port q u m) % two_64
      ≡ (usage_at p m + (if q == p then u else 0)) % two_64
unfolding add_or_update_port
usage_at-add_or_update_port p q u [] = ground arith
usage_at-add_or_update_port p q u (e ∷ m) = ground (arith, usage_at-add_or_update_port p q u m)

pub usage_at-add_all :
    (p : ℕ) (es : List PortUsage) (m : UsageMap)
    → usage_at p (add_all es m) % two_64 ≡ (usage_at p m + usage_at p es) % two_64
unfolding add_all
usage_at-add_all p [] m = omega arith
usage_at-add_all p (e ∷ es) m =
    let first = usage_at-add_or_update_port p e.port e.usage m in
    let rest = usage_at-add_all p es (add_or_update_port e.port e.usage m) in omega arith

-- An entry of a new port.
usage_at-set_port :
    (p : ℕ) (new : PortUsage) (m : UsageMap)
    → Lacks new.port m
    → usage_at p (set_port new m) ≡ usage_at p m + (if new.port == p then new.usage else 0)
unfolding set_port
usage_at-set_port p new [] l = omega arith
usage_at-set_port p new (e ∷ m) l = rw l.0 (let rest = usage_at-set_port p new m l.1 in omega arith)

-- No entry of the list has a port of the map.
abbrev IsApart : List PortUsage → UsageMap → Type 0
IsApart [] m = Unit
IsApart (e ∷ es) m = Lacks e.port m × IsApart es m

set-IsApart :
    (new : PortUsage) (es : List PortUsage) (m : UsageMap)
    → Lacks new.port es
    → IsApart es m
    → IsApart es (set_port new m)
set-IsApart new [] m l a = tt
set-IsApart new (e ∷ es) m l a =
    (set-Lacks e.port new m (apart_sym e.port new.port l.0) a.0, set-IsApart new es m l.1 a.1)

usage_at-set_all :
    (p : ℕ) (es : List PortUsage) (m : UsageMap)
    → IsDistinct es
    → IsApart es m
    → usage_at p (set_all es m) ≡ usage_at p m + usage_at p es
unfolding set_all
usage_at-set_all p [] m d a = omega arith
usage_at-set_all p (e ∷ es) m d a =
    let first = usage_at-set_port p e m a.0 in
    let rest = usage_at-set_all p es (set_port e m) d.1 (set-IsApart e es m d.0 a.1) in omega arith

IsApart-nil : (es : List PortUsage) → IsApart es []
IsApart-nil [] = tt
IsApart-nil (e ∷ es) = (tt, IsApart-nil es)

-- The merged map counts for each port what the file and the store counted.
pub usage_at-merge_usage :
    (p : ℕ) (existing current : List PortUsage)
    → IsDistinct existing
    → usage_at p (merge_usage existing current) % two_64
      ≡ (usage_at p existing + usage_at p current) % two_64
unfolding merge_usage
usage_at-merge_usage p existing current d =
    let added = usage_at-add_all p current (set_all existing []) in
    let set = usage_at-set_all p existing [] d (IsApart-nil existing) in omega arith

pub merge_usage-IsDistinct :
    (existing current : List PortUsage) → IsDistinct (merge_usage existing current)
unfolding merge_usage
merge_usage-IsDistinct existing current =
    add_all-IsDistinct current (set_all existing []) (set_all-IsDistinct existing [] tt)
