-- ===== src/Strings/Search.antt =====
-- What a search finds: the first place, and nothing in front of it.
use backhaul_plus.Prelude.{
  ℕ, zero, suc, ◌+◌, ◌≡◌, ◌↔◌, refl, sym, ap, ◌∙◌, true, false, [], ◌∷◌, ◌++◌, Option, none, some,
  inl, inr, arith, length, take, drop, ◌==◌, Bool-cases,
}
use mathlib.Core.Path.{subst}
use backhaul_plus.Strings.{Bytes, equal, contains, index_byte, index, has_prefix, later, split}

pub equal_iff : (s t : Bytes) → (equal s t ≡ true) ↔ (s ≡ t)
unfolding equal
equal_iff (c ∷ s) (d ∷ t) = ground (arith, equal_iff s t)
equal_iff _ _ = ground arith

pub equal_refl : (a : Bytes) → equal a a ≡ true
equal_refl a = (equal_iff a a).1 refl

-- A byte stands behind a part that lacks it.
pub index_byte-append :
    (a b : Bytes) (c : ℕ) → contains a c ≡ false → index_byte (a ++ (c ∷ b)) c ≡ some (length a)
unfolding contains index_byte
index_byte-append [] b c h = ground arith
index_byte-append (x ∷ a) b c h = ground (arith, index_byte-append a b c)

pub index_byte-none : (a : Bytes) (c : ℕ) → contains a c ≡ false → index_byte a c ≡ none
unfolding contains index_byte
index_byte-none [] c h = refl
index_byte-none (x ∷ a) c h = ground (arith, index_byte-none a c)

pub contains_of_none : (a : Bytes) (c : ℕ) → index_byte a c ≡ none → contains a c ≡ false
unfolding contains index_byte
contains_of_none [] c h = refl
contains_of_none (x ∷ a) c h = ground (arith, contains_of_none a c)

-- The parts around the first place.
pub record FoundAt (a : Bytes) (c i : ℕ) : Type 0 where
  pub joined : a ≡ take i a ++ (c ∷ drop (i + 1) a)
  pub size : length (take i a) ≡ i
  pub first : contains (take i a) c ≡ false

suc_one : (i : ℕ) → suc i + 1 ≡ suc (i + 1)
suc_one i = omega arith

FoundAt-later :
    {a : Bytes} {c i : ℕ} (x : ℕ) → (x == c) ≡ false → FoundAt a c i → FoundAt (x ∷ a) c (suc i)
unfolding contains
FoundAt-later {a} {c} {i} x ne f = record {
  joined =
      ap (◌∷◌ x) f.joined
      ∙ ap (λ (n : ℕ). x ∷ (take i a ++ (c ∷ drop n (x ∷ a)))) (sym (suc_one i));
  size = ap suc f.size;
  first = rw (ne) f.first;
}

FoundAt-here : (x c : ℕ) (a : Bytes) → (x == c) ≡ true → FoundAt (x ∷ a) c zero
unfolding contains
FoundAt-here x c a e = record {
  joined = ap (λ (y : ℕ). y ∷ a) same ∙ ap (λ (n : ℕ). c ∷ drop n (x ∷ a)) one;
  size = refl;
  first = refl;
}
  where
    same : x ≡ c
    same = ground arith

    one : suc zero ≡ zero + 1
    one = omega arith

some-inj : {i j : ℕ} → some i ≡ some j → i ≡ j
some-inj h = cc

later-inv : (o : Option ℕ) {i : ℕ} → later o ≡ some i → (j : ℕ) × (o ≡ some j) × (suc j ≡ i)
later-inv none h = cc
later-inv (some j) h = (j, refl, some-inj h)

pub index_byte-FoundAt : (a : Bytes) (c i : ℕ) → index_byte a c ≡ some i → FoundAt a c i
unfolding index_byte
index_byte-FoundAt [] c i h = cc
index_byte-FoundAt (x ∷ a) c i h = elim (Bool-cases (x == c)) [
  | inl e ↦ subst (FoundAt (x ∷ a) c) (some-inj (rw e at h)) (FoundAt-here x c a e)
  | inr ne ↦
      let (j, found, step) = later-inv (index_byte a c) (rw ne at h) in
      subst (FoundAt (x ∷ a) c) step (FoundAt-later x ne (index_byte-FoundAt a c j found))
]

-- A separator stands behind a part that lacks its last byte.
pub index_crlf-append :
    (a b : Bytes)
    → contains a b'\n' ≡ false
    → index (a ++ (b'\r' ∷ b'\n' ∷ b)) (b'\r' ∷ b'\n' ∷ []) ≡ some (length a)
unfolding index has_prefix contains
index_crlf-append [] b h = refl
index_crlf-append (x ∷ []) b h = ground arith
index_crlf-append (x ∷ y ∷ a) b h = ground (arith, index_crlf-append (y ∷ a) b)

-- Splitting a text without the separator, and at its first place.
pub split-none : (s : Bytes) (c : ℕ) → contains s c ≡ false → split s c ≡ s ∷ []
unfolding split contains
split-none [] c h = refl
split-none (x ∷ s) c h = ground (arith, split-none s c)

pub split-append :
    (a b : Bytes) (c : ℕ) → contains a c ≡ false → split (a ++ (c ∷ b)) c ≡ a ∷ split b c
unfolding split contains
split-append [] b c h = ground arith
split-append (x ∷ a) b c h = ground (arith, split-append a b c)
