-- ===== src/Sni/Cursor.antt =====
-- What stands in a slice behind a position, and what the checked accesses return there.
use backhaul_plus.Prelude.{
  ℕ, ◌+◌, ◌-◌, ◌/◌, ◌%◌, ◌≡◌, refl, sym, ap, ◌∙◌, ◌∷◌, ◌++◌, arith, length, get_or, take, drop,
  length-append, get_or-drop, drop-drop, drop-append, take-append,
}
use backhaul_plus.Result.{ok}
use backhaul_plus.Strings.{Bytes}
use backhaul_plus.Wire.{put_uint16}
use backhaul_plus.Sni.Parse.{at, uint16_at, slice}

pub record Rest (b : Bytes) (pos : ℕ) (t : Bytes) : Type 0 where
  pub behind : drop pos b ≡ t
  pub total : length b ≡ pos + length t

pub Rest-start : (b : Bytes) → Rest b 0 b
Rest-start b = record { behind = refl; total = omega arith }

pub Rest-move :
    {b t : Bytes} {pos : ℕ} (s : Bytes) (n : ℕ)
    → Rest b pos (s ++ t)
    → pos + length s ≡ n
    → Rest b n t
Rest-move {b} {t} {pos} s n r e = record {
  behind =
      ap (λ (k : ℕ). drop k b) (sym e)
      ∙ sym (drop-drop (length s) pos b)
      ∙ ap (λ (l : Bytes). drop (length s) l) r.behind
      ∙ drop-append s t;
  total = omega (arith, r.total, length-append s t, e);
}

get_or-behind : (b t : Bytes) (pos i : ℕ) → drop pos b ≡ t → get_or b (pos + i) 0 ≡ get_or t i 0
get_or-behind b t pos i e =
    sym (get_or-drop (pos + i) b 0)
    ∙ ap (λ (l : Bytes). get_or l 0 0) (sym (drop-drop i pos b))
    ∙ get_or-drop i (drop pos b) 0
    ∙ ap (λ (l : Bytes). get_or l i 0) e

pub at-Rest : {b t : Bytes} {pos : ℕ} (x : ℕ) → Rest b pos (x ∷ t) → at b pos ≡ ok x
unfolding at
at-Rest {b} {t} {pos} x r = ground (arith, r.total, here)
  where
    here : get_or b pos 0 ≡ x
    here = sym (get_or-drop pos b 0) ∙ ap (λ (l : Bytes). get_or l 0 0) r.behind

pub uint16_at-Rest :
    {b t : Bytes} {pos : ℕ} (v : ℕ) → Rest b pos (put_uint16 v ++ t) → uint16_at b pos ≡ ok v
unfolding uint16_at
uint16_at-Rest {b} {t} {pos} v r = ground (arith, r.total, high, low)
  where
    high : get_or b pos 0 ≡ v / 256
    high = sym (get_or-drop pos b 0) ∙ ap (λ (l : Bytes). get_or l 0 0) r.behind

    low : get_or b (pos + 1) 0 ≡ v % 256
    low = get_or-behind b (put_uint16 v ++ t) pos 1 r.behind

pub slice-Rest :
    {b : Bytes} {pos : ℕ} (s t : Bytes) → Rest b pos (s ++ t) → slice b pos (pos + length s) ≡ ok s
unfolding slice
slice-Rest {b} {pos} s t r = ground (arith, r.total, length-append s t, cut)
  where
    span : pos + length s - pos ≡ length s
    span = omega arith

    cut : take (pos + length s - pos) (drop pos b) ≡ s
    cut =
        ap (λ (k : ℕ). take k (drop pos b)) span
        ∙ ap (λ (l : Bytes). take (length s) l) r.behind
        ∙ take-append s t
