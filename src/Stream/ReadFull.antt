-- ===== src/Stream/ReadFull.antt =====
-- `io.ReadFull` takes the next bytes of the stream, however they are cut into segments.
use backhaul_plus.Prelude.{
  ℕ, ◌+◌, ◌-◌, ◌≤◌, ◌<◌, ◌≡◌, refl, sym, ap, ◌∙◌, Bool, true, ◌⊎◌, inl, inr, List, [], ◌∷◌, ◌++◌,
  arith, leb, leb→le, false, ◌==◌, Bool-cases, length, take, drop, length-append, length-take,
  take-append-drop, append_assoc, append-injective,
}
use backhaul_plus.Result.{Result, ok, err, panic, stuck, ok-injective, err-ne-ok}
use backhaul_plus.Strings.{Bytes}
use backhaul_plus.Stream.{
  IoError, Conn, stream_of, stream, read_full_segments, read_full, put_back, partial,
}

-- The block read, in front of what is left, is what was there.
abbrev Splits : ℕ → List Bytes → Result IoError Bytes × List Bytes → Type 0
Splits n segs (r, rest) =
    (out : Bytes) × (r ≡ ok out) × (length out ≡ n) × (out ++ stream_of rest ≡ stream_of segs)

put_back-Splits :
    (seg : Bytes) (rest : List Bytes) (n : ℕ) (p : Result IoError Bytes × List Bytes)
    → length seg ≤ n
    → Splits (n - length seg) rest p
    → Splits n (seg ∷ rest) (put_back seg p)
put_back-Splits seg rest n (ok bytes, left) h (out, e, l, s) = (
  seg ++ bytes,
  refl,
  omega (arith, length-append seg bytes, l, same),
  append_assoc seg bytes (stream_of left) ∙ ap (λ t. seg ++ t) (rw (ok-injective e) s),
)
  where
    same : length out ≡ length bytes
    same = ap length (sym (ok-injective e))
put_back-Splits seg rest n (err x, left) h (out, e, l, s) = cc
put_back-Splits seg rest n (panic, left) h (out, e, l, s) = cc
put_back-Splits seg rest n (stuck, left) h (out, e, l, s) = cc

cut-Splits :
    (seg : Bytes) (rest : List Bytes) (n : ℕ)
    → n < length seg
    → Splits n (seg ∷ rest) (ok (take n seg), drop n seg ∷ rest)
cut-Splits seg rest n h = (
  take n seg,
  refl,
  omega (arith, length-take n seg),
  sym (append_assoc (take n seg) (drop n seg) (stream_of rest))
      ∙ ap (λ t. t ++ stream_of rest) (take-append-drop n seg),
)

read_full_segments-Splits :
    (segs : List Bytes) (n : ℕ) (got : Bool) (final : IoError)
    → n ≤ length (stream_of segs)
    → Splits n segs (read_full_segments n got final segs)
unfolding read_full_segments
read_full_segments-Splits [] n got final h = ([], ground arith, omega arith, refl)
read_full_segments-Splits (seg ∷ rest) n got final h = elim (Bool-cases (n == 0)) [
  | inl z ↦ rw z ([], refl, ground arith, refl)
  | inr nz ↦ rw nz (elim (Bool-cases (leb (length seg) n)) [
    | inl fits ↦ rw fits (
        put_back-Splits seg rest n _ (leb→le _ _ fits) (
          read_full_segments-Splits rest (n - length seg) _ final
            (omega (arith, length-append seg (stream_of rest)))))
    | inr wide ↦ rw wide (cut-Splits seg rest n (ground arith))
  ])
]

-- When the stream has `n` more bytes, `io.ReadFull` returns the next `n`, and the rest stays.
pub read_full-ok :
    (n : ℕ) (c : Conn)
    → n ≤ length (stream c)
    → (out : Bytes) × ((read_full n c).0 ≡ ok out)
      × (length out ≡ n)
      × (out ++ stream (read_full n c).1 ≡ stream c)
unfolding read_full
read_full-ok n c h = read_full_segments-Splits c.segments n false c.final h

put_back-err :
    (seg : Bytes) (p : Result IoError Bytes × List Bytes)
    → (e : IoError) × (p.0 ≡ err e)
    → (e : IoError) × ((put_back seg p).0 ≡ err e)
put_back-err seg (ok bytes, left) (e, h) = absurd (err-ne-ok (sym h))
put_back-err seg (err x, left) (e, h) = (x, refl)
put_back-err seg (panic, left) (e, h) = cc
put_back-err seg (stuck, left) (e, h) = cc

read_full_segments-short :
    (segs : List Bytes) (n : ℕ) (got : Bool) (final : IoError)
    → length (stream_of segs) < n
    → (e : IoError) × ((read_full_segments n got final segs).0 ≡ err e)
unfolding read_full_segments
read_full_segments-short [] n got final h = (partial got final, ground arith)
read_full_segments-short (seg ∷ rest) n got final h =
    rw (nonzero, fits)
      (put_back-err seg _ (
        read_full_segments-short rest (n - length seg) _ final
          (omega (arith, length-append seg (stream_of rest)))))
  where
    total : length seg + length (stream_of rest) < n
    total = omega (arith, length-append seg (stream_of rest))

    nonzero : (n == 0) ≡ false
    nonzero = ground (arith, total)

    fits : leb (length seg) n ≡ true
    fits = ground (arith, total)

-- When the stream ends sooner, `io.ReadFull` reports an error.
pub read_full-short :
    (n : ℕ) (c : Conn) → length (stream c) < n → (e : IoError) × ((read_full n c).0 ≡ err e)
unfolding read_full
read_full-short n c h = read_full_segments-short c.segments n false c.final h

-- A block that was read has the length asked for, and stood at the front of the stream.
pub read_full-inv :
    (n : ℕ) (c : Conn) {out : Bytes}
    → (read_full n c).0 ≡ ok out
    → (length out ≡ n) × (out ++ stream (read_full n c).1 ≡ stream c)
read_full-inv n c {out} h = elim (Bool-cases (leb n (length (stream c)))) [
  | inl enough ↦
      let (got, e, l, s) = read_full-ok n c (leb→le _ _ enough) in
      let same : got ≡ out = ok-injective (sym e ∙ h) in (rw same at l, rw same at s)
  | inr short ↦ absurd (err-ne-ok (sym (read_full-short n c (ground arith)).1 ∙ h))
]

-- Either a block or an error comes back.
pub read_full-cases :
    (n : ℕ) (c : Conn)
    → ((out : Bytes) × ((read_full n c).0 ≡ ok out)) ⊎ ((e : IoError) × ((read_full n c).0 ≡ err e))
read_full-cases n c = elim (Bool-cases (leb n (length (stream c)))) [
  | inl enough ↦ let (got, e, l, s) = read_full-ok n c (leb→le _ _ enough) in inl (got, e)
  | inr short ↦ inr (read_full-short n c (ground arith))
]

-- The block asked for stands at the front of the stream: it is read, and what follows it stays.
pub read_full-append :
    (n : ℕ) (c : Conn) (front rest : Bytes)
    → stream c ≡ front ++ rest
    → length front ≡ n
    → ((read_full n c).0 ≡ ok front) × (stream (read_full n c).1 ≡ rest)
read_full-append n c front rest s l =
    let enough : n ≤ length (stream c) = rw s (omega (arith, length-append front rest)) in
    let (out, e, same, joined) = read_full-ok n c enough in
    let (a, b) = append-injective out _ front rest (same ∙ sym l) (joined ∙ s) in (e ∙ ap ok a, b)
