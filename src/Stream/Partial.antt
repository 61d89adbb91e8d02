-- ===== src/Stream/Partial.antt =====
-- `io.ReadFull` takes the bytes that are there off the stream, whether they are enough or not.
use backhaul_plus.Prelude.{
  ℕ, ◌-◌, ◌≡◌, refl, sym, ap, ◌∙◌, Bool, true, false, inl, inr, List, [], ◌∷◌, ◌++◌, arith, ◌<◌,
  leb, leb→le, ◌==◌, Bool-cases, length, take, length-append, append-nil, ◌+◌, suc, take-append,
  zero,
}
use backhaul_plus.Result.{Result, ok, err, panic, stuck}
use backhaul_plus.Strings.{Bytes}
use backhaul_plus.Stream.{IoError, Conn, stream_of, stream, read_full_segments, read_full, put_back}
use backhaul_plus.Stream.ReadFull.{read_full-ok}

put_back-rest : (seg : Bytes) (p : Result IoError Bytes × List Bytes) → (put_back seg p).1 ≡ p.1
put_back-rest seg (ok bytes, left) = refl
put_back-rest seg (err e, left) = refl
put_back-rest seg (panic, left) = refl
put_back-rest seg (stuck, left) = refl

short-rest :
    (segs : List Bytes) (n : ℕ) (got : Bool) (final : IoError)
    → length (stream_of segs) < n
    → stream_of (read_full_segments n got final segs).1 ≡ []
unfolding read_full_segments
short-rest [] n got final h = refl
short-rest (seg ∷ rest) n got final h =
    let total : length seg + length (stream_of rest) < n =
      omega (arith, length-append seg (stream_of rest)) in
    let nonzero : (n == 0) ≡ false = ground (arith, total) in
    let fits : leb (length seg) n ≡ true = ground (arith, total) in
    rw (nonzero, fits, put_back-rest)
      (short-rest rest (n - length seg) _ final (omega (arith, length-append seg (stream_of rest))))

take-all : (n : ℕ) (xs : Bytes) → length xs < n → take n xs ≡ xs
take-all zero xs h = absurd (omega arith)
take-all (suc n) [] h = refl
take-all (suc n) (x ∷ xs) h = ap (◌∷◌ x) (take-all n xs (omega arith))

pub take-read_full : (n : ℕ) (c : Conn) → take n (stream c) ++ stream (read_full n c).1 ≡ stream c
unfolding read_full
take-read_full n c = elim (Bool-cases (leb n (length (stream c)))) [
  | inl enough ↦
      let (out, e, l, s) = read_full-ok n c (leb→le _ _ enough) in
      ap (λ (t : Bytes). t ++ stream (read_full n c).1)
        (ap (take n) (sym s)
          ∙ ap (λ (k : ℕ). take k (out ++ stream (read_full n c).1)) (sym l)
          ∙ take-append out _)
      ∙ s
  | inr missing ↦
      let less : length (stream c) < n = ground arith in
      ap (λ (t : Bytes). take n (stream c) ++ t) (short-rest c.segments n false c.final less)
      ∙ append-nil (take n (stream c))
      ∙ take-all n (stream c) less
]
