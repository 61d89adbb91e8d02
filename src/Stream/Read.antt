-- ===== src/Stream/Read.antt =====
-- One `Read` takes the front of the stream.
use backhaul_plus.Prelude.{
  ℕ, ◌≡◌, refl, sym, ap, ◌∙◌, inl, inr, List, [], ◌∷◌, ◌++◌, some, arith, ltb, Bool-cases, length,
  take, drop, take-append-drop, append_assoc, suc, ◌<◌, ◌≤◌, ◌+◌, none, length-take, length-drop,
  ltb→lt,
}
use backhaul_plus.Strings.{Bytes}
use backhaul_plus.Stream.{IoError, Conn, stream_of, stream, read_segments, read}

read_segments-stream :
    (size : ℕ) (final : IoError) (segs : List Bytes)
    → (read_segments size final segs).0 ++ stream_of (read_segments size final segs).2
      ≡ stream_of segs
unfolding read_segments
read_segments-stream size final [] = refl
read_segments-stream size final (seg ∷ rest) = elim (Bool-cases (ltb size (length seg))) [
  | inl wide ↦ rw wide (
      sym (append_assoc (take size seg) (drop size seg) (stream_of rest))
      ∙ ap (λ t. t ++ stream_of rest) (take-append-drop size seg))
  | inr fits ↦ rw fits
]

-- The bytes of a `Read`, in front of what is left, are what was there.
pub read-stream : (size : ℕ) (c : Conn) → (read size c).0 ++ stream (read size c).2 ≡ stream c
unfolding read
read-stream size c = read_segments-stream size c.final c.segments

read_segments-end :
    (size : ℕ) (final : IoError) (segs : List Bytes) {e : IoError}
    → (read_segments size final segs).1 ≡ some e
    → stream_of segs ≡ []
unfolding read_segments
read_segments-end size final [] h = refl
read_segments-end size final (seg ∷ rest) h = ground arith

-- An error comes only at the end of the stream.
pub read-end : (size : ℕ) (c : Conn) {e : IoError} → (read size c).1 ≡ some e → stream c ≡ []
unfolding read
read-end size c h = read_segments-end size c.final c.segments h

-- An error comes with no bytes; else a read takes a whole segment, or `size` bytes of one.
unfoldable pub fuel_for : List Bytes → ℕ
fuel_for [] = 1
fuel_for (seg ∷ rest) = suc (length seg) + fuel_for rest

read_segments-fuel :
    (size : ℕ) (final : IoError) (segs : List Bytes)
    → 0 < size
    → (read_segments size final segs).1 ≡ none
    → fuel_for (read_segments size final segs).2 < fuel_for segs
unfolding read_segments fuel_for
read_segments-fuel size final [] p h = cc
read_segments-fuel size final (seg ∷ rest) p h = elim (Bool-cases (ltb size (length seg))) [
  | inl wide ↦ rw wide (omega (arith, length-drop size seg, ltb→lt _ _ wide))
  | inr fits ↦ rw fits (omega arith)
]

-- Reads come to an end: one without an error leaves fewer to make.
pub read-fuel :
    (size : ℕ) (c : Conn)
    → 0 < size
    → (read size c).1 ≡ none
    → fuel_for (read size c).2.segments < fuel_for c.segments
unfolding read
read-fuel size c p h = read_segments-fuel size c.final c.segments p h

read_segments-length :
    (size : ℕ) (final : IoError) (segs : List Bytes)
    → length (read_segments size final segs).0 ≤ size
unfolding read_segments
read_segments-length size final [] = omega arith
read_segments-length size final (seg ∷ rest) = elim (Bool-cases (ltb size (length seg))) [
  | inl wide ↦ rw wide (omega (arith, length-take size seg))
  | inr fits ↦ rw fits (ground arith)
]

-- A read fills at most the buffer.
pub read-length : (size : ℕ) (c : Conn) → length (read size c).0 ≤ size
unfolding read
read-length size c = read_segments-length size c.final c.segments

pub fuel_for_pos : (segs : List Bytes) → 0 < fuel_for segs
unfolding fuel_for
fuel_for_pos [] = omega arith
fuel_for_pos (seg ∷ rest) = omega arith
