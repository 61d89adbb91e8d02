-- ===== src/Prefixed/Fuel.antt =====
-- The reads of a `PrefixedConn` come to an end.
use backhaul_plus.Prelude.{
  ℕ, ◌+◌, ◌-◌, ◌<◌, ◌≡◌, inl, inr, none, arith, ltb, leb, length, take, drop, length-take,
  length-drop, Bool-cases,
}
use backhaul_plus.Prefixed.{PrefixedConn, NetConn, plain, prefixed, replay, delegate, read}
use backhaul_plus.Prefixed.Replay.{IsHeld}
use backhaul_plus.Stream.Read.{fuel_for, read-fuel}

-- More than the reads that a connection has bytes and segments for.
abbrev pub reads_left : NetConn → ℕ
reads_left (plain c) = fuel_for c.segments
reads_left (prefixed p) = (length p.prefix - p.off) + fuel_for p.conn.segments

replayed :
    (size : ℕ) (p : PrefixedConn)
    → 0 < size
    → p.off < length p.prefix
    → reads_left (replay size p).2 < reads_left (prefixed p)
unfolding replay
replayed size p pos held =
    let taken = length-take size (drop p.off p.prefix) in
    let rest = length-drop p.off p.prefix in
    elim (Bool-cases (leb (length p.prefix) (p.off + length (take size (drop p.off p.prefix))))) [
      | inl used ↦ rw used (omega arith)
      | inr more ↦ rw more (omega arith)
    ]

-- A read without an error, into a buffer that is not empty, leaves fewer of them.
pub read-reads_left :
    (size : ℕ) (n : NetConn)
    → 0 < size
    → IsHeld n
    → (read size n).1 ≡ none
    → reads_left (read size n).2 < reads_left n
unfolding read delegate
read-reads_left size (plain c) pos held e = read-fuel size c pos e
read-reads_left size (prefixed p) pos held e = elim (Bool-cases (ltb 0 (length p.prefix))) [
  | inl some_prefix ↦ rw some_prefix (replayed size p pos (ground arith))
  | inr no_prefix ↦
      rw no_prefix (let less = read-fuel size p.conn pos (rw no_prefix at e) in omega arith)
]
