-- ===== src/Prefixed/Replay.antt =====
-- The reads of a `PrefixedConn` against what is to be read.
use backhaul_plus.Prelude.{
  ℕ, suc, ◌+◌, ◌<◌, ◌≡◌, refl, sym, ap, ◌∙◌, inl, inr, List, [], ◌∷◌, ◌++◌, some, arith, ltb, leb,
  leb→le, ◌==◌, Bool-cases, length, take, drop, drop-eq-nil, take-append-drop, drop-drop,
  append_assoc, false, drop-length-take, drop-nil, eq_nil_of_length, ◌⊎◌,
}
use backhaul_plus.Prefixed.{
  PrefixedConn, NetConn, plain, prefixed, new_prefixed_conn, replay, delegate, read, unread,
}
use backhaul_plus.Stream
use backhaul_plus.Stream.{Conn, IoError, stream}
use backhaul_plus.Stream.Read.{read-stream, read-end}
use backhaul_plus.Strings.{Bytes}

-- Wrapping puts the prefix back in front of the stream.
pub unread-new_prefixed_conn :
    (c : Conn) (prefix : Bytes) → unread (new_prefixed_conn c prefix) ≡ prefix ++ stream c
unfolding new_prefixed_conn
unread-new_prefixed_conn c [] = refl
unread-new_prefixed_conn c (x ∷ xs) = rw (nonempty, unread)
  where
    nonempty : (suc (length xs) == 0) ≡ false
    nonempty = ground arith

module _ (size : ℕ) (p : PrefixedConn) where
  abbrev bytes : Bytes
  bytes = take size (drop p.off p.prefix)

  past_bytes : drop (p.off + length bytes) p.prefix ≡ drop size (drop p.off p.prefix)
  past_bytes =
      sym (drop-drop (length bytes) p.off p.prefix) ∙ drop-length-take size (drop p.off p.prefix)

  rejoin : bytes ++ (drop (p.off + length bytes) p.prefix ++ stream p.conn) ≡ unread (prefixed p)
  rejoin =
      ap (λ t. bytes ++ (t ++ stream p.conn)) past_bytes
      ∙ sym (append_assoc bytes (drop size (drop p.off p.prefix)) (stream p.conn))
      ∙ ap (λ t. t ++ stream p.conn) (take-append-drop size (drop p.off p.prefix))

  replay-unread : (replay size p).0 ++ unread (replay size p).2 ≡ unread (prefixed p)
  unfolding replay
  replay-unread = elim (Bool-cases (leb (length p.prefix) (p.off + length bytes))) [
    | inl used ↦ rw used (
        ap (λ (t : Bytes). bytes ++ (t ++ stream p.conn))
          (sym (drop-eq-nil (p.off + length bytes) p.prefix (leb→le _ _ used)))
        ∙ rejoin)
    | inr more ↦ rw more rejoin
  ]

  delegate-unread :
      p.prefix ≡ [] → (delegate size p).0 ++ unread (delegate size p).2 ≡ unread (prefixed p)
  unfolding delegate
  delegate-unread e =
      ap (λ (t : Bytes). (Stream.read size p.conn).0 ++ (t ++ stream (Stream.read size p.conn).2))
        no_prefix
      ∙ read-stream size p.conn
      ∙ ap (λ (t : Bytes). t ++ stream p.conn) (sym no_prefix)
    where
      no_prefix : drop p.off p.prefix ≡ []
      no_prefix = ap (λ (t : Bytes). drop p.off t) e ∙ drop-nil p.off

-- Whatever the buffer, the bytes of one `Read` are the next ones of what was still to be read.
pub read-unread : (size : ℕ) (n : NetConn) → (read size n).0 ++ unread (read size n).2 ≡ unread n
unfolding read
read-unread size (plain c) = read-stream size c
read-unread size (prefixed p) = elim (Bool-cases (ltb 0 (length p.prefix))) [
  | inl more ↦ rw more (replay-unread size p)
  | inr done ↦ rw done (delegate-unread size p (eq_nil_of_length p.prefix (ground arith)))
]

-- The reads of a client with buffers of these sizes: all that it got, and the connection then.
unfoldable pub read_all : List ℕ → NetConn → Bytes × NetConn
read_all [] n = ([], n)
read_all (size ∷ sizes) n =
    let (bytes, e, n') = read size n in
    let (rest, last) = read_all sizes n' in (bytes ++ rest, last)

-- Whatever the sizes of the buffers, the bytes that the reads return, followed by what is still to be
-- read then, are what was to be read before.
pub read_all-unread :
    (sizes : List ℕ) (n : NetConn) → (read_all sizes n).0 ++ unread (read_all sizes n).1 ≡ unread n
unfolding read_all
read_all-unread [] n = refl
read_all-unread (size ∷ sizes) n =
    append_assoc (read size n).0 _ _
    ∙ ap (λ t. (read size n).0 ++ t) (read_all-unread sizes (read size n).2)
    ∙ read-unread size n

-- The invariant of a wrapped connection: a prefix that is held is not yet used up.
abbrev pub IsHeld : NetConn → Type 0
IsHeld (plain c) = Unit
IsHeld (prefixed p) = (p.off < length p.prefix) ⊎ ((p.prefix ≡ []) × (p.off ≡ 0))

pub new_prefixed_conn-IsHeld : (c : Conn) (prefix : Bytes) → IsHeld (new_prefixed_conn c prefix)
unfolding new_prefixed_conn
new_prefixed_conn-IsHeld c [] = tt
new_prefixed_conn-IsHeld c (x ∷ xs) = rw nonempty (inl (omega arith))
  where
    nonempty : (suc (length xs) == 0) ≡ false
    nonempty = ground arith

pub read-IsHeld : (size : ℕ) (n : NetConn) → IsHeld n → IsHeld (read size n).2
unfolding read replay delegate
read-IsHeld size (plain c) h = tt
read-IsHeld size (prefixed p) h = ground arith

-- A connection whose prefix, if it has one, is not used up reports an error only when nothing is left
-- to read.
pub read-end_of_unread :
    (size : ℕ) (n : NetConn) {e : IoError} → IsHeld n → (read size n).1 ≡ some e → unread n ≡ []
unfolding read replay delegate
read-end_of_unread size (plain c) h e = read-end size c e
read-end_of_unread size (prefixed p) h e = elim (Bool-cases (ltb 0 (length p.prefix))) [
  | inl more ↦ ground arith
  | inr done ↦
      let none_left = eq_nil_of_length p.prefix (ground arith) in
      ap (λ (t : Bytes). drop p.off t ++ stream p.conn) none_left
      ∙ ap (λ (t : Bytes). t ++ stream p.conn) (drop-nil p.off)
      ∙ read-end size p.conn (rw done at e)
]
