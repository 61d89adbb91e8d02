-- ===== src/UdpOverTcp/Packets.antt =====
-- accept_udp.go: one packet read from a stream that may have been cut off anywhere.
use backhaul_plus.Prelude.{
  ℕ, ◌+◌, ◌≤◌, ◌<◌, ◌≡◌, refl, sym, ap, ◌∙◌, inl, inr, [], ◌∷◌, ◌++◌, Option, none, some, arith,
  length, append_assoc, append-injective, Bool-cases, leb, leb→le, ltb, false, length-append, suc,
}
use backhaul_plus.Result.{Result, ok, err}
use backhaul_plus.Stream.{IoError, Conn, stream, read_full}
use backhaul_plus.Stream.ReadFull.{read_full-ok, read_full-short}
use backhaul_plus.Strings.{Bytes}
use backhaul_plus.UdpOverTcp.{or_end, read_body, read_packet, buffer_size, put_uint32, uint32}
use backhaul_plus.Wire.{put_uint16, uint16}
use backhaul_plus.Wire.RoundTrip.{uint16-put_uint16}
use mathlib.Core.Path.{subst}

-- `front` was read from a stream that lacks `lost` and then has `rest`, or no more of the stream is read
-- and something is lost.
pub data Cut (front rest lost : Bytes) : Option Bytes × Conn → Type 0 where
  whole : (tcp : Conn) → stream tcp ++ lost ≡ rest → Cut front rest lost (some front, tcp)
  short : (tcp : Conn) → (lost ≡ [] → ⊥) → Cut front rest lost (none, tcp)

or_end-ok :
    (p : Result IoError Bytes × Conn) {out : Bytes} → p.0 ≡ ok out → or_end p ≡ (some out, p.1)
or_end-ok (r, c) h = rw h refl

or_end-err : (p : Result IoError Bytes × Conn) {e : IoError} → p.0 ≡ err e → or_end p ≡ (none, p.1)
or_end-err (r, c) h = rw h refl

pub append_nil_inv : (xs ys : Bytes) → xs ++ ys ≡ [] → xs ≡ []
append_nil_inv [] ys h = refl
append_nil_inv (x ∷ xs) ys h = cc

nothing_lost :
    (c : Bytes) (lost front rest : Bytes)
    → c ++ lost ≡ front ++ rest
    → length c < length front
    → lost ≡ []
    → ⊥
nothing_lost c lost front rest s h e =
    let lengths : length c + length lost ≡ length front + length rest =
      sym (length-append c lost) ∙ ap length s ∙ length-append front rest in
    let none_left : length lost ≡ 0 = ap length e in omega arith

pub or_end-Cut :
    (front rest lost : Bytes) (c : Conn)
    → stream c ++ lost ≡ front ++ rest
    → Cut front rest lost (or_end (read_full (length front) c))
or_end-Cut front rest lost c s = elim (Bool-cases (leb (length front) (length (stream c)))) [
  | inl enough ↦
      let (out, e, l, joined) = read_full-ok (length front) c (leb→le _ _ enough) in
      let (a, b) =
        append-injective out (stream (read_full (length front) c).1 ++ lost) front rest l
          (sym (append_assoc out _ lost) ∙ ap (λ (t : Bytes). t ++ lost) joined ∙ s) in
      subst (Cut front rest lost) (sym (or_end-ok (read_full (length front) c) (e ∙ ap ok a)))
        (whole _ b)
  | inr missing ↦
      let less : length (stream c) < length front = ground arith in
      let (e, failed) = read_full-short (length front) c less in
      subst (Cut front rest lost) (sym (or_end-err (read_full (length front) c) failed))
        (short _ (nothing_lost (stream c) lost front rest s less))
]

-- A server's packet.
abbrev pub frame : Bytes → Bytes
frame packet = put_uint16 (length packet) ++ packet

read_body-Cut :
    (packet rest lost : Bytes) (p : Option Bytes × Conn)
    → length packet ≤ buffer_size
    → Cut (put_uint16 (length packet)) (packet ++ rest) lost p
    → Cut packet rest lost (read_body p)
unfolding read_body
read_body-Cut packet rest lost p l (whole tcp s) =
    let same : uint16 (put_uint16 (length packet)) ≡ length packet =
      uint16-put_uint16 (length packet) [] in
    let fits : ltb buffer_size (length packet) ≡ false = ground arith in
    rw (same, fits) (or_end-Cut packet rest lost tcp s)
read_body-Cut packet rest lost p l (short tcp lacking) = short tcp lacking

-- A packet that fits the buffer is read whole, or not at all when the stream is cut off inside it.
pub read_packet-Cut :
    (packet rest lost : Bytes) (c : Conn)
    → length packet ≤ buffer_size
    → stream c ++ lost ≡ frame packet ++ rest
    → Cut packet rest lost (read_packet c)
unfolding read_packet
read_packet-Cut packet rest lost c l s =
    read_body-Cut packet rest lost (or_end (read_full 2 c)) l
      (or_end-Cut (put_uint16 (length packet)) (packet ++ rest) lost c s)

-- At the end of the stream nothing more is read.
pub or_end-end :
    (n : ℕ) (c : Conn) → stream c ≡ [] → (tcp : Conn) × (or_end (read_full (suc n) c) ≡ (none, tcp))
or_end-end n c h =
    let less : length (stream c) < suc n = rw h (omega arith) in
    (_, or_end-err (read_full (suc n) c) (read_full-short (suc n) c less).1)

pub read_packet-end : (c : Conn) → stream c ≡ [] → (tcp : Conn) × (read_packet c ≡ (none, tcp))
unfolding read_packet read_body
read_packet-end c h = let (tcp, e) = or_end-end 1 c h in (tcp, rw e refl)

pub uint32-put_uint32 : (v : ℕ) → v < 4294967296 → uint32 (put_uint32 v) ≡ v
uint32-put_uint32 v h = omega arith
