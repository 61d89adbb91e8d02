-- ===== src/Wire/Fresh.antt =====
-- internal/utils/binary.go on connections that have written nothing yet.
use backhaul_plus.Prelude.{ℕ, ◌<◌, ◌≡◌, refl, ap, ◌∙◌, [], ◌∷◌, ◌++◌, arith, length, take, drop}
use backhaul_plus.Result.{Result, ok, err, panic, stuck}
use backhaul_plus.Stream.{IoError, read_full, write}
use backhaul_plus.Strings.{Bytes}
use backhaul_plus.Wire.{
  AnyConn, net_conn, quic_stream, unsupported, WireError, read_any, write_any,
  receive_transport_body, with_transport, receive_binary_transport_string,
  send_binary_transport_string, transport_frame,
}
use backhaul_plus.Wire.RoundTrip.{
  outgoing, incoming, IsFresh, IsKnown, carried, receive_binary_transport_string-send,
}

take-all : (message : Bytes) → take (length message) message ≡ message
take-all [] = refl
take-all (x ∷ xs) = ap (◌∷◌ x) (take-all xs)

drop-all : (message : Bytes) → drop (length message) message ≡ []
drop-all [] = refl
drop-all (x ∷ xs) = drop-all xs

-- A message whose length fits its field is received whole.
pub received_whole :
    (message rest : Bytes) (transport : ℕ) (sender receiver : AnyConn)
    → length message < 65536
    → IsFresh sender
    → IsKnown receiver
    → incoming receiver ≡ outgoing (send_binary_transport_string sender message transport).1 ++ rest
    → ((receive_binary_transport_string receiver).0 ≡ ok (message, transport))
      × (incoming (receive_binary_transport_string receiver).1 ≡ rest)
received_whole message rest transport sender receiver l f k s =
    let (got, left) =
      receive_binary_transport_string-send message rest sender receiver transport f k s in
    let all : carried message ≡ length message = omega arith in
    (
      got
          ∙ ap (λ (n : ℕ). ok (take n message, transport)) all
          ∙ ap (λ (m : Bytes). ok (m, transport)) (take-all message),
      left
          ∙ ap (λ (n : ℕ). drop n message ++ rest) all
          ∙ ap (λ (m : Bytes). m ++ rest) (drop-all message),
    )

-- A read leaves a connection that has written nothing as it is for the writer.
read_any-IsFresh :
    (n : ℕ) (why : IoError → WireError) (c : AnyConn) → IsFresh c → IsFresh (read_any n why c).1
unfolding read_any read_full
read_any-IsFresh n why (net_conn c) f = f
read_any-IsFresh n why (quic_stream c) f = f
read_any-IsFresh n why unsupported f = f

with_transport-IsFresh :
    (t : ℕ) (p : Result WireError Bytes × AnyConn) → IsFresh p.1 → IsFresh (with_transport t p).1
with_transport-IsFresh t (ok b, c) f = f
with_transport-IsFresh t (err e, c) f = f
with_transport-IsFresh t (panic, c) f = f
with_transport-IsFresh t (stuck, c) f = f

body-IsFresh :
    (p : Result WireError Bytes × AnyConn) → IsFresh p.1 → IsFresh (receive_transport_body p).1
unfolding receive_transport_body
body-IsFresh (ok header, c) f = with_transport-IsFresh _ _ (read_any-IsFresh _ _ c f)
body-IsFresh (err e, c) f = f
body-IsFresh (panic, c) f = f
body-IsFresh (stuck, c) f = f

pub receive-IsFresh : (c : AnyConn) → IsFresh c → IsFresh (receive_binary_transport_string c).1
unfolding receive_binary_transport_string
receive-IsFresh c f = body-IsFresh _ (read_any-IsFresh 3 _ c f)

-- A message is sent whole on such a connection, and its reader's part is untouched.
pub send_fresh :
    (message : Bytes) (transport : ℕ) (c : AnyConn)
    → IsFresh c
    → (d : AnyConn) × (send_binary_transport_string c message transport ≡ (ok tt, d))
      × (incoming d ≡ incoming c)
      × (outgoing d ≡ transport_frame message transport)
unfolding send_binary_transport_string write_any write
send_fresh message transport (net_conn c) f = (
  net_conn (record c { written = c.written ++ transport_frame message transport }),
  rw f.1 refl,
  refl,
  ap (λ (t : Bytes). t ++ transport_frame message transport) f.0,
)
send_fresh message transport (quic_stream c) f = (
  quic_stream (record c { written = c.written ++ transport_frame message transport }),
  rw f.1 refl,
  refl,
  ap (λ (t : Bytes). t ++ transport_frame message transport) f.0,
)
send_fresh message transport unsupported f = elim f [ ]

pub fresh-IsKnown : (c : AnyConn) → IsFresh c → IsKnown c
fresh-IsKnown (net_conn c) f = tt
fresh-IsKnown (quic_stream c) f = tt
fresh-IsKnown unsupported f = elim f [ ]
