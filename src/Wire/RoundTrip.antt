-- ===== src/Wire/RoundTrip.antt =====
-- internal/utils/binary.go: the senders against the receivers.
use backhaul_plus.Prelude.{
  ℕ, ◌≡◌, [], ◌++◌, none, length, arith, get_or, sym, take, ap, drop, ◌∙◌, take-append-drop,
  length-take, append_assoc, ◌%◌, ◌∷◌, refl,
}
use backhaul_plus.Result.{ok, Result}
use backhaul_plus.Stream.{stream, write}
use backhaul_plus.Stream.ReadFull.{read_full-append}
use backhaul_plus.Strings.{Bytes}
use backhaul_plus.Wire.{
  AnyConn, net_conn, quic_stream, unsupported, put_uint16, uint16, write_any, read_any, WireError,
  IoError, receive_binary_string, receive_binary_transport_string, receive_body,
  receive_transport_body, failed_to_read_length, failed_to_read_message, with_transport,
  send_binary_string, send_binary_transport_string, string_frame, transport_frame,
}

-- What the peer of a connection was sent, and what its own reader is still to get.
abbrev pub outgoing : AnyConn → Bytes
outgoing (net_conn c) = c.written
outgoing (quic_stream c) = c.written
outgoing unsupported = []

abbrev pub incoming : AnyConn → Bytes
incoming (net_conn c) = stream c
incoming (quic_stream c) = stream c
incoming unsupported = []

-- Connections of the two known kinds, of which no write fails, that have written nothing yet.
abbrev pub IsFresh : AnyConn → Type 0
IsFresh (net_conn c) = (c.written ≡ []) × (c.write_error ≡ none)
IsFresh (quic_stream c) = (c.written ≡ []) × (c.write_error ≡ none)
IsFresh unsupported = ⊥

abbrev pub IsKnown : AnyConn → Type 0
IsKnown unsupported = ⊥
IsKnown _ = Unit

pub uint16-put_uint16 : (v : ℕ) (rest : Bytes) → uint16 (put_uint16 v ++ rest) ≡ v
uint16-put_uint16 v rest = omega arith

outgoing-write_any : (buf : Bytes) (c : AnyConn) → IsFresh c → outgoing (write_any buf c).1 ≡ buf
unfolding write_any write
outgoing-write_any buf (net_conn c) h = ground arith
outgoing-write_any buf (quic_stream c) h = ground arith
outgoing-write_any buf unsupported h = elim h [ ]

module _ (why : IoError → WireError) (front rest : Bytes) where
  read_any-append :
      (n : ℕ) (c : AnyConn)
      → IsKnown c
      → incoming c ≡ front ++ rest
      → length front ≡ n
      → ((read_any n why c).0 ≡ ok front)
        × (incoming (read_any n why c).1 ≡ rest)
        × IsKnown (read_any n why c).1
  unfolding read_any
  read_any-append n (net_conn c) k s l =
      let (e, left) = read_full-append n c front rest s l in (rw e, left, tt)
  read_any-append n (quic_stream c) k s l =
      let (e, left) = read_full-append n c front rest s l in (rw e, left, tt)
  read_any-append n unsupported k s l = elim k [ ]

module _ (header body rest : Bytes) (c : AnyConn) (k : IsKnown c) where
  -- A header of two bytes and then as many bytes as it says.
  receive-frame :
      incoming c ≡ header ++ (body ++ rest)
      → length header ≡ 2
      → uint16 header ≡ length body
      → ((receive_binary_string c).0 ≡ ok body) × (incoming (receive_binary_string c).1 ≡ rest)
  unfolding receive_binary_string receive_body
  receive-frame s l e =
      let (got, left, known) =
        read_any-append failed_to_read_length header (body ++ rest) 2 c k s l in
      let (b, r, _) =
        read_any-append failed_to_read_message body rest (uint16 header) _ known left (sym e) in
      rw (with_first got) (b, r)
    where
      with_first :
          {r : Result WireError Bytes}
          → (read_any 2 failed_to_read_length c).0 ≡ r
          → read_any 2 failed_to_read_length c ≡ (r, (read_any 2 failed_to_read_length c).1)
      with_first h = λ i. (h i, (read_any 2 failed_to_read_length c).1)

  -- Likewise with a transport byte behind the length.
  receive_transport-frame :
      incoming c ≡ header ++ (body ++ rest)
      → length header ≡ 3
      → uint16 header ≡ length body
      → ((receive_binary_transport_string c).0 ≡ ok (body, get_or header 2 0))
        × (incoming (receive_binary_transport_string c).1 ≡ rest)
  unfolding receive_binary_transport_string receive_transport_body
  receive_transport-frame s l e =
      let (got, left, known) =
        read_any-append failed_to_read_length header (body ++ rest) 3 c k s l in
      let (b, r, _) =
        read_any-append failed_to_read_message body rest (uint16 header) _ known left (sym e) in
      rw (with_first got) (with_body _ b, ap incoming (with_transport_conn _ b) ∙ r)
    where
      with_first :
          {r : Result WireError Bytes}
          → (read_any 3 failed_to_read_length c).0 ≡ r
          → read_any 3 failed_to_read_length c ≡ (r, (read_any 3 failed_to_read_length c).1)
      with_first h = λ i. (h i, (read_any 3 failed_to_read_length c).1)

      with_body :
          (p : Result WireError Bytes × AnyConn)
          → p.0 ≡ ok body
          → (with_transport (get_or header 2 0) p).0 ≡ ok (body, get_or header 2 0)
      with_body (r, c') h = rw h

      with_transport_conn :
          (p : Result WireError Bytes × AnyConn)
          → p.0 ≡ ok body
          → (with_transport (get_or header 2 0) p).1 ≡ p.1
      with_transport_conn (r, c') h = rw h

-- The length that a frame carries.
abbrev pub carried : Bytes → ℕ
carried message = length message % 65536

take-drop_join :
    (n : ℕ) (message rest : Bytes) → message ++ rest ≡ take n message ++ (drop n message ++ rest)
take-drop_join n message rest =
    ap (λ t. t ++ rest) (sym (take-append-drop n message))
    ∙ append_assoc (take n message) (drop n message) rest

length-take-carried :
    (message : Bytes) (t : Bytes)
    → uint16 (put_uint16 (carried message) ++ t) ≡ length (take (carried message) message)
length-take-carried message t =
    uint16-put_uint16 (carried message) t ∙ omega (arith, length-take (carried message) message)

module _ (message rest : Bytes) (sender receiver : AnyConn) where
  -- Of a message sent with its length, the receiver gets the first bytes, as many as the low 16 bits
  -- of the length say; the others are left in the stream, in front of what follows.
  pub receive_binary_string-send :
      IsFresh sender
      → IsKnown receiver
      → incoming receiver ≡ outgoing (send_binary_string sender message).1 ++ rest
      → ((receive_binary_string receiver).0 ≡ ok (take (carried message) message))
        × (incoming (receive_binary_string receiver).1 ≡ drop (carried message) message ++ rest)
  unfolding send_binary_string string_frame
  receive_binary_string-send f k s =
      let sent = outgoing-write_any (string_frame message) sender f in
      receive-frame (put_uint16 (carried message)) (take (carried message) message)
        (drop (carried message) message ++ rest) receiver k
        (s
          ∙ ap (λ t. t ++ rest) sent
          ∙ ap (λ t. put_uint16 (carried message) ++ t)
              (take-drop_join (carried message) message rest))
        refl (length-take-carried message [])

  -- Of a message sent with a transport byte, the receiver gets that byte and the first bytes, as many as
  -- the low 16 bits of the length say; the others are left in the stream, in front of what follows.
  pub receive_binary_transport_string-send :
      (transport : ℕ)
      → IsFresh sender
      → IsKnown receiver
      → incoming receiver
        ≡ outgoing (send_binary_transport_string sender message transport).1 ++ rest
      → ((receive_binary_transport_string receiver).0
          ≡ ok (take (carried message) message, transport))
        × (incoming (receive_binary_transport_string receiver).1
            ≡ drop (carried message) message ++ rest)
  unfolding send_binary_transport_string transport_frame
  receive_binary_transport_string-send transport f k s =
      let sent = outgoing-write_any (transport_frame message transport) sender f in
      receive_transport-frame (put_uint16 (carried message) ++ (transport ∷ []))
        (take (carried message) message) (drop (carried message) message ++ rest) receiver k
        (s
          ∙ ap (λ t. t ++ rest) sent
          ∙ ap (λ t. put_uint16 (carried message) ++ (transport ∷ t))
              (take-drop_join (carried message) message rest))
        refl (length-take-carried message (transport ∷ []))
