-- ===== src/Wire.antt =====
-- internal/utils/binary.go: the framing of control messages, a big-endian length and the bytes.
pub mod RoundTrip
pub mod Fresh
use backhaul_plus.Prelude.{
  ℕ, ◌+◌, ◌*◌, ◌/◌, ◌%◌, List, [], ◌∷◌, ◌++◌, Option, none, some, length, get_or,
}
use backhaul_plus.Result.{Result, ok, err, panic, stuck}
use backhaul_plus.Stream.{IoError, Conn, read_full, write}
use backhaul_plus.Strings.{Bytes}

-- `conn interface{}`: the type switch of every function knows two kinds.
pub data AnyConn : Type 0 where
  net_conn : Conn → AnyConn
  quic_stream : Conn → AnyConn
  unsupported : AnyConn

pub data WireError : Type 0 where
  failed_to_send failed_to_read_length failed_to_read_message : IoError → WireError
  failed_to_read_port : IoError → WireError
  unsupported_type : WireError

-- `binary.BigEndian.PutUint16`, of a value already cut to 16 bits, and `Uint16`.
abbrev pub put_uint16 : ℕ → Bytes
put_uint16 v = (v / 256) ∷ (v % 256) ∷ []

abbrev pub uint16 : Bytes → ℕ
uint16 b = get_or b 0 0 * 256 + get_or b 1 0

abbrev sent : Option IoError → Result WireError (Unit {0})
sent none = ok tt
sent (some e) = err (failed_to_send e)

-- The switch around `c.Write(buf)`.
write_any : Bytes → AnyConn → Result WireError (Unit {0}) × AnyConn
write_any buf (net_conn c) = let (e, c') = write buf c in (sent e, net_conn c')
write_any buf (quic_stream c) = let (e, c') = write buf c in (sent e, quic_stream c')
write_any buf unsupported = (err unsupported_type, unsupported)

abbrev failed : (IoError → WireError) → Result IoError Bytes → Result WireError Bytes
failed why (ok b) = ok b
failed why (err e) = err (why e)
failed why panic = panic
failed why stuck = stuck

-- The switch around `io.ReadFull(c, buf)` for a buffer of `n` bytes.
read_any : ℕ → (IoError → WireError) → AnyConn → Result WireError Bytes × AnyConn
read_any n why (net_conn c) = let (r, c') = read_full n c in (failed why r, net_conn c')
read_any n why (quic_stream c) = let (r, c') = read_full n c in (failed why r, quic_stream c')
read_any n why unsupported = (err unsupported_type, unsupported)

-- `uint16(len(message))` keeps the low 16 bits of the length.
unfoldable pub string_frame : Bytes → Bytes
string_frame message = put_uint16 (length message % 65536) ++ message

unfoldable pub send_binary_string : AnyConn → Bytes → Result WireError (Unit {0}) × AnyConn
unfolding write_any string_frame
send_binary_string conn message = write_any (string_frame message) conn

receive_body : Result WireError Bytes × AnyConn → Result WireError Bytes × AnyConn
unfolding read_any
receive_body (ok header, conn) = read_any (uint16 header) failed_to_read_message conn
receive_body (err e, conn) = (err e, conn)
receive_body (panic, conn) = (panic, conn)
receive_body (stuck, conn) = (stuck, conn)

unfoldable pub receive_binary_string : AnyConn → Result WireError Bytes × AnyConn
unfolding read_any receive_body
receive_binary_string conn = receive_body (read_any 2 failed_to_read_length conn)

unfoldable pub transport_frame : Bytes → ℕ → Bytes
transport_frame message transport = put_uint16 (length message % 65536) ++ (transport ∷ message)

unfoldable pub send_binary_transport_string :
    AnyConn → Bytes → ℕ → Result WireError (Unit {0}) × AnyConn
unfolding write_any transport_frame
send_binary_transport_string conn message transport =
    write_any (transport_frame message transport) conn

-- Go returns the transport byte 0 with an error.
abbrev with_transport :
    ℕ → Result WireError Bytes × AnyConn → Result WireError (Bytes × ℕ) × AnyConn
with_transport t (ok b, conn) = (ok (b, t), conn)
with_transport t (err e, conn) = (err e, conn)
with_transport t (panic, conn) = (panic, conn)
with_transport t (stuck, conn) = (stuck, conn)

receive_transport_body : Result WireError Bytes × AnyConn → Result WireError (Bytes × ℕ) × AnyConn
unfolding read_any
receive_transport_body (ok header, conn) =
    with_transport (get_or header 2 0) (read_any (uint16 header) failed_to_read_message conn)
receive_transport_body (err e, conn) = (err e, conn)
receive_transport_body (panic, conn) = (panic, conn)
receive_transport_body (stuck, conn) = (stuck, conn)

unfoldable pub receive_binary_transport_string : AnyConn → Result WireError (Bytes × ℕ) × AnyConn
unfolding read_any receive_transport_body
receive_binary_transport_string conn =
    receive_transport_body (read_any 3 failed_to_read_length conn)

-- `SendBinaryInt`, `SendBinaryByte`
unfoldable pub send_binary_int : Conn → ℕ → Result WireError (Unit {0}) × Conn
send_binary_int conn port = let (e, c') = write (put_uint16 port) conn in (sent e, c')

abbrev decode_port : Result IoError Bytes → Result WireError ℕ
decode_port (ok b) = ok (uint16 b)
decode_port (err e) = err (failed_to_read_port e)
decode_port panic = panic
decode_port stuck = stuck

-- `binary.Read` of two bytes is `io.ReadFull` of them.
unfoldable pub receive_binary_int : Conn → Result WireError ℕ × Conn
receive_binary_int conn = let (r, c') = read_full 2 conn in (decode_port r, c')

unfoldable pub send_binary_byte : AnyConn → ℕ → Result WireError (Unit {0}) × AnyConn
unfolding write_any
send_binary_byte conn message = write_any (message ∷ []) conn

abbrev first_byte : Result WireError Bytes × AnyConn → Result WireError ℕ × AnyConn
first_byte (ok b, conn) = (ok (get_or b 0 0), conn)
first_byte (err e, conn) = (err e, conn)
first_byte (panic, conn) = (panic, conn)
first_byte (stuck, conn) = (stuck, conn)

unfoldable pub receive_binary_byte : AnyConn → Result WireError ℕ × AnyConn
unfolding read_any
receive_binary_byte conn = first_byte (read_any 1 failed_to_read_message conn)
