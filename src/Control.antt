-- ===== src/Control.antt =====
-- The control channel of the TCP transports: `channelHandshake` of internal/server/transport/tcp.go and
-- tcpmux.go, and `channelDialer` of internal/client/transport/tcp.go between the dial and the start of
-- its loops. A read or a write on a connection does not panic.
pub mod Handshake
use backhaul_plus.Prelude.{ℕ, List, [], ◌∷◌, Option, none, some, ◌==◌, if◌then◌else◌}
use backhaul_plus.Result.{Result, ok, err, panic, stuck}
use backhaul_plus.Signals.{sg_chan}
use backhaul_plus.Stream.{IoError, Conn, close}
use backhaul_plus.Strings.{Bytes, equal}
use backhaul_plus.Wire.{
  AnyConn, net_conn, quic_stream, unsupported, WireError, receive_binary_transport_string,
  send_binary_transport_string,
}

abbrev pub on_conn : (Conn → Conn) → AnyConn → AnyConn
on_conn f (net_conn c) = net_conn (f c)
on_conn f (quic_stream c) = quic_stream (f c)
on_conn f unsupported = unsupported

abbrev pub close_any : AnyConn → AnyConn
close_any = on_conn close

-- `SetReadDeadline`
abbrev pub with_deadline : Option ℕ → AnyConn → AnyConn
with_deadline t = on_conn (λ c. record c { read_deadline = t })

abbrev pub deadline_error : AnyConn → Option IoError
deadline_error (net_conn c) = c.deadline_error
deadline_error (quic_stream c) = c.deadline_error
deadline_error unsupported = none

-- Two seconds.
abbrev pub hello_timeout : Option ℕ
hello_timeout = some 2000000000

pub data Greeting : Type 0 where
  established : AnyConn → Greeting
  refused : AnyConn → Greeting

abbrev pub answered : Result WireError (Unit {0}) × AnyConn → Greeting
answered (ok _, c) = established c
answered (err e, c) = refused (close_any c)
answered (panic, c) = refused c
answered (stuck, c) = refused c

-- The server's checks of the first message, whose transport is 0 when the read failed.
unfoldable pub hello_read : Bytes → Result WireError (Bytes × ℕ) × AnyConn → Greeting
hello_read token (ok (msg, transport), c) =
    if transport == sg_chan
    then if equal msg token
      then answered (send_binary_transport_string (with_deadline none c) token sg_chan)
      else refused (close_any (with_deadline none c))
    else refused (close_any c)
hello_read token (err e, c) = refused (close_any c)
hello_read token (panic, c) = refused c
hello_read token (stuck, c) = refused c

unfoldable pub greet_within : Bytes → AnyConn → Option IoError → Greeting
unfolding hello_read
greet_within token c (some e) = refused (close_any c)
greet_within token c none =
    hello_read token (receive_binary_transport_string (with_deadline hello_timeout c))

-- A pass of `channelHandshake`.
unfoldable pub greet : Bytes → AnyConn → Greeting
greet token c = greet_within token c (deadline_error c)

-- The connections that arrive, until one is the control channel: it, those that were refused, and those
-- that are not looked at.
abbrev pub greeted :
    Option AnyConn × List AnyConn × List AnyConn
    → List AnyConn
    → Greeting
    → Option AnyConn × List AnyConn × List AnyConn
greeted rest cs (established c) = (some c, [], cs)
greeted (found, closed, left) cs (refused c) = (found, c ∷ closed, left)

unfoldable pub channel_handshake :
    Bytes → List AnyConn → Option AnyConn × List AnyConn × List AnyConn
channel_handshake token [] = (none, [], [])
channel_handshake token (c ∷ cs) = greeted (channel_handshake token cs) cs (greet token c)

-- The client's message, and its check of the response.
unfoldable pub send_hello : Bytes → AnyConn → Result WireError (Unit {0}) × AnyConn
send_hello token c = send_binary_transport_string c token sg_chan

unfoldable pub response_read : Bytes → Result WireError (Bytes × ℕ) × AnyConn → Greeting
response_read token (ok (message, transport), c) =
    if equal message token
    then established (with_deadline none c)
    else refused (close_any (with_deadline none c))
response_read token (err e, c) = refused (close_any c)
response_read token (panic, c) = refused c
response_read token (stuck, c) = refused c

unfoldable pub await_within : Bytes → AnyConn → Option IoError → Greeting
unfolding response_read
await_within token c (some e) = refused (close_any c)
await_within token c none =
    response_read token (receive_binary_transport_string (with_deadline hello_timeout c))

unfoldable pub await_response : Bytes → AnyConn → Greeting
await_response token c = await_within token c (deadline_error c)
