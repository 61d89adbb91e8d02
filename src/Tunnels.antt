-- ===== src/Tunnels.antt =====
-- Whose connections become tunnels: `acceptTunnelConn`, the first part of `Start`, and the end of
-- `Restart` of internal/server/transport/tcp.go, with `channelHandshake` of Control and the announcement
-- by `handleLoop` of Pairing.
pub mod Peers
use backhaul_plus.Prelude.{
  ℕ, Bool, true, false, not, ◌&&◌, List, [], ◌∷◌, ◌++◌, Option, none, some, if◌then◌else◌, length,
}
use backhaul_plus.Control.{Greeting, established, refused, greet, close_any}
use backhaul_plus.Registry.{has_room}
use backhaul_plus.Result.{Result, ok, err, panic, stuck}
use backhaul_plus.Signals.{sg_tcp}
use backhaul_plus.Strings.{Bytes, equal}
use backhaul_plus.Wire.{AnyConn, WireError, send_binary_transport_string}

-- An accepted connection, with the IP of its remote address.
pub record Peer : Type 0 where
  pub ip : Bytes
  pub conn : AnyConn

-- A tunnel connection that an inbound connection for `remote_addr` is copied to.
pub record Announced : Type 0 where
  pub remote_addr : Bytes
  pub peer : Peer

-- The tunnel side of `TcpTransport`; `dropped` are the connections that a restart leaves open.
pub record TunnelSide : Type 0 where
  pub tunnel_channel : List Peer
  pub control_channel : Option Peer
  pub announced : List Announced
  pub closed : List Peer
  pub dropped : List Peer

-- `s.controlChannel != nil && … != …`
abbrev pub is_foreign : Bytes → Option Peer → Bool
is_foreign ip none = false
is_foreign ip (some control) = not (equal control.ip ip)

abbrev pub closed_peer : Peer → Peer
closed_peer p = record p { conn = close_any p.conn }

-- A pass of `acceptTunnelConn`.
unfoldable pub on_tunnel_conn : Bool → ℕ → Peer → TunnelSide → TunnelSide
on_tunnel_conn allow_multi_ip channel_size p s =
    if not allow_multi_ip && is_foreign p.ip s.control_channel
    then record s { closed = s.closed ++ (closed_peer p ∷ []) }
    else if has_room channel_size (length s.tunnel_channel)
    then record s { tunnel_channel = s.tunnel_channel ++ (p ∷ []) }
    else record s { closed = s.closed ++ (closed_peer p ∷ []) }

abbrev pub greeted_peer : Bytes → Greeting → TunnelSide → TunnelSide
greeted_peer ip (established c) s = record s {
  control_channel = some (record { ip = ip; conn = c });
}
greeted_peer ip (refused c) s = record s {
  closed = s.closed ++ (record { ip = ip; conn = c } ∷ []);
}

-- A pass of `channelHandshake`, which `Start` waits for.
unfoldable pub on_handshake : Bytes → Option Peer → List Peer → TunnelSide → TunnelSide
on_handshake token (some control) waiting s = s
on_handshake token none [] s = s
on_handshake token none (p ∷ rest) s =
    greeted_peer p.ip (greet token p.conn) (record s { tunnel_channel = rest })

abbrev pub announced_peer :
    Bytes → Bytes → Result WireError (Unit {0}) × AnyConn → TunnelSide → TunnelSide
announced_peer remote_addr ip (ok _, c) s = record s {
  announced =
      s.announced
      ++ (record { remote_addr = remote_addr; peer = record { ip = ip; conn = c } } ∷ []);
}
announced_peer remote_addr ip (err e, c) s = record s {
  closed = s.closed ++ (record { ip = ip; conn = close_any c } ∷ []);
}
announced_peer remote_addr ip (panic, c) s = s
announced_peer remote_addr ip (stuck, c) s = s

-- A loop that waits with an inbound connection takes a tunnel connection; `Start` starts the loops
-- behind the handshake.
unfoldable pub on_loop : Bytes → Option Peer → List Peer → TunnelSide → TunnelSide
on_loop remote_addr none waiting s = s
on_loop remote_addr (some control) [] s = s
on_loop remote_addr (some control) (p ∷ rest) s =
    announced_peer remote_addr p.ip (send_binary_transport_string p.conn remote_addr sg_tcp)
      (record s { tunnel_channel = rest })

abbrev pub closed_control : Option Peer → List Peer
closed_control none = []
closed_control (some control) = closed_peer control ∷ []

-- `Restart`; connections that come during its sleep are refused, or dropped at its end, and are left out.
unfoldable pub on_restart : TunnelSide → TunnelSide
on_restart s = record s {
  tunnel_channel = [];
  control_channel = none;
  closed = s.closed ++ closed_control s.control_channel;
  dropped = s.dropped ++ s.tunnel_channel;
}

pub data Event : Type 0 where
  tunnel_conn : Peer → Event
  handshake restart : Event
  loop : Bytes → Event

unfoldable pub step : Bytes → Bool → ℕ → Event → TunnelSide → TunnelSide
unfolding on_tunnel_conn on_handshake on_loop on_restart
step token allow_multi_ip size (tunnel_conn p) s = on_tunnel_conn allow_multi_ip size p s
step token allow_multi_ip size handshake s = on_handshake token s.control_channel s.tunnel_channel s
step token allow_multi_ip size (loop remote_addr) s =
    on_loop remote_addr s.control_channel s.tunnel_channel s
step token allow_multi_ip size restart s = on_restart s

unfoldable pub run : Bytes → Bool → ℕ → List Event → TunnelSide → TunnelSide
unfolding step
run token allow_multi_ip size [] s = s
run token allow_multi_ip size (e ∷ es) s =
    run token allow_multi_ip size es (step token allow_multi_ip size e s)
