-- ===== src/Gateway.antt =====
-- internal/server/transport/gateway.go and http_gateway.go: an accepted connection is inspected,
-- routed and handed to the server of its route, or closed.
pub mod Delivery
use backhaul_plus.Prelude.{
  ℕ, ◌+◌, Bool, true, false, ◌&&◌, ◌||◌, Option, none, some, ℤ, pos, negsuc, ltb_ℤ, leb_ℤ, ltb, leb,
  if◌then◌else◌, drop, [],
}
use backhaul_plus.Result.{Result, ok, err, panic, stuck}
use backhaul_plus.Maps.{Map, lookup}
use backhaul_plus.Net.{atoi}
use backhaul_plus.Prefixed
use backhaul_plus.Prefixed.{NetConn, plain, new_prefixed_conn}
use backhaul_plus.Registry.{TcpTransport, Registry, register, lookup_target, enqueue_inbound}
use backhaul_plus.Stream
use backhaul_plus.Stream.{Conn}
use backhaul_plus.Strings.{Bytes, codes, equal, trim_space, last_index_byte}
use backhaul_plus.Sni.Inspect.{read_tls_client_hello_sni}
use backhaul_plus.Http.Preread.{read_http_host, default_max_http_header_bytes}

pub record GatewayRoute : Type 0 where
  pub server : Bytes
  pub target : Bytes

pub record GatewayConfig : Type 0 where
  pub name : Bytes
  pub listen_addr : Bytes
  pub inspect_timeout : ℤ
  pub default_action : Bytes
  pub routes : Map GatewayRoute

pub record HttpGatewayConfig : Type 0 where
  pub name : Bytes
  pub listen_addr : Bytes
  pub inspect_timeout : ℤ
  pub max_header_bytes : ℤ
  pub default_action : Bytes
  pub routes : Map GatewayRoute

abbrev pub second : ℤ
second = pos 1_000_000_000

abbrev pub or_default : Bytes → Bytes → Bytes
or_default value default = if equal value [] then default else value

abbrev pub positive_or : ℤ → ℤ → ℤ
positive_or value default = if leb_ℤ value (pos 0) then default else value

unfoldable pub new_gateway : GatewayConfig → GatewayConfig
new_gateway cfg = record cfg {
  inspect_timeout = positive_or cfg.inspect_timeout second;
  default_action = or_default cfg.default_action (codes "reject");
}

unfoldable pub new_http_gateway : HttpGatewayConfig → HttpGatewayConfig
new_http_gateway cfg = record cfg {
  inspect_timeout = positive_or cfg.inspect_timeout second;
  max_header_bytes = positive_or cfg.max_header_bytes (pos default_max_http_header_bytes);
  default_action = or_default cfg.default_action (codes "reject");
}

abbrev pub behind_last_colon : Bytes → Option ℕ → Bytes
behind_last_colon t none = t
behind_last_colon t (some i) = drop (i + 1) t

abbrev pub valid_port : Option ℤ → ℕ
valid_port none = 0
valid_port (some (negsuc n)) = 0
valid_port (some (pos p)) = if leb 1 p && leb p 65535 then p else 0

-- `PortFromTarget`
unfoldable pub port_from_target : Bytes → ℕ
port_from_target target =
    let t = trim_space target in valid_port (atoi (behind_last_colon t (last_index_byte t b':')))

-- What a handler leaves: the runtimes, and the connection where no runtime took it.
pub data Handled : Type 0 where
  handed_over : Registry → Handled
  dropped : Registry → NetConn → Handled

-- `EnqueueInbound` refuses: the wrapped connection is closed.
abbrev pub enqueued : Bytes → Registry → NetConn → TcpTransport × Bool → Handled
enqueued server reg wrapped (t, true) = handed_over (register server (some t) reg)
enqueued server reg wrapped (t, false) =
    dropped (register server (some t) reg) (Prefixed.close wrapped)

-- From the looked-up runtime on; the connection must be ready to take connections.
unfoldable pub hand_over :
    ℕ → Registry → GatewayRoute → Conn → Bytes → Option (Option TcpTransport) → Handled
hand_over now reg route conn first_bytes none = dropped reg (plain (Stream.close conn))
hand_over now reg route conn first_bytes (some none) = dropped reg (plain (Stream.close conn))
hand_over now reg route conn first_bytes (some (some t)) =
    let wrapped = new_prefixed_conn conn first_bytes in
    if t.ready
    then enqueued route.server reg wrapped
        (enqueue_inbound now wrapped route.target (port_from_target route.target) t)
    else dropped reg (plain (Stream.close conn))

-- From the looked-up route on.
unfoldable pub dispatch : ℕ → Registry → Conn → Bytes → Option GatewayRoute → Handled
dispatch now reg conn first_bytes none = dropped reg (plain (Stream.close conn))
dispatch now reg conn first_bytes (some route) =
    hand_over now reg route conn first_bytes (lookup_target route.server reg)

-- Behind the inspection; a panic would end the program and is shown not to happen.
abbrev pub inspected {ℓ} :
    {E : Type ℓ} → ℕ → Map GatewayRoute → Registry → Result E Bytes × Bytes × Conn → Handled
inspected now routes reg (ok host, first_bytes, conn) =
    dispatch now reg conn first_bytes (lookup host routes)
inspected now routes reg (err e, first_bytes, conn) = dropped reg (plain (Stream.close conn))
inspected now routes reg (panic, first_bytes, conn) = dropped reg (plain (Stream.close conn))
inspected now routes reg (stuck, first_bytes, conn) = dropped reg (plain (Stream.close conn))

-- `(*Gateway).handleConn`
unfoldable pub handle_conn : ℕ → GatewayConfig → Registry → Conn → Handled
handle_conn now cfg reg conn =
    inspected now cfg.routes reg (read_tls_client_hello_sni conn cfg.inspect_timeout)

-- `(*HTTPGateway).handleConn`
unfoldable pub handle_http_conn : ℕ → HttpGatewayConfig → Registry → Conn → Handled
handle_http_conn now cfg reg conn =
    inspected now cfg.routes reg (read_http_host conn cfg.inspect_timeout cfg.max_header_bytes)
