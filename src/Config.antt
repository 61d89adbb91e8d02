-- ===== src/Config.antt =====
-- internal/config/config.go: the configuration, as it is read from TOML and as it is after
-- validation. The child modules are cmd/defaults.go and cmd/validate.go.
pub mod Defaults
pub mod ByteSize
pub mod Error
pub mod Durations
pub mod Routes
pub mod PortMapping
pub mod Listeners
pub mod Validate
pub mod Runtime
use backhaul_plus.Prelude.{Bool, List, ℤ}
use backhaul_plus.Maps.{Map}
use backhaul_plus.Strings.{Bytes}

pub data TransportType : Type 0 where
  tcp tcp_mux ws wss ws_mux wss_mux udp quic : TransportType
  other : Bytes → TransportType

pub record RuntimeConfig : Type 0 where
  pub memory_release_interval : Bytes
  pub auto_restart_interval : Bytes
  pub memory_release_interval_duration : ℤ
  pub auto_restart_interval_duration : ℤ

pub record ServerConfig : Type 0 where
  pub name : Bytes
  pub bind_addr : Bytes
  pub transport : TransportType
  pub token : Bytes
  pub allow_multi_ip : Bool
  pub nodelay : Bool
  pub keepalive : ℤ
  pub channel_size : ℤ
  pub log_level : Bytes
  pub ports : List Bytes
  pub pprof : Bool
  pub mux_session : ℤ
  pub mux_version : ℤ
  pub max_frame_size : ℤ
  pub max_receive_buffer : ℤ
  pub max_stream_buffer : ℤ
  pub sniffer : Bool
  pub web_port : ℤ
  pub sniffer_log : Bytes
  pub tls_cert_file : Bytes
  pub tls_key_file : Bytes
  pub heartbeat : ℤ
  pub mux_con : ℤ
  pub accept_udp : Bool
  pub tcp_copy_buffer : Bytes
  pub tcp_copy_buffer_bytes : ℤ

pub record SniGatewayRouteConfig : Type 0 where
  pub sni : Bytes
  pub server : Bytes
  pub target : Bytes

pub record SniGatewayRoute : Type 0 where
  pub sni : Bytes
  pub server : Bytes
  pub target : Bytes

pub record SniGatewayConfig : Type 0 where
  pub name : Bytes
  pub listen_addr : Bytes
  pub inspect_timeout : ℤ
  pub default_action : Bytes
  pub routes : List SniGatewayRouteConfig
  pub route_map : Map SniGatewayRoute

pub record HttpGatewayRouteConfig : Type 0 where
  pub host : Bytes
  pub server : Bytes
  pub target : Bytes

pub record HttpGatewayRoute : Type 0 where
  pub host : Bytes
  pub server : Bytes
  pub target : Bytes

pub record HttpGatewayConfig : Type 0 where
  pub name : Bytes
  pub listen_addr : Bytes
  pub inspect_timeout : ℤ
  pub max_header_bytes : ℤ
  pub default_action : Bytes
  pub routes : List HttpGatewayRouteConfig
  pub route_map : Map HttpGatewayRoute

pub record ClientConfig : Type 0 where
  pub name : Bytes
  pub remote_addr : Bytes
  pub transport : TransportType
  pub token : Bytes
  pub connection_pool : ℤ
  pub retry_interval : ℤ
  pub nodelay : Bool
  pub keepalive : ℤ
  pub log_level : Bytes
  pub pprof : Bool
  pub mux_session : ℤ
  pub mux_version : ℤ
  pub max_frame_size : ℤ
  pub max_receive_buffer : ℤ
  pub max_stream_buffer : ℤ
  pub sniffer : Bool
  pub web_port : ℤ
  pub sniffer_log : Bytes
  pub dial_timeout : ℤ
  pub aggressive_pool : Bool
  pub edge_ip : Bytes
  pub tunnel_tcp_buffer : Bytes
  pub tunnel_tcp_buffer_bytes : ℤ
  pub tcp_copy_buffer : Bytes
  pub tcp_copy_buffer_bytes : ℤ

pub record Config : Type 0 where
  pub runtime : RuntimeConfig
  pub servers : List ServerConfig
  pub clients : List ClientConfig
  pub sni_gateways : List SniGatewayConfig
  pub http_gateways : List HttpGatewayConfig
