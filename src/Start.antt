-- ===== src/Start.antt =====
-- internal/server/server.go: the transport that a server's configuration names; and of cmd/cmd.go the
-- registration of the servers for the gateways. The conversion of seconds is that of the gateways.
pub mod Registered
pub mod Routed
use backhaul_plus.Prelude.{Bool, List, [], ◌∷◌, Option, none, some, ℤ}
use backhaul_plus.Config.{
  ServerConfig, TransportType, tcp, tcp_mux, ws, wss, ws_mux, wss_mux, udp, quic, other,
}
use backhaul_plus.Config.Runtime.{seconds}
use backhaul_plus.Maps.{Map, insert}
use backhaul_plus.Strings.{Bytes}

pub record TcpConfig : Type 0 where
  pub bind_addr : Bytes
  pub nodelay : Bool
  pub keep_alive : ℤ
  pub heartbeat : ℤ
  pub token : Bytes
  pub channel_size : ℤ
  pub ports : List Bytes
  pub sniffer : Bool
  pub web_port : ℤ
  pub sniffer_log : Bytes
  pub accept_udp : Bool
  pub allow_multi_ip : Bool
  pub tcp_copy_buffer : ℤ

pub record TcpMuxConfig : Type 0 where
  pub bind_addr : Bytes
  pub nodelay : Bool
  pub keep_alive : ℤ
  pub heartbeat : ℤ
  pub token : Bytes
  pub channel_size : ℤ
  pub ports : List Bytes
  pub mux_con : ℤ
  pub mux_version : ℤ
  pub max_frame_size : ℤ
  pub max_receive_buffer : ℤ
  pub max_stream_buffer : ℤ
  pub sniffer : Bool
  pub web_port : ℤ
  pub sniffer_log : Bytes
  pub allow_multi_ip : Bool
  pub tcp_copy_buffer : ℤ

pub record WsConfig : Type 0 where
  pub bind_addr : Bytes
  pub nodelay : Bool
  pub keep_alive : ℤ
  pub heartbeat : ℤ
  pub token : Bytes
  pub channel_size : ℤ
  pub ports : List Bytes
  pub sniffer : Bool
  pub web_port : ℤ
  pub sniffer_log : Bytes
  pub mode : TransportType
  pub tls_cert_file : Bytes
  pub tls_key_file : Bytes

pub record WsMuxConfig : Type 0 where
  pub bind_addr : Bytes
  pub nodelay : Bool
  pub keep_alive : ℤ
  pub heartbeat : ℤ
  pub token : Bytes
  pub channel_size : ℤ
  pub ports : List Bytes
  pub mux_con : ℤ
  pub mux_version : ℤ
  pub max_frame_size : ℤ
  pub max_receive_buffer : ℤ
  pub max_stream_buffer : ℤ
  pub sniffer : Bool
  pub web_port : ℤ
  pub sniffer_log : Bytes
  pub mode : TransportType
  pub tls_cert_file : Bytes
  pub tls_key_file : Bytes
  pub tcp_copy_buffer : ℤ

pub record QuicConfig : Type 0 where
  pub bind_addr : Bytes
  pub nodelay : Bool
  pub keep_alive : ℤ
  pub heartbeat : ℤ
  pub token : Bytes
  pub mux_con : ℤ
  pub channel_size : ℤ
  pub ports : List Bytes
  pub sniffer : Bool
  pub web_port : ℤ
  pub sniffer_log : Bytes
  pub tls_cert_file : Bytes
  pub tls_key_file : Bytes
  pub allow_multi_ip : Bool

pub record UdpConfig : Type 0 where
  pub bind_addr : Bytes
  pub heartbeat : ℤ
  pub token : Bytes
  pub channel_size : ℤ
  pub ports : List Bytes
  pub sniffer : Bool
  pub web_port : ℤ
  pub sniffer_log : Bytes

-- The transports that are an `InboundTarget`.
pub data InboundTarget : Type 0 where
  tcp_server : TcpConfig → InboundTarget
  tcp_mux_server : TcpMuxConfig → InboundTarget
  ws_server : WsConfig → InboundTarget
  ws_mux_server : WsMuxConfig → InboundTarget
  quic_server : QuicConfig → InboundTarget

-- What `Start` of a server runs.
pub data Worker : Type 0 where
  inbound_worker : InboundTarget → Worker
  udp_worker : UdpConfig → Worker
  invalid_transport : TransportType → Worker

pub record Server : Type 0 where
  pub runtime : Option InboundTarget
  pub start : Worker

abbrev pub serving : InboundTarget → Server
serving rt = record { runtime = some rt; start = inbound_worker rt }

abbrev ws_config : ServerConfig → WsConfig
ws_config c = record {
  bind_addr = c.bind_addr;
  nodelay = c.nodelay;
  keep_alive = seconds c.keepalive;
  heartbeat = seconds c.heartbeat;
  token = c.token;
  channel_size = c.channel_size;
  ports = c.ports;
  sniffer = c.sniffer;
  web_port = c.web_port;
  sniffer_log = c.sniffer_log;
  mode = c.transport;
  tls_cert_file = c.tls_cert_file;
  tls_key_file = c.tls_key_file;
}

abbrev ws_mux_config : ServerConfig → WsMuxConfig
ws_mux_config c = record {
  bind_addr = c.bind_addr;
  nodelay = c.nodelay;
  keep_alive = seconds c.keepalive;
  heartbeat = seconds c.heartbeat;
  token = c.token;
  channel_size = c.channel_size;
  ports = c.ports;
  mux_con = c.mux_con;
  mux_version = c.mux_version;
  max_frame_size = c.max_frame_size;
  max_receive_buffer = c.max_receive_buffer;
  max_stream_buffer = c.max_stream_buffer;
  sniffer = c.sniffer;
  web_port = c.web_port;
  sniffer_log = c.sniffer_log;
  mode = c.transport;
  tls_cert_file = c.tls_cert_file;
  tls_key_file = c.tls_key_file;
  tcp_copy_buffer = c.tcp_copy_buffer_bytes;
}

-- `switch s.config.Transport` of `build`
unfoldable pub build_for : TransportType → ServerConfig → Server
build_for tcp c = serving (
    tcp_server (record {
      bind_addr = c.bind_addr;
      nodelay = c.nodelay;
      keep_alive = seconds c.keepalive;
      heartbeat = seconds c.heartbeat;
      token = c.token;
      channel_size = c.channel_size;
      ports = c.ports;
      sniffer = c.sniffer;
      web_port = c.web_port;
      sniffer_log = c.sniffer_log;
      accept_udp = c.accept_udp;
      allow_multi_ip = c.allow_multi_ip;
      tcp_copy_buffer = c.tcp_copy_buffer_bytes;
    }))
build_for tcp_mux c = serving (
    tcp_mux_server (record {
      bind_addr = c.bind_addr;
      nodelay = c.nodelay;
      keep_alive = seconds c.keepalive;
      heartbeat = seconds c.heartbeat;
      token = c.token;
      channel_size = c.channel_size;
      ports = c.ports;
      mux_con = c.mux_con;
      mux_version = c.mux_version;
      max_frame_size = c.max_frame_size;
      max_receive_buffer = c.max_receive_buffer;
      max_stream_buffer = c.max_stream_buffer;
      sniffer = c.sniffer;
      web_port = c.web_port;
      sniffer_log = c.sniffer_log;
      allow_multi_ip = c.allow_multi_ip;
      tcp_copy_buffer = c.tcp_copy_buffer_bytes;
    }))
build_for ws c = serving (ws_server (ws_config c))
build_for wss c = serving (ws_server (ws_config c))
build_for ws_mux c = serving (ws_mux_server (ws_mux_config c))
build_for wss_mux c = serving (ws_mux_server (ws_mux_config c))
build_for quic c = serving (
    quic_server (record {
      bind_addr = c.bind_addr;
      nodelay = c.nodelay;
      keep_alive = seconds c.keepalive;
      heartbeat = seconds c.heartbeat;
      token = c.token;
      mux_con = c.mux_con;
      channel_size = c.channel_size;
      ports = c.ports;
      sniffer = c.sniffer;
      web_port = c.web_port;
      sniffer_log = c.sniffer_log;
      tls_cert_file = c.tls_cert_file;
      tls_key_file = c.tls_key_file;
      allow_multi_ip = c.allow_multi_ip;
    }))
build_for udp c = record {
  runtime = none;
  start = udp_worker (record {
    bind_addr = c.bind_addr;
    heartbeat = seconds c.heartbeat;
    token = c.token;
    channel_size = c.channel_size;
    ports = c.ports;
    sniffer = c.sniffer;
    web_port = c.web_port;
    sniffer_log = c.sniffer_log;
  });
}
build_for (other name) c = record { runtime = none; start = invalid_transport (other name) }

-- `NewServer`, `build`
unfoldable pub new_server : ServerConfig → Server
unfolding build_for
new_server c = build_for c.transport c

-- `if rt := srv.Runtime(); rt != nil`
abbrev pub register_runtime : Bytes → Option InboundTarget → Map InboundTarget → Map InboundTarget
register_runtime name none registry = registry
register_runtime name (some rt) registry = insert name rt registry

-- `for i := range cfg.Servers` of `Run`
unfoldable pub register_servers : List ServerConfig → Map InboundTarget → Map InboundTarget
unfolding new_server
register_servers [] registry = registry
register_servers (c ∷ cs) registry =
    register_servers cs (register_runtime c.name (new_server c).runtime registry)
