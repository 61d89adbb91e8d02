-- ===== src/Client/Workers.antt =====
-- internal/client/client.go: the transport that a client's configuration names. The conversion of
-- seconds is that of the gateways.
use backhaul_plus.Prelude.{Bool, ℤ}
use backhaul_plus.Config.{
  ClientConfig, TransportType, tcp, tcp_mux, ws, wss, ws_mux, wss_mux, udp, quic, other,
}
use backhaul_plus.Config.Runtime.{seconds}
use backhaul_plus.Strings.{Bytes}

pub record TcpConfig : Type 0 where
  pub remote_addr : Bytes
  pub nodelay : Bool
  pub keep_alive : ℤ
  pub retry_interval : ℤ
  pub dial_time_out : ℤ
  pub conn_pool_size : ℤ
  pub token : Bytes
  pub sniffer : Bool
  pub web_port : ℤ
  pub sniffer_log : Bytes
  pub aggressive_pool : Bool
  pub tcp_copy_buffer : ℤ

pub record TcpMuxConfig : Type 0 where
  pub remote_addr : Bytes
  pub nodelay : Bool
  pub keep_alive : ℤ
  pub retry_interval : ℤ
  pub dial_time_out : ℤ
  pub conn_pool_size : ℤ
  pub token : Bytes
  pub mux_version : ℤ
  pub max_frame_size : ℤ
  pub max_receive_buffer : ℤ
  pub max_stream_buffer : ℤ
  pub sniffer : Bool
  pub web_port : ℤ
  pub sniffer_log : Bytes
  pub aggressive_pool : Bool
  pub tunnel_tcp_buffer : ℤ
  pub tcp_copy_buffer : ℤ

pub record WsConfig : Type 0 where
  pub remote_addr : Bytes
  pub nodelay : Bool
  pub keep_alive : ℤ
  pub retry_interval : ℤ
  pub dial_time_out : ℤ
  pub conn_pool_size : ℤ
  pub token : Bytes
  pub sniffer : Bool
  pub web_port : ℤ
  pub sniffer_log : Bytes
  pub mode : TransportType
  pub aggressive_pool : Bool
  pub edge_ip : Bytes

pub record WsMuxConfig : Type 0 where
  pub remote_addr : Bytes
  pub nodelay : Bool
  pub keep_alive : ℤ
  pub retry_interval : ℤ
  pub dial_time_out : ℤ
  pub conn_pool_size : ℤ
  pub token : Bytes
  pub mux_version : ℤ
  pub max_frame_size : ℤ
  pub max_receive_buffer : ℤ
  pub max_stream_buffer : ℤ
  pub sniffer : Bool
  pub web_port : ℤ
  pub sniffer_log : Bytes
  pub mode : TransportType
  pub aggressive_pool : Bool
  pub edge_ip : Bytes
  pub tcp_copy_buffer : ℤ

pub record QuicConfig : Type 0 where
  pub remote_addr : Bytes
  pub nodelay : Bool
  pub keep_alive : ℤ
  pub retry_interval : ℤ
  pub dial_time_out : ℤ
  pub connection_pool : ℤ
  pub token : Bytes
  pub sniffer : Bool
  pub web_port : ℤ
  pub sniffer_log : Bytes
  pub aggressive_pool : Bool

pub record UdpConfig : Type 0 where
  pub remote_addr : Bytes
  pub retry_interval : ℤ
  pub dial_time_out : ℤ
  pub conn_pool_size : ℤ
  pub token : Bytes
  pub sniffer : Bool
  pub web_port : ℤ
  pub sniffer_log : Bytes
  pub aggressive_pool : Bool

-- The goroutine that `Start` of a client runs, or the fatal error.
pub data Worker : Type 0 where
  tcp_client : TcpConfig → Worker
  tcp_mux_client : TcpMuxConfig → Worker
  ws_client : WsConfig → Worker
  ws_mux_client : WsMuxConfig → Worker
  quic_client : QuicConfig → Worker
  udp_client : UdpConfig → Worker
  invalid_transport : TransportType → Worker

abbrev tcp_config : ClientConfig → TcpConfig
tcp_config c = record {
  remote_addr = c.remote_addr;
  nodelay = c.nodelay;
  keep_alive = seconds c.keepalive;
  retry_interval = seconds c.retry_interval;
  dial_time_out = seconds c.dial_timeout;
  conn_pool_size = c.connection_pool;
  token = c.token;
  sniffer = c.sniffer;
  web_port = c.web_port;
  sniffer_log = c.sniffer_log;
  aggressive_pool = c.aggressive_pool;
  tcp_copy_buffer = c.tcp_copy_buffer_bytes;
}

abbrev tcp_mux_config : ClientConfig → TcpMuxConfig
tcp_mux_config c = record {
  remote_addr = c.remote_addr;
  nodelay = c.nodelay;
  keep_alive = seconds c.keepalive;
  retry_interval = seconds c.retry_interval;
  dial_time_out = seconds c.dial_timeout;
  conn_pool_size = c.connection_pool;
  token = c.token;
  mux_version = c.mux_version;
  max_frame_size = c.max_frame_size;
  max_receive_buffer = c.max_receive_buffer;
  max_stream_buffer = c.max_stream_buffer;
  sniffer = c.sniffer;
  web_port = c.web_port;
  sniffer_log = c.sniffer_log;
  aggressive_pool = c.aggressive_pool;
  tunnel_tcp_buffer = c.tunnel_tcp_buffer_bytes;
  tcp_copy_buffer = c.tcp_copy_buffer_bytes;
}

abbrev ws_config : ClientConfig → WsConfig
ws_config c = record {
  remote_addr = c.remote_addr;
  nodelay = c.nodelay;
  keep_alive = seconds c.keepalive;
  retry_interval = seconds c.retry_interval;
  dial_time_out = seconds c.dial_timeout;
  conn_pool_size = c.connection_pool;
  token = c.token;
  sniffer = c.sniffer;
  web_port = c.web_port;
  sniffer_log = c.sniffer_log;
  mode = c.transport;
  aggressive_pool = c.aggressive_pool;
  edge_ip = c.edge_ip;
}

abbrev ws_mux_config : ClientConfig → WsMuxConfig
ws_mux_config c = record {
  remote_addr = c.remote_addr;
  nodelay = c.nodelay;
  keep_alive = seconds c.keepalive;
  retry_interval = seconds c.retry_interval;
  dial_time_out = seconds c.dial_timeout;
  conn_pool_size = c.connection_pool;
  token = c.token;
  mux_version = c.mux_version;
  max_frame_size = c.max_frame_size;
  max_receive_buffer = c.max_receive_buffer;
  max_stream_buffer = c.max_stream_buffer;
  sniffer = c.sniffer;
  web_port = c.web_port;
  sniffer_log = c.sniffer_log;
  mode = c.transport;
  aggressive_pool = c.aggressive_pool;
  edge_ip = c.edge_ip;
  tcp_copy_buffer = c.tcp_copy_buffer_bytes;
}

abbrev quic_config : ClientConfig → QuicConfig
quic_config c = record {
  remote_addr = c.remote_addr;
  nodelay = c.nodelay;
  keep_alive = seconds c.keepalive;
  retry_interval = seconds c.retry_interval;
  dial_time_out = seconds c.dial_timeout;
  connection_pool = c.connection_pool;
  token = c.token;
  sniffer = c.sniffer;
  web_port = c.web_port;
  sniffer_log = c.sniffer_log;
  aggressive_pool = c.aggressive_pool;
}

abbrev udp_config : ClientConfig → UdpConfig
udp_config c = record {
  remote_addr = c.remote_addr;
  retry_interval = seconds c.retry_interval;
  dial_time_out = seconds c.dial_timeout;
  conn_pool_size = c.connection_pool;
  token = c.token;
  sniffer = c.sniffer;
  web_port = c.web_port;
  sniffer_log = c.sniffer_log;
  aggressive_pool = c.aggressive_pool;
}

-- The conditions on `c.config.Transport` of `Start`.
unfoldable pub worker_for : TransportType → ClientConfig → Worker
worker_for tcp c = tcp_client (tcp_config c)
worker_for tcp_mux c = tcp_mux_client (tcp_mux_config c)
worker_for ws c = ws_client (ws_config c)
worker_for wss c = ws_client (ws_config c)
worker_for ws_mux c = ws_mux_client (ws_mux_config c)
worker_for wss_mux c = ws_mux_client (ws_mux_config c)
worker_for quic c = quic_client (quic_config c)
worker_for udp c = udp_client (udp_config c)
worker_for (other name) c = invalid_transport (other name)

-- `Start`
unfoldable pub start : ClientConfig → Worker
unfolding worker_for
start c = worker_for c.transport c
