-- ===== src/Config/Defaults.antt =====
-- cmd/defaults.go: the values of the options that the file leaves out.
pub mod Idempotent
use backhaul_plus.Prelude.{Bool, ◌||◌, [], map, ℤ, pos, leb_ℤ, ltb_ℤ, if◌then◌else◌}
use backhaul_plus.Config.{Config, ServerConfig, SniGatewayConfig, HttpGatewayConfig, ClientConfig}
use backhaul_plus.Strings.{Bytes, codes, equal, trim_space}

abbrev pub if_empty : Bytes → Bytes → Bytes
if_empty default v = if equal v [] then default else v

abbrev pub if_blank : Bytes → Bytes → Bytes
if_blank default v = if equal (trim_space v) [] then default else v

-- `v <= 0`
abbrev pub if_not_positive : ℤ → ℤ → ℤ
if_not_positive default v = if leb_ℤ v (pos 0) then default else v

-- `v < 1`
abbrev pub if_below_one : ℤ → ℤ → ℤ
if_below_one default v = if ltb_ℤ v (pos 1) then default else v

-- `v <= 0 || v > 2`
abbrev pub mux_version_or_default : ℤ → ℤ
mux_version_or_default v = if leb_ℤ v (pos 0) || ltb_ℤ (pos 2) v then pos 1 else v

-- `known_level` is whether `logrus.ParseLevel` takes a level.
module _ (known_level : Bytes → Bool) where
  abbrev pub level_or_default : Bytes → Bytes
  level_or_default v = if known_level v then v else codes "info"

  unfoldable pub server_defaults : ServerConfig → ServerConfig
  server_defaults s = record s {
    token = if_empty (codes "musix") s.token;
    channel_size = if_not_positive (pos 2048) s.channel_size;
    log_level = level_or_default s.log_level;
    mux_session = if_not_positive (pos 1) s.mux_session;
    keepalive = if_not_positive (pos 75) s.keepalive;
    mux_version = mux_version_or_default s.mux_version;
    max_frame_size = if_not_positive (pos 32768) s.max_frame_size;
    max_receive_buffer = if_not_positive (pos 4194304) s.max_receive_buffer;
    max_stream_buffer = if_not_positive (pos 65536) s.max_stream_buffer;
    sniffer_log = if_empty (codes "backhaul.json") s.sniffer_log;
    heartbeat = if_below_one (pos 40) s.heartbeat;
    mux_con = if_below_one (pos 8) s.mux_con;
    tcp_copy_buffer = if_blank (codes "16kb") s.tcp_copy_buffer;
  }

  unfoldable pub sni_gateway_defaults : SniGatewayConfig → SniGatewayConfig
  sni_gateway_defaults g = record g {
    inspect_timeout = if_not_positive (pos 1) g.inspect_timeout;
    default_action = if_empty (codes "reject") g.default_action;
  }

  unfoldable pub http_gateway_defaults : HttpGatewayConfig → HttpGatewayConfig
  http_gateway_defaults g = record g {
    inspect_timeout = if_not_positive (pos 1) g.inspect_timeout;
    max_header_bytes = if_not_positive (pos 32768) g.max_header_bytes;
    default_action = if_empty (codes "reject") g.default_action;
  }

  unfoldable pub client_defaults : ClientConfig → ClientConfig
  client_defaults c = record c {
    token = if_empty (codes "musix") c.token;
    log_level = level_or_default c.log_level;
    retry_interval = if_not_positive (pos 3) c.retry_interval;
    connection_pool = if_not_positive (pos 8) c.connection_pool;
    mux_session = if_not_positive (pos 1) c.mux_session;
    keepalive = if_not_positive (pos 75) c.keepalive;
    mux_version = mux_version_or_default c.mux_version;
    max_frame_size = if_not_positive (pos 32768) c.max_frame_size;
    max_receive_buffer = if_not_positive (pos 4194304) c.max_receive_buffer;
    max_stream_buffer = if_not_positive (pos 65536) c.max_stream_buffer;
    sniffer_log = if_empty (codes "backhaul.json") c.sniffer_log;
    dial_timeout = if_below_one (pos 10) c.dial_timeout;
    tunnel_tcp_buffer = if_blank (codes "2mb") c.tunnel_tcp_buffer;
    tcp_copy_buffer = if_blank (codes "16kb") c.tcp_copy_buffer;
  }

  -- `applyDefaults`
  unfoldable pub apply_defaults : Config → Config
  apply_defaults cfg = record cfg {
    servers = map server_defaults cfg.servers;
    sni_gateways = map sni_gateway_defaults cfg.sni_gateways;
    http_gateways = map http_gateway_defaults cfg.http_gateways;
    clients = map client_defaults cfg.clients;
  }
