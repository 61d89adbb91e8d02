-- ===== src/Tests/Configs.antt =====
-- The checks of the configuration at concrete inputs.
use backhaul_plus.Result.{ok}
use backhaul_plus.Start.Routed.{AllReachable, validate_config-AllReachable}
use backhaul_plus.Config.Validate.{validate_config}
use backhaul_plus.Config.Validate.Valid.{IsValid, validate_config-IsValid}
use backhaul_plus.Prelude.{Option, none, ℤ, negsuc, pos}
use backhaul_plus.Ports.{mapping_of_parts}
use backhaul_plus.Ports.Agreement.{opened, expected, mapping_of_parts-opened}
use backhaul_plus.Net.{atoi}
use backhaul_plus.Strings.{split}
use backhaul_plus.Config.Error.{ListenOwner, owner_port}
use backhaul_plus.Config.Listeners.{no_ports, register_addr}
use backhaul_plus.Config.Listeners.Disjoint.{Answers, register_addr-Answers}
use backhaul_plus.Config.Routes.{sni_gateway, http_gateway}
use backhaul_plus.Config.Routes.{normalize_sni_key}
use backhaul_plus.Strings.{has_suffix, to_lower, trim_space, trim_suffix}
use backhaul_plus.Maps.{insert, lookup}
use backhaul_plus.Net.{atoi, split_host_port}
use backhaul_plus.Config.ByteSize.{is_all_digits}
use backhaul_plus.Prelude.{◌≡◌, refl, Bool, List, [], ◌∷◌, pos, true, false, ◌||◌}
use backhaul_plus.Config.{
  Config, ServerConfig, SniGatewayRouteConfig, HttpGatewayRouteConfig, tcp, SniGatewayConfig,
  HttpGatewayConfig, ClientConfig, ws_mux,
}
use backhaul_plus.Config.ByteSize.{parse_byte_size, parse_tcp_copy_buffer}
use backhaul_plus.Config.PortMapping.{port_mapping_listen_addrs}
use backhaul_plus.Config.Routes.{sni_routes, http_routes, check_route}
use backhaul_plus.Maps.{Map}
use backhaul_plus.Strings.{Bytes, codes, equal}

abbrev sample_server : ServerConfig
sample_server = record {
  name = codes "TR1";
  bind_addr = codes ":3080";
  transport = tcp;
  token = [];
  allow_multi_ip = false;
  nodelay = false;
  keepalive = pos 0;
  channel_size = pos 0;
  log_level = codes "loud";
  ports = codes "443" ∷ [];
  pprof = false;
  mux_session = pos 0;
  mux_version = pos 7;
  max_frame_size = pos 0;
  max_receive_buffer = pos 0;
  max_stream_buffer = pos 0;
  sniffer = false;
  web_port = pos 0;
  sniffer_log = [];
  tls_cert_file = [];
  tls_key_file = [];
  heartbeat = pos 0;
  mux_con = pos 0;
  accept_udp = false;
  tcp_copy_buffer = codes " ";
  tcp_copy_buffer_bytes = pos 0;
}

abbrev sample_servers : Map ServerConfig
sample_servers = (codes "TR1", sample_server) ∷ []

abbrev sample_config : Config
sample_config = record {
  runtime = record {
    memory_release_interval = [];
    auto_restart_interval = [];
    memory_release_interval_duration = pos 0;
    auto_restart_interval_duration = pos 0;
  };
  servers = sample_server ∷ [];
  clients = [];
  sni_gateways = [];
  http_gateways = [];
}

abbrev known_level : Bytes → Bool
known_level v = equal v (codes "info") || equal v (codes "debug")

abbrev sample_routes : List SniGatewayRouteConfig
sample_routes = record { sni = codes " A.b. "; server = codes "TR1 "; target = codes "443" } ∷ []

abbrev sample_http_routes : List HttpGatewayRouteConfig
sample_http_routes =
    record { host = codes "A.b:80"; server = codes "TR1 "; target = codes "443" } ∷ []

abbrev sample_owner : ListenOwner
sample_owner = record { kind = owner_port; name = codes "TR1" }

abbrev first_owner : (Bytes × ListenOwner) → Map ListenOwner → ListenOwner
first_owner entry rest = entry.1

register_addr-Answers_example :
    Answers
      (codes "1.1.1.1")
      80
      sample_owner
      no_ports
      (register_addr first_owner (codes "1.1.1.1") 80 sample_owner no_ports)
register_addr-Answers_example =
    register_addr-Answers (codes "1.1.1.1") 80 sample_owner no_ports first_owner

abbrev sample_sni_gateway : SniGatewayConfig
sample_sni_gateway = record {
  name = codes "g";
  listen_addr = codes ":8443";
  inspect_timeout = pos 1;
  default_action = codes "reject";
  routes = sample_routes;
  route_map = [];
}

abbrev sample_http_gateway : HttpGatewayConfig
sample_http_gateway = record {
  name = codes "h";
  listen_addr = codes ":80";
  inspect_timeout = pos 1;
  max_header_bytes = pos 256;
  default_action = codes "reject";
  routes = sample_http_routes;
  route_map = [];
}

abbrev checked_sni_gateway : SniGatewayConfig
checked_sni_gateway = record sample_sni_gateway {
  route_map =
      (codes "a.b", record { sni = codes "a.b"; server = codes "TR1"; target = codes "443" }) ∷ [];
}

abbrev checked_http_gateway : HttpGatewayConfig
checked_http_gateway = record sample_http_gateway {
  route_map =
      (codes "a.b", record { host = codes "a.b"; server = codes "TR1"; target = codes "443" }) ∷ [];
}

mapping_of_parts-opened_example :
    opened (mapping_of_parts (split (codes "443-445") b'='))
    ≡ expected (port_mapping_listen_addrs (codes "443-445"))
unfolding backhaul_plus.Strings.contains backhaul_plus.Strings.trim_space
mapping_of_parts-opened_example = mapping_of_parts-opened (codes "443-445") refl refl

abbrev whole_config : Config
whole_config = record sample_config {
  servers = record sample_server { tcp_copy_buffer = codes "4kb" } ∷ [];
  sni_gateways = sample_sni_gateway ∷ [];
}

abbrev whole_checked : Config
whole_checked = record whole_config {
  servers =
      record sample_server { tcp_copy_buffer = codes "4kb"; tcp_copy_buffer_bytes = pos 4096 } ∷ [];
  sni_gateways = checked_sni_gateway ∷ [];
}

abbrev no_duration : Bytes → Option ℤ
no_duration value = none

whole_config_ok : validate_config no_duration first_owner whole_config ≡ ok whole_checked
unfolding validate_config backhaul_plus.Config.Durations.validate_runtime_config
    backhaul_plus.Config.Durations.parse_optional_duration equal trim_space
    backhaul_plus.Config.Validate.servers_by_name lookup
    backhaul_plus.Config.Routes.validate_sni_gateways sni_gateway sni_routes check_route
    normalize_sni_key trim_suffix to_lower insert backhaul_plus.Config.Routes.validate_http_gateways
    backhaul_plus.Config.Listeners.validate_listeners
    backhaul_plus.Config.Listeners.server_listeners is_all_digits parse_tcp_copy_buffer
    backhaul_plus.Config.ByteSize.parse_tunnel_tcp_buffer
    backhaul_plus.Config.Listeners.gateway_listener backhaul_plus.Config.Listeners.http_listeners
    backhaul_plus.Config.Listeners.mapping_listeners backhaul_plus.Config.Listeners.port_listeners
    register_addr backhaul_plus.Config.Listeners.sni_listeners
    backhaul_plus.Config.PortMapping.as_port backhaul_plus.Config.PortMapping.is_wildcard_host
    backhaul_plus.Config.PortMapping.parse_host_port port_mapping_listen_addrs
    backhaul_plus.Config.PortMapping.single_addrs backhaul_plus.Config.Routes.known_server
    backhaul_plus.Config.Validate.check_inbound backhaul_plus.Config.Validate.parse_client_buffers
    backhaul_plus.Config.Validate.parse_server_buffers
    backhaul_plus.Config.Validate.parse_tunnel_buffers atoi parse_byte_size split_host_port
    backhaul_plus.Strings.contains has_suffix backhaul_plus.Strings.index_byte
whole_config_ok = refl

validate_config-IsValid_example : IsValid whole_checked
validate_config-IsValid_example =
    validate_config-IsValid no_duration first_owner whole_config whole_config_ok

validate_config-AllReachable_example : AllReachable whole_checked
validate_config-AllReachable_example =
    validate_config-AllReachable no_duration first_owner whole_config (refl, tt) whole_config_ok

abbrev sample_client : ClientConfig
sample_client = record {
  name = codes "C1";
  remote_addr = codes "10.0.0.1:3080";
  transport = ws_mux;
  token = [];
  connection_pool = pos 0;
  retry_interval = negsuc 0;
  nodelay = true;
  keepalive = pos 0;
  log_level = [];
  pprof = false;
  mux_session = pos 0;
  mux_version = pos 0;
  max_frame_size = pos 0;
  max_receive_buffer = pos 0;
  max_stream_buffer = pos 0;
  sniffer = false;
  web_port = pos 0;
  sniffer_log = [];
  dial_timeout = pos 0;
  aggressive_pool = false;
  edge_ip = [];
  tunnel_tcp_buffer = [];
  tunnel_tcp_buffer_bytes = pos 0;
  tcp_copy_buffer = [];
  tcp_copy_buffer_bytes = pos 0;
}

abbrev unaddressed_client : ClientConfig
unaddressed_client = record sample_client { remote_addr = [] }

-- A client with an address behind one without.
abbrev client_side : Config
client_side = record sample_config {
  servers = [];
  clients = unaddressed_client ∷ sample_client ∷ [];
}
