-- ===== src/Config/Error.antt =====
-- The errors of cmd/validate.go, one constructor for each message, with what it names.
use backhaul_plus.Strings.{Bytes}

pub data SizeError : Type 0 where
  size_empty size_format size_not_int size_not_positive size_too_large : SizeError
  auto_not_supported size_too_small size_too_big : SizeError

pub data DurationError : Type 0 where
  invalid_duration not_above_zero below_minimum : DurationError

pub data RouteError : Type 0 where
  missing_host missing_server missing_target duplicate_host : RouteError
  unknown_server udp_server : RouteError
  empty_listen_addr unsupported_action header_bytes_out_of_range : RouteError

pub data MappingError : Type 0 where
  bad_mapping bad_range bad_start bad_end bad_port bad_address : MappingError

pub data OwnerKind : Type 0 where
  owner_bind owner_port owner_sni_gateway owner_http_gateway : OwnerKind

pub record ListenOwner : Type 0 where
  pub kind : OwnerKind
  pub name : Bytes

pub data ConfigError : Type 0 where
  runtime_error : DurationError → ConfigError
  empty_server_name : ConfigError
  duplicate_server_name : Bytes → ConfigError
  route_error : Bytes → RouteError → ConfigError
  mapping_error : Bytes → MappingError → ConfigError
  duplicate_bind_addr duplicate_port_listener : Bytes → Bytes → ConfigError
  invalid_listen_addr : Bytes → ConfigError
  duplicate_gateway_addr : Bytes → Bytes → ConfigError
  conflict_sni_gateway conflict_http_gateway conflict_bind conflict_ports :
      Bytes → Bytes → ConfigError
  no_inbound : Bytes → ConfigError
  size_error : Bytes → SizeError → ConfigError
