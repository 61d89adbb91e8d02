-- ===== src/Config/Validate.antt =====
-- cmd/validate.go: `validateConfig`, the whole check.
pub mod Valid
use backhaul_plus.Prelude.{Bool, true, false, ◌&&◌, not, List, [], ◌∷◌, Option, none, some, ℤ, pos}
use backhaul_plus.Config.{Config, ServerConfig, ClientConfig}
use backhaul_plus.Config.ByteSize.{parse_tcp_copy_buffer, parse_tunnel_tcp_buffer}
use backhaul_plus.Config.Durations.{validate_runtime_config}
use backhaul_plus.Config.Error.{
  ConfigError, runtime_error, empty_server_name, duplicate_server_name, no_inbound, size_error,
  ListenOwner,
}
use backhaul_plus.Config.Listeners.{validate_listeners}
use backhaul_plus.Config.Routes.{is_some, validate_sni_gateways, validate_http_gateways}
use backhaul_plus.Maps.{Map, lookup, insert}
use backhaul_plus.Result.{Result, ok, err, panic, stuck, ◌>>=◌, ◌>>◌, refuse}
use backhaul_plus.Strings.{Bytes, equal, trim_space}

abbrev pub map_err {ℓ κ μ} :
    {E : Type ℓ} {F : Type κ} {A : Type μ} → (E → F) → Result E A → Result F A
map_err f (ok a) = ok a
map_err f (err e) = err (f e)
map_err f panic = panic
map_err f stuck = stuck

-- The servers by name; a name is not blank and stands once.
unfoldable pub servers_by_name :
    List ServerConfig → Map ServerConfig → Result ConfigError (Map ServerConfig)
servers_by_name [] m = ok m
servers_by_name (s ∷ ss) m =
    refuse (equal (trim_space s.name) []) empty_server_name
    >> (refuse (is_some (lookup s.name m)) (duplicate_server_name s.name)
        >> servers_by_name ss (insert s.name s m))

abbrev pub is_referenced : Option Bool → Bool
is_referenced none = false
is_referenced (some b) = b

abbrev pub is_empty {ℓ} : {A : Type ℓ} → List A → Bool
is_empty [] = true
is_empty (a ∷ rest) = false

-- Every server has ports of its own or a route that names it.
unfoldable pub check_inbound : List ServerConfig → Map Bool → Result ConfigError (Unit {0})
check_inbound [] referenced = ok tt
check_inbound (s ∷ ss) referenced =
    refuse (is_empty s.ports && not (is_referenced (lookup s.name referenced))) (no_inbound s.name)
    >> check_inbound ss referenced

unfoldable pub parse_tunnel_buffers : List ClientConfig → Result ConfigError (List ClientConfig)
parse_tunnel_buffers [] = ok []
parse_tunnel_buffers (c ∷ cs) =
    map_err (size_error c.name) (parse_tunnel_tcp_buffer c.tunnel_tcp_buffer) >>= λ n.
    parse_tunnel_buffers cs >>= λ rest. ok (record c { tunnel_tcp_buffer_bytes = pos n } ∷ rest)

unfoldable pub parse_server_buffers : List ServerConfig → Result ConfigError (List ServerConfig)
parse_server_buffers [] = ok []
parse_server_buffers (s ∷ ss) =
    map_err (size_error s.name) (parse_tcp_copy_buffer s.tcp_copy_buffer) >>= λ n.
    parse_server_buffers ss >>= λ rest. ok (record s { tcp_copy_buffer_bytes = pos n } ∷ rest)

unfoldable pub parse_client_buffers : List ClientConfig → Result ConfigError (List ClientConfig)
parse_client_buffers [] = ok []
parse_client_buffers (c ∷ cs) =
    map_err (size_error c.name) (parse_tcp_copy_buffer c.tcp_copy_buffer) >>= λ n.
    parse_client_buffers cs >>= λ rest. ok (record c { tcp_copy_buffer_bytes = pos n } ∷ rest)

module _ (parse : Bytes → Option ℤ)
    (pick : (Bytes × ListenOwner) → Map ListenOwner → ListenOwner) where
  -- `validateConfig`: the checked configuration.
  unfoldable pub validate_config : Config → Result ConfigError Config
  validate_config cfg = do
    runtime ← map_err runtime_error (validate_runtime_config parse cfg.runtime)
    by_name ← servers_by_name cfg.servers []
    sni ← validate_sni_gateways by_name cfg.sni_gateways []
    http ← validate_http_gateways by_name cfg.http_gateways sni.1
    table ← validate_listeners pick cfg.servers sni.0 http.0
    inbound ← check_inbound cfg.servers http.1
    tunnels ← parse_tunnel_buffers cfg.clients
    servers ← parse_server_buffers cfg.servers
    clients ← parse_client_buffers tunnels
    ok (record cfg {
      runtime = runtime;
      servers = servers;
      clients = clients;
      sni_gateways = sni.0;
      http_gateways = http.0;
    })
