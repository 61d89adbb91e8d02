-- ===== src/Config/Routes.antt =====
-- cmd/validate.go: the gateways and their route tables, `validateGateways` and
-- `validateHTTPGateways`.
pub mod Sound
use backhaul_plus.Prelude.{
  Bool, true, false, ◌||◌, List, [], ◌∷◌, Option, none, some, ℤ, pos, ltb_ℤ, not,
}
use backhaul_plus.Config.{
  ServerConfig, TransportType, udp, SniGatewayRouteConfig, SniGatewayRoute, SniGatewayConfig,
  HttpGatewayRouteConfig, HttpGatewayRoute, HttpGatewayConfig,
}
use backhaul_plus.Config.Error.{
  RouteError, missing_host, missing_server, missing_target, duplicate_host, unknown_server,
  udp_server, empty_listen_addr, unsupported_action, header_bytes_out_of_range, ConfigError,
  route_error,
}
use backhaul_plus.Http.Host.{normalize_http_host}
use backhaul_plus.Maps.{Map, lookup, insert}
use backhaul_plus.Result.{Result, ok, err, panic, stuck, ◌>>=◌, ◌>>◌, refuse}
use backhaul_plus.Strings.{Bytes, codes, equal, to_lower, trim_space, trim_suffix}

-- `normalizeSNIHost` of validate.go
unfoldable pub normalize_sni_key : Bytes → Bytes
normalize_sni_key s = trim_suffix (to_lower (trim_space s)) (codes ".")

abbrev pub is_some {ℓ} : {A : Type ℓ} → Option A → Bool
is_some none = false
is_some (some a) = true

abbrev pub is_udp : TransportType → Bool
is_udp udp = true
is_udp _ = false

-- The server a route names: it exists and is no UDP one.
unfoldable pub known_server : Option ServerConfig → Result RouteError (Unit {0})
known_server none = err unknown_server
known_server (some s) = refuse (is_udp s.transport) udp_server

-- The checks of one route, behind its normalized host: the server and the target, trimmed.
unfoldable pub check_route {ℓ} :
    {V : Type ℓ}
    → Map ServerConfig
    → Map V
    → Bytes
    → Bytes
    → Bytes
    → Result RouteError (Bytes × Bytes)
unfolding known_server
check_route by_name route_map host server target =
    let srv = trim_space server in
    let to = trim_space target in
    refuse (equal host []) missing_host
    >> (refuse (equal srv []) missing_server
        >> (refuse (equal to []) missing_target
            >> (refuse (is_some (lookup host route_map)) duplicate_host
                >> (known_server (lookup srv by_name) >> ok (srv, to)))))

-- An error of the gateway named `name`.
abbrev pub named {ℓ} : {A : Type ℓ} → Bytes → Result RouteError A → Result ConfigError A
named name (ok a) = ok a
named name (err e) = err (route_error name e)
named name panic = panic
named name stuck = stuck

abbrev pub min_http_max_header_bytes : ℤ
min_http_max_header_bytes = pos 128

abbrev pub max_http_max_header_bytes : ℤ
max_http_max_header_bytes = pos 1048576

abbrev pub bad_header_limit : ℤ → Bool
bad_header_limit n = ltb_ℤ n min_http_max_header_bytes || ltb_ℤ max_http_max_header_bytes n

module _ (by_name : Map ServerConfig) where
  -- The route loop of `validateGateways`: the table so far, and the servers that routes name.
  unfoldable pub sni_routes :
      List SniGatewayRouteConfig
      → Map SniGatewayRoute
      → Map Bool
      → Result RouteError (Map SniGatewayRoute × Map Bool)
  sni_routes [] route_map referenced = ok (route_map, referenced)
  sni_routes (r ∷ rs) route_map referenced =
      let sni = normalize_sni_key r.sni in
      check_route by_name route_map sni r.server r.target >>= λ p.
      sni_routes rs (insert sni (record { sni = sni; server = p.0; target = p.1 }) route_map)
        (insert p.0 true referenced)

  unfoldable pub sni_gateway :
      SniGatewayConfig → Map Bool → Result RouteError (SniGatewayConfig × Map Bool)
  sni_gateway g referenced =
      refuse (equal (trim_space g.listen_addr) []) empty_listen_addr
      >> (refuse (not (equal g.default_action (codes "reject"))) unsupported_action
          >> (sni_routes g.routes [] referenced >>= λ p. ok (record g { route_map = p.0 }, p.1)))

  -- `validateGateways`
  unfoldable pub validate_sni_gateways :
      List SniGatewayConfig → Map Bool → Result ConfigError (List SniGatewayConfig × Map Bool)
  validate_sni_gateways [] referenced = ok ([], referenced)
  validate_sni_gateways (g ∷ gs) referenced = named g.name (sni_gateway g referenced) >>= λ p.
      validate_sni_gateways gs p.1 >>= λ q. ok (p.0 ∷ q.0, q.1)

  -- The route loop of `validateHTTPGateways`: the table so far, and the servers that routes name.
  unfoldable pub http_routes :
      List HttpGatewayRouteConfig
      → Map HttpGatewayRoute
      → Map Bool
      → Result RouteError (Map HttpGatewayRoute × Map Bool)
  http_routes [] route_map referenced = ok (route_map, referenced)
  http_routes (r ∷ rs) route_map referenced =
      let host = normalize_http_host r.host in
      check_route by_name route_map host r.server r.target >>= λ p.
      http_routes rs (insert host (record { host = host; server = p.0; target = p.1 }) route_map)
        (insert p.0 true referenced)

  unfoldable pub http_gateway :
      HttpGatewayConfig → Map Bool → Result RouteError (HttpGatewayConfig × Map Bool)
  http_gateway g referenced =
      refuse (equal (trim_space g.listen_addr) []) empty_listen_addr
      >> (refuse (not (equal g.default_action (codes "reject"))) unsupported_action
          >> (refuse (bad_header_limit g.max_header_bytes) header_bytes_out_of_range
              >> (http_routes g.routes [] referenced >>= λ p.
                  ok (record g { route_map = p.0 }, p.1))))

  -- `validateHTTPGateways`
  unfoldable pub validate_http_gateways :
      List HttpGatewayConfig → Map Bool → Result ConfigError (List HttpGatewayConfig × Map Bool)
  validate_http_gateways [] referenced = ok ([], referenced)
  validate_http_gateways (g ∷ gs) referenced = named g.name (http_gateway g referenced) >>= λ p.
      validate_http_gateways gs p.1 >>= λ q. ok (p.0 ∷ q.0, q.1)
