-- ===== src/Config/Runtime.antt =====
-- cmd/cmd.go: a checked gateway as the gateway that runs.
pub mod Served
use backhaul_plus.Prelude.{
  arith, Bool, true, false, Option, none, some, if◌then◌else◌, ◌≡◌, refl, wrap_int64,
}
use backhaul_plus.Maps.{lookup}
use backhaul_plus.Strings.{Bytes, equal}
use backhaul_plus.Prelude.{◌*◌, ◌+◌, ◌-◌, [], ◌∷◌, ℤ, pos, negsuc}
use backhaul_plus.Config.{SniGatewayConfig, SniGatewayRoute, HttpGatewayConfig, HttpGatewayRoute}
use backhaul_plus.Gateway
use backhaul_plus.Gateway.{GatewayRoute, GatewayConfig}
use backhaul_plus.Maps.{Map}

-- `time.Duration(n) * time.Second`, in nanoseconds: an int64, which wraps around.
abbrev pub seconds : ℤ → ℤ
seconds (pos n) = wrap_int64 (pos (n * 1_000_000_000))
seconds (negsuc n) = wrap_int64 (negsuc ((n + 1) * 1_000_000_000 - 1))

unfoldable pub sni_route_table : Map SniGatewayRoute → Map GatewayRoute
sni_route_table [] = []
sni_route_table ((sni, r) ∷ m) =
    (sni, record { server = r.server; target = r.target }) ∷ sni_route_table m

unfoldable pub http_route_table : Map HttpGatewayRoute → Map GatewayRoute
http_route_table [] = []
http_route_table ((host, r) ∷ m) =
    (host, record { server = r.server; target = r.target }) ∷ http_route_table m

-- `gatewayRuntimeConfig`
unfoldable pub gateway_runtime_config : SniGatewayConfig → GatewayConfig
gateway_runtime_config g = record {
  name = g.name;
  listen_addr = g.listen_addr;
  inspect_timeout = seconds g.inspect_timeout;
  default_action = g.default_action;
  routes = sni_route_table g.route_map;
}

-- `httpGatewayRuntimeConfig`
unfoldable pub http_gateway_runtime_config : HttpGatewayConfig → Gateway.HttpGatewayConfig
http_gateway_runtime_config g = record {
  name = g.name;
  listen_addr = g.listen_addr;
  inspect_timeout = seconds g.inspect_timeout;
  max_header_bytes = g.max_header_bytes;
  default_action = g.default_action;
  routes = http_route_table g.route_map;
}

-- A route as the transport package has it.
abbrev pub running_sni : Option SniGatewayRoute → Option GatewayRoute
running_sni none = none
running_sni (some r) = some (record { server = r.server; target = r.target })

abbrev pub running_http : Option HttpGatewayRoute → Option GatewayRoute
running_http none = none
running_http (some r) = some (record { server = r.server; target = r.target })

-- The gateway that runs finds for each host the server and the target of the checked route.
pub lookup-sni_route_table :
    (host : Bytes) (m : Map SniGatewayRoute)
    → lookup host (sni_route_table m) ≡ running_sni (lookup host m)
unfolding lookup sni_route_table
lookup-sni_route_table host [] = refl
lookup-sni_route_table host ((sni, r) ∷ m) = ground (arith, lookup-sni_route_table host m)

pub lookup-http_route_table :
    (host : Bytes) (m : Map HttpGatewayRoute)
    → lookup host (http_route_table m) ≡ running_http (lookup host m)
unfolding lookup http_route_table
lookup-http_route_table host [] = refl
lookup-http_route_table host ((sni, r) ∷ m) = ground (arith, lookup-http_route_table host m)
