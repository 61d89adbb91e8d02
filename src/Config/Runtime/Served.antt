-- ===== src/Config/Runtime/Served.antt =====
-- cmd/validate.go and cmd/cmd.go: the table that the connections of a gateway are routed by.
use backhaul_plus.Prelude.{◌≡◌, refl, sym, ap, ◌∙◌, Bool, List, [], ◌∷◌, some, All, not}
use mathlib.Core.Path.{subst}
use backhaul_plus.Config.{
  ServerConfig, SniGatewayConfig, SniGatewayRouteConfig, HttpGatewayConfig, HttpGatewayRouteConfig,
}
use backhaul_plus.Config.Error.{
  RouteError, empty_listen_addr, unsupported_action, header_bytes_out_of_range,
}
use backhaul_plus.Config.Routes.{
  sni_gateway, sni_routes, http_gateway, http_routes, normalize_sni_key, bad_header_limit,
}
use backhaul_plus.Config.Routes.Sound.{
  IsSniServed, IsHttpServed, sni_routes_served, http_routes_served,
}
use backhaul_plus.Config.Runtime.{
  gateway_runtime_config, http_gateway_runtime_config, running_sni, running_http,
  lookup-sni_route_table, lookup-http_route_table,
}
use backhaul_plus.Http.Host.{normalize_http_host}
use backhaul_plus.Maps.{Map, lookup}
use backhaul_plus.Result.{ok, refuse-ok, >>=-eq-ok, ok-injective}
use backhaul_plus.Sni.Parse.{normalize_sni_host}
use backhaul_plus.Strings.{Bytes, codes, equal, trim_space}

pub All-map {ℓ κ μ} :
    {A : Type ℓ} {P : A → Type κ} {Q : A → Type μ}
    → ((a : A) → P a → Q a)
    → (xs : List A) → All P xs
    → All Q xs
All-map f [] h = tt
All-map f (x ∷ xs) h = (f x h.0, All-map f xs h.1)

-- `normalizeSNIHost` of the check is `NormalizeSNIHost` of the gateway.
pub normalize_sni_key_lem : (s : Bytes) → normalize_sni_key s ≡ normalize_sni_host s
unfolding normalize_sni_key normalize_sni_host
normalize_sni_key_lem s = refl

-- The route stands in the table of the running gateway, under the host as connections name it.
abbrev pub IsSniRouted : SniGatewayConfig → SniGatewayRouteConfig → Type 0
IsSniRouted g r =
    lookup (normalize_sni_host r.sni) (gateway_runtime_config g).routes
    ≡ some (record { server = trim_space r.server; target = trim_space r.target })

sni_table :
    (g' : SniGatewayConfig) (by_name : Map ServerConfig) (referenced : Map Bool)
    (r : SniGatewayRouteConfig)
    → IsSniServed by_name g'.route_map referenced r
    → IsSniRouted g' r
unfolding gateway_runtime_config
sni_table g' by_name referenced r h =
    ap (λ t. lookup t (gateway_runtime_config g').routes) (sym (normalize_sni_key_lem r.sni))
    ∙ lookup-sni_route_table (normalize_sni_key r.sni) g'.route_map
    ∙ ap running_sni h.entry

-- Of a gateway that passes the check, the running gateway routes the host of every route, as a
-- connection's inspection gives it, to the server and target of the route.
pub sni_gateway-IsSniRouted :
    (by_name : Map ServerConfig) (g : SniGatewayConfig) (referenced : Map Bool)
    {g' : SniGatewayConfig} {referenced' : Map Bool}
    → sni_gateway by_name g referenced ≡ ok (g', referenced')
    → All (IsSniRouted g') g.routes
unfolding sni_gateway
sni_gateway-IsSniRouted by_name g referenced {g'} {referenced'} e =
    let (_, e₁) = refuse-ok (equal (trim_space g.listen_addr) []) empty_listen_addr _ e in
    let (_, e₂) =
      refuse-ok (not (equal g.default_action (codes "reject"))) unsupported_action _ e₁ in
    let (p, found, done) = >>=-eq-ok (sni_routes by_name g.routes [] referenced) _ e₂ in
    let table = ap (λ q. q.0.route_map) (ok-injective {E = RouteError} done) in
    All-map (λ r h. sni_table g' by_name p.1 r (subst (λ m. IsSniServed by_name m p.1 r) table h))
      g.routes (sni_routes_served by_name g.routes referenced found)

-- The route stands in the table of the running gateway, under the host as connections name it.
abbrev pub IsHttpRouted : HttpGatewayConfig → HttpGatewayRouteConfig → Type 0
IsHttpRouted g r =
    lookup (normalize_http_host r.host) (http_gateway_runtime_config g).routes
    ≡ some (record { server = trim_space r.server; target = trim_space r.target })

http_table :
    (g' : HttpGatewayConfig) (by_name : Map ServerConfig) (referenced : Map Bool)
    (r : HttpGatewayRouteConfig)
    → IsHttpServed by_name g'.route_map referenced r
    → IsHttpRouted g' r
unfolding http_gateway_runtime_config
http_table g' by_name referenced r h =
    lookup-http_route_table (normalize_http_host r.host) g'.route_map ∙ ap running_http h.entry

-- Of a gateway that passes the check, the running gateway routes the host of every route, as a
-- connection's inspection gives it, to the server and target of the route.
pub http_gateway-IsHttpRouted :
    (by_name : Map ServerConfig) (g : HttpGatewayConfig) (referenced : Map Bool)
    {g' : HttpGatewayConfig} {referenced' : Map Bool}
    → http_gateway by_name g referenced ≡ ok (g', referenced')
    → All (IsHttpRouted g') g.routes
unfolding http_gateway
http_gateway-IsHttpRouted by_name g referenced {g'} {referenced'} e =
    let (_, e₁) = refuse-ok (equal (trim_space g.listen_addr) []) empty_listen_addr _ e in
    let (_, e₂) =
      refuse-ok (not (equal g.default_action (codes "reject"))) unsupported_action _ e₁ in
    let (_, e₃) = refuse-ok (bad_header_limit g.max_header_bytes) header_bytes_out_of_range _ e₂ in
    let (p, found, done) = >>=-eq-ok (http_routes by_name g.routes [] referenced) _ e₃ in
    let table = ap (λ q. q.0.route_map) (ok-injective {E = RouteError} done) in
    All-map (λ r h. http_table g' by_name p.1 r (subst (λ m. IsHttpServed by_name m p.1 r) table h))
      g.routes (http_routes_served by_name g.routes referenced found)
