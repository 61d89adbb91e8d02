-- ===== src/Start/Routed.antt =====
-- cmd/cmd.go on a configuration that passes the check: the servers behind the gateways.
use mathlib.Core.Path.{subst}
use backhaul_plus.Prelude.{
  ◌≡◌, refl, sym, ap, ◌∙◌, Bool, true, false, not, List, [], ◌∷◌, Option, some, ℤ, All, Bool-cases,
  inl, inr, if◌then◌else◌,
}
use backhaul_plus.Config.{
  Config, ServerConfig, SniGatewayConfig, HttpGatewayConfig, SniGatewayRouteConfig,
  HttpGatewayRouteConfig, TransportType, tcp, tcp_mux, ws, wss, ws_mux, wss_mux, udp, quic, other,
}
use backhaul_plus.Config.Durations.{validate_runtime_config}
use backhaul_plus.Config.Error.{
  ConfigError, ListenOwner, runtime_error, empty_server_name, duplicate_server_name,
  empty_listen_addr, unsupported_action, header_bytes_out_of_range,
}
use backhaul_plus.Config.Listeners.{validate_listeners}
use backhaul_plus.Config.Routes.{
  is_some, is_udp, named, bad_header_limit, sni_gateway, sni_routes, validate_sni_gateways,
  http_gateway, http_routes, validate_http_gateways,
}
use backhaul_plus.Config.Routes.Sound.{sni_routes_served, http_routes_served}
use backhaul_plus.Config.Runtime.Served.{All-map}
use backhaul_plus.Config.Validate.{
  map_err, servers_by_name, check_inbound, parse_tunnel_buffers, parse_server_buffers,
  parse_client_buffers, validate_config,
}
use backhaul_plus.Config.Validate.Valid.{named-ok, sni_gateway-routes, http_gateway-routes}
use backhaul_plus.Maps.{Map, lookup, insert, lookup-insert}
use backhaul_plus.Result.{ok, ok-injective, >>=-eq-ok, refuse-ok}
use backhaul_plus.Start.{InboundTarget, register_servers}
use backhaul_plus.Start.Registered.{is_inbound, IsRegistered, servers-IsRegistered}
use backhaul_plus.Strings.{Bytes, codes, equal, trim_space}

-- The transport is one of those that config.go names.
abbrev pub is_known : TransportType → Bool
is_known (other name) = false
is_known tcp = true
is_known tcp_mux = true
is_known ws = true
is_known wss = true
is_known ws_mux = true
is_known wss_mux = true
is_known quic = true
is_known udp = true

abbrev pub IsKnownTransport : ServerConfig → Type 0
IsKnownTransport c = is_known c.transport ≡ true

known_inbound : (t : TransportType) → is_known t ≡ true → is_udp t ≡ false → is_inbound t ≡ true
known_inbound tcp k u = refl
known_inbound tcp_mux k u = refl
known_inbound ws k u = refl
known_inbound wss k u = refl
known_inbound ws_mux k u = refl
known_inbound wss_mux k u = refl
known_inbound quic k u = refl
known_inbound udp k u = cc
known_inbound (other name) k u = cc

-- The table has only servers of the list.
abbrev AllKnown : Map ServerConfig → Type 0
AllKnown m = (name : Bytes) (c : ServerConfig) → lookup name m ≡ some c → IsKnownTransport c

insert-AllKnown :
    (s : ServerConfig) (m : Map ServerConfig)
    → IsKnownTransport s
    → AllKnown m
    → AllKnown (insert s.name s m)
insert-AllKnown s m k all name c found = elim (Bool-cases (equal s.name name)) [
  | inl here ↦
      let same : s ≡ c = injective (sym (at_name true here) ∙ found) in
      ap (λ (x : ServerConfig). is_known x.transport) (sym same) ∙ k
  | inr elsewhere ↦ all name c (sym (at_name false elsewhere) ∙ found)
]
  where
    at_name :
        (b : Bool)
        → equal s.name name ≡ b
        → lookup name (insert s.name s m) ≡ (if b then some s else lookup name m)
    at_name b h =
        lookup-insert s.name name s m ∙ ap (λ (b : Bool). if b then some s else lookup name m) h

    injective : {x y : ServerConfig} → ◌≡◌ {A = Option ServerConfig} (some x) (some y) → x ≡ y
    injective h = cc

table-AllKnown :
    (ss : List ServerConfig) (m : Map ServerConfig) {by_name : Map ServerConfig}
    → servers_by_name ss m ≡ ok by_name
    → All IsKnownTransport ss
    → AllKnown m
    → AllKnown by_name
unfolding servers_by_name
table-AllKnown [] m e k all = subst AllKnown (ok-injective {E = ConfigError} e) all
table-AllKnown (s ∷ ss) m e k all =
    let (_, e₁) = refuse-ok (equal (trim_space s.name) []) empty_server_name _ e in
    let (_, e₂) = refuse-ok (is_some (lookup s.name m)) (duplicate_server_name s.name) _ e₁ in
    table-AllKnown ss (insert s.name s m) e₂ k.1 (insert-AllKnown s m k.0 all)

-- The server of a route is in the table, and takes streams.
abbrev Owned : Map ServerConfig → Bytes → Type 0
Owned by_name server =
    (c : ServerConfig) × (lookup (trim_space server) by_name ≡ some c)
    × (is_udp c.transport ≡ false)

abbrev SniOwned : Map ServerConfig → SniGatewayConfig → Type 0
SniOwned by_name g = All (λ (r : SniGatewayRouteConfig). Owned by_name r.server) g.routes

abbrev HttpOwned : Map ServerConfig → HttpGatewayConfig → Type 0
HttpOwned by_name g = All (λ (r : HttpGatewayRouteConfig). Owned by_name r.server) g.routes

module _ (by_name : Map ServerConfig) where
  sni_gateway-SniOwned :
      (g : SniGatewayConfig) (referenced : Map Bool) {g' : SniGatewayConfig}
      {referenced' : Map Bool}
      → sni_gateway by_name g referenced ≡ ok (g', referenced')
      → SniOwned by_name g
  unfolding sni_gateway
  sni_gateway-SniOwned g referenced e =
      let (_, e₁) = refuse-ok (equal (trim_space g.listen_addr) []) empty_listen_addr _ e in
      let (_, e₂) =
        refuse-ok (not (equal g.default_action (codes "reject"))) unsupported_action _ e₁ in
      let (p, found, done) = >>=-eq-ok (sni_routes by_name g.routes [] referenced) _ e₂ in
      All-map (λ r h. (h.owner, h.known, h.streams)) g.routes
        (sni_routes_served by_name g.routes referenced found)

  http_gateway-HttpOwned :
      (g : HttpGatewayConfig) (referenced : Map Bool) {g' : HttpGatewayConfig}
      {referenced' : Map Bool}
      → http_gateway by_name g referenced ≡ ok (g', referenced')
      → HttpOwned by_name g
  unfolding http_gateway
  http_gateway-HttpOwned g referenced e =
      let (_, e₁) = refuse-ok (equal (trim_space g.listen_addr) []) empty_listen_addr _ e in
      let (_, e₂) =
        refuse-ok (not (equal g.default_action (codes "reject"))) unsupported_action _ e₁ in
      let (_, e₃) =
        refuse-ok (bad_header_limit g.max_header_bytes) header_bytes_out_of_range _ e₂ in
      let (p, found, done) = >>=-eq-ok (http_routes by_name g.routes [] referenced) _ e₃ in
      All-map (λ r h. (h.owner, h.known, h.streams)) g.routes
        (http_routes_served by_name g.routes referenced found)

  sni_gateways-owned :
      (gs : List SniGatewayConfig) (referenced : Map Bool) {out : List SniGatewayConfig}
      {referenced' : Map Bool}
      → validate_sni_gateways by_name gs referenced ≡ ok (out, referenced')
      → All (SniOwned by_name) out
  unfolding validate_sni_gateways
  sni_gateways-owned [] referenced e =
      subst (λ q. All (SniOwned by_name) q.0) (ok-injective {E = ConfigError} e) tt
  sni_gateways-owned (g ∷ gs) referenced e =
      let (p, first, e₁) = >>=-eq-ok (named g.name (sni_gateway by_name g referenced)) _ e in
      let (q, others, e₂) = >>=-eq-ok (validate_sni_gateways by_name gs p.1) _ e₁ in
      let checked = named-ok g.name (sni_gateway by_name g referenced) first in
      let owned =
        subst (λ rs. All (λ (r : SniGatewayRouteConfig). Owned by_name r.server) rs)
          (sni_gateway-routes by_name g referenced checked)
          (sni_gateway-SniOwned g referenced checked) in
      subst (λ t. All (SniOwned by_name) t.0) (ok-injective {E = ConfigError} e₂)
        (owned, sni_gateways-owned gs p.1 others)

  http_gateways-owned :
      (gs : List HttpGatewayConfig) (referenced : Map Bool) {out : List HttpGatewayConfig}
      {referenced' : Map Bool}
      → validate_http_gateways by_name gs referenced ≡ ok (out, referenced')
      → All (HttpOwned by_name) out
  unfolding validate_http_gateways
  http_gateways-owned [] referenced e =
      subst (λ q. All (HttpOwned by_name) q.0) (ok-injective {E = ConfigError} e) tt
  http_gateways-owned (g ∷ gs) referenced e =
      let (p, first, e₁) = >>=-eq-ok (named g.name (http_gateway by_name g referenced)) _ e in
      let (q, others, e₂) = >>=-eq-ok (validate_http_gateways by_name gs p.1) _ e₁ in
      let checked = named-ok g.name (http_gateway by_name g referenced) first in
      let owned =
        subst (λ rs. All (λ (r : HttpGatewayRouteConfig). Owned by_name r.server) rs)
          (http_gateway-routes by_name g referenced checked)
          (http_gateway-HttpOwned g referenced checked) in
      subst (λ t. All (HttpOwned by_name) t.0) (ok-injective {E = ConfigError} e₂)
        (owned, http_gateways-owned gs p.1 others)

not_found : (name : Bytes) {c : ServerConfig} → lookup name [] ≡ some c → ⊥
unfolding lookup
not_found name h = cc

-- A runtime is registered for the server of a route.
abbrev pub IsReachable : List ServerConfig → Bytes → Type 0
IsReachable servers server =
    (rt : InboundTarget) × (lookup (trim_space server) (register_servers servers []) ≡ some rt)

abbrev pub AllSniReachable : List ServerConfig → SniGatewayConfig → Type 0
AllSniReachable servers g =
    All (λ (r : SniGatewayRouteConfig). IsReachable servers r.server) g.routes

abbrev pub AllHttpReachable : List ServerConfig → HttpGatewayConfig → Type 0
AllHttpReachable servers g =
    All (λ (r : HttpGatewayRouteConfig). IsReachable servers r.server) g.routes

abbrev pub AllReachable : Config → Type 0
AllReachable cfg =
    All (AllSniReachable cfg.servers) cfg.sni_gateways
    × All (AllHttpReachable cfg.servers) cfg.http_gateways

module _ (by_name : Map ServerConfig) (servers : List ServerConfig) (all : AllKnown by_name)
    (registered : IsRegistered by_name (register_servers servers [])) where
  Owned-IsReachable : (server : Bytes) → Owned by_name server → IsReachable servers server
  Owned-IsReachable server (c, found, streams) =
      registered (trim_space server) c found
        (known_inbound c.transport (all (trim_space server) c found) streams)

  sni-AllSniReachable :
      (gs : List SniGatewayConfig) → All (SniOwned by_name) gs → All (AllSniReachable servers) gs
  sni-AllSniReachable gs owned =
      All-map (λ g h. All-map (λ r o. Owned-IsReachable r.server o) g.routes h) gs owned

  http-AllHttpReachable :
      (gs : List HttpGatewayConfig) → All (HttpOwned by_name) gs → All (AllHttpReachable servers) gs
  http-AllHttpReachable gs owned =
      All-map (λ g h. All-map (λ r o. Owned-IsReachable r.server o) g.routes h) gs owned

-- The table and the registration of the servers.
table-IsRegistered :
    (ss : List ServerConfig) {by_name : Map ServerConfig} {ss' : List ServerConfig}
    → All IsKnownTransport ss
    → servers_by_name ss [] ≡ ok by_name
    → parse_server_buffers ss ≡ ok ss'
    → AllKnown by_name × IsRegistered by_name (register_servers ss' [])
table-IsRegistered ss k e b = (
  table-AllKnown ss [] e k (λ name c h. absurd (not_found name h)),
  servers-IsRegistered ss [] [] e b (λ name c h i. absurd (not_found name h)),
)

-- Of a configuration that passes the check and whose servers have transports that the program knows, the
-- registration finds a runtime for the server of every route of every gateway.
pub validate_config-AllReachable :
    (parse : Bytes → Option ℤ) (pick : (Bytes × ListenOwner) → Map ListenOwner → ListenOwner)
    (cfg : Config) {cfg' : Config}
    → All IsKnownTransport cfg.servers
    → validate_config parse pick cfg ≡ ok cfg'
    → AllReachable cfg'
unfolding validate_config
validate_config-AllReachable parse pick cfg {cfg'} k e =
    let (runtime, _, e₁) =
      >>=-eq-ok (map_err runtime_error (validate_runtime_config parse cfg.runtime)) _ e in
    let (by_name, table_ok, e₂) = >>=-eq-ok (servers_by_name cfg.servers []) _ e₁ in
    let (sni, sni_ok, e₃) = >>=-eq-ok (validate_sni_gateways by_name cfg.sni_gateways []) _ e₂ in
    let (http, http_ok, e₄) =
      >>=-eq-ok (validate_http_gateways by_name cfg.http_gateways sni.1) _ e₃ in
    let (table, _, e₅) = >>=-eq-ok (validate_listeners pick cfg.servers sni.0 http.0) _ e₄ in
    let (inbound, _, e₆) = >>=-eq-ok (check_inbound cfg.servers http.1) _ e₅ in
    let (tunnels, _, e₇) = >>=-eq-ok (parse_tunnel_buffers cfg.clients) _ e₆ in
    let (servers, servers_ok, e₈) = >>=-eq-ok (parse_server_buffers cfg.servers) _ e₇ in
    let (clients, _, e₉) = >>=-eq-ok (parse_client_buffers tunnels) _ e₈ in
    let ready = table-IsRegistered cfg.servers k table_ok servers_ok in
    subst AllReachable (ok-injective {E = ConfigError} e₉) (
      sni-AllSniReachable by_name servers ready.0 ready.1 sni.0
          (sni_gateways-owned by_name cfg.sni_gateways [] sni_ok),
      http-AllHttpReachable by_name servers ready.0 ready.1 http.0
          (http_gateways-owned by_name cfg.http_gateways sni.1 http_ok),
    )
