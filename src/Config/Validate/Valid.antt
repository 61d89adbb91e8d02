-- ===== src/Config/Validate/Valid.antt =====
-- cmd/validate.go: the configurations that `validateConfig` returns.
use backhaul_plus.Prelude.{ℕ, ◌≤◌, ◌≡◌, refl, ap, Bool, List, [], ◌∷◌, ℤ, pos, All, not}
use mathlib.Core.Path.{subst}
use backhaul_plus.Prelude.{Option}
use backhaul_plus.Config.{Config, ServerConfig, ClientConfig, SniGatewayConfig, HttpGatewayConfig}
use backhaul_plus.Config.ByteSize.{parse_tcp_copy_buffer}
use backhaul_plus.Config.ByteSize.Bounds.{parse_tcp_copy_buffer_bounds}
use backhaul_plus.Config.Durations.{validate_runtime_config}
use backhaul_plus.Config.Error.{
  ConfigError, RouteError, ListenOwner, runtime_error, size_error, empty_listen_addr,
  unsupported_action, header_bytes_out_of_range,
}
use backhaul_plus.Config.Listeners.{validate_listeners}
use backhaul_plus.Config.Routes.{
  named, bad_header_limit, sni_gateway, sni_routes, validate_sni_gateways, http_gateway,
  http_routes, validate_http_gateways,
}
use backhaul_plus.Config.Runtime.Served.{
  IsSniRouted, IsHttpRouted, sni_gateway-IsSniRouted, http_gateway-IsHttpRouted,
}
use backhaul_plus.Config.Validate.{
  map_err, servers_by_name, check_inbound, parse_tunnel_buffers, parse_server_buffers,
  parse_client_buffers, validate_config,
}
use backhaul_plus.Maps.{Map}
use backhaul_plus.Result.{Result, ok, err, panic, stuck, refuse-ok, >>=-eq-ok, ok-injective}
use backhaul_plus.Strings.{Bytes, codes, equal, trim_space}

-- A copy buffer of 1 KiB to 1 MiB.
abbrev pub IsCopySize : ℤ → Type 0
IsCopySize z = (n : ℕ) × (z ≡ pos n) × (1024 ≤ n) × (n ≤ 1048576)

ok_again {ℓ κ μ} :
    {A : Type μ} (E : Type ℓ) (F : Type κ) {x y : A}
    → ◌≡◌ {A = Result E A} (ok x) (ok y)
    → ◌≡◌ {A = Result F A} (ok x) (ok y)
ok_again E F e = ap ok (ok-injective {E = E} e)

map_err-ok {ℓ κ μ} :
    {E : Type ℓ} {F : Type κ} {A : Type μ} (f : E → F) (r : Result E A) {a : A}
    → map_err f r ≡ ok a
    → r ≡ ok a
map_err-ok {E = E} {F = F} f (ok a) h = ok_again F E h
map_err-ok f (err e) h = cc
map_err-ok f panic h = cc
map_err-ok f stuck h = cc

pub named-ok {ℓ} :
    {A : Type ℓ} (name : Bytes) (r : Result RouteError A) {a : A} → named name r ≡ ok a → r ≡ ok a
named-ok name (ok a) h = ok_again ConfigError RouteError h
named-ok name (err e) h = cc
named-ok name panic h = cc
named-ok name stuck h = cc

parse_server_buffers-IsCopySize :
    (ss : List ServerConfig) {out : List ServerConfig}
    → parse_server_buffers ss ≡ ok out
    → All (λ (x : ServerConfig). IsCopySize x.tcp_copy_buffer_bytes) out
unfolding parse_server_buffers
parse_server_buffers-IsCopySize [] {out} e =
    subst (All (λ (x : ServerConfig). IsCopySize x.tcp_copy_buffer_bytes))
      (ok-injective {E = ConfigError} e) tt
parse_server_buffers-IsCopySize (s ∷ ss) {out} e =
    let (n, sized, e₁) =
      >>=-eq-ok (map_err (size_error s.name) (parse_tcp_copy_buffer s.tcp_copy_buffer)) _ e in
    let (rest, others, e₂) = >>=-eq-ok (parse_server_buffers ss) _ e₁ in
    let bounds =
      parse_tcp_copy_buffer_bounds s.tcp_copy_buffer (map_err-ok (size_error s.name) _ sized) in
    subst (All (λ (x : ServerConfig). IsCopySize x.tcp_copy_buffer_bytes))
      (ok-injective {E = ConfigError} e₂)
      ((n, refl, bounds.0, bounds.1), parse_server_buffers-IsCopySize ss others)

parse_client_buffers-IsCopySize :
    (cs : List ClientConfig) {out : List ClientConfig}
    → parse_client_buffers cs ≡ ok out
    → All (λ (x : ClientConfig). IsCopySize x.tcp_copy_buffer_bytes) out
unfolding parse_client_buffers
parse_client_buffers-IsCopySize [] {out} e =
    subst (All (λ (x : ClientConfig). IsCopySize x.tcp_copy_buffer_bytes))
      (ok-injective {E = ConfigError} e) tt
parse_client_buffers-IsCopySize (c ∷ cs) {out} e =
    let (n, sized, e₁) =
      >>=-eq-ok (map_err (size_error c.name) (parse_tcp_copy_buffer c.tcp_copy_buffer)) _ e in
    let (rest, others, e₂) = >>=-eq-ok (parse_client_buffers cs) _ e₁ in
    let bounds =
      parse_tcp_copy_buffer_bounds c.tcp_copy_buffer (map_err-ok (size_error c.name) _ sized) in
    subst (All (λ (x : ClientConfig). IsCopySize x.tcp_copy_buffer_bytes))
      (ok-injective {E = ConfigError} e₂)
      ((n, refl, bounds.0, bounds.1), parse_client_buffers-IsCopySize cs others)

pub sni_gateway-routes :
    (by_name : Map ServerConfig) (g : SniGatewayConfig) (referenced : Map Bool)
    {g' : SniGatewayConfig} {referenced' : Map Bool}
    → sni_gateway by_name g referenced ≡ ok (g', referenced')
    → g.routes ≡ g'.routes
unfolding sni_gateway
sni_gateway-routes by_name g referenced e =
    let (_, e₁) = refuse-ok (equal (trim_space g.listen_addr) []) empty_listen_addr _ e in
    let (_, e₂) =
      refuse-ok (not (equal g.default_action (codes "reject"))) unsupported_action _ e₁ in
    let (p, found, done) = >>=-eq-ok (sni_routes by_name g.routes [] referenced) _ e₂ in
    ap (λ q. q.0.routes) (ok-injective {E = RouteError} done)

-- A gateway all of whose routes the running gateway has.
abbrev pub IsSniReady : SniGatewayConfig → Type 0
IsSniReady g = All (IsSniRouted g) g.routes

validate_sni_gateways-IsSniReady :
    (by_name : Map ServerConfig) (gs : List SniGatewayConfig) (referenced : Map Bool)
    {out : List SniGatewayConfig} {referenced' : Map Bool}
    → validate_sni_gateways by_name gs referenced ≡ ok (out, referenced')
    → All IsSniReady out
unfolding validate_sni_gateways
validate_sni_gateways-IsSniReady by_name [] referenced e =
    subst (λ q. All IsSniReady q.0) (ok-injective {E = ConfigError} e) tt
validate_sni_gateways-IsSniReady by_name (g ∷ gs) referenced e =
    let (p, first, e₁) = >>=-eq-ok (named g.name (sni_gateway by_name g referenced)) _ e in
    let (q, others, e₂) = >>=-eq-ok (validate_sni_gateways by_name gs p.1) _ e₁ in
    let checked = named-ok g.name (sni_gateway by_name g referenced) first in
    let ready =
      subst (λ rs. All (IsSniRouted p.0) rs) (sni_gateway-routes by_name g referenced checked)
        (sni_gateway-IsSniRouted by_name g referenced checked) in
    subst (λ t. All IsSniReady t.0) (ok-injective {E = ConfigError} e₂)
      (ready, validate_sni_gateways-IsSniReady by_name gs p.1 others)

pub http_gateway-routes :
    (by_name : Map ServerConfig) (g : HttpGatewayConfig) (referenced : Map Bool)
    {g' : HttpGatewayConfig} {referenced' : Map Bool}
    → http_gateway by_name g referenced ≡ ok (g', referenced')
    → g.routes ≡ g'.routes
unfolding http_gateway
http_gateway-routes by_name g referenced e =
    let (_, e₁) = refuse-ok (equal (trim_space g.listen_addr) []) empty_listen_addr _ e in
    let (_, e₂) =
      refuse-ok (not (equal g.default_action (codes "reject"))) unsupported_action _ e₁ in
    let (_, e₃) = refuse-ok (bad_header_limit g.max_header_bytes) header_bytes_out_of_range _ e₂ in
    let (p, found, done) = >>=-eq-ok (http_routes by_name g.routes [] referenced) _ e₃ in
    ap (λ q. q.0.routes) (ok-injective {E = RouteError} done)

-- A gateway all of whose routes the running gateway has.
abbrev pub IsHttpReady : HttpGatewayConfig → Type 0
IsHttpReady g = All (IsHttpRouted g) g.routes

validate_http_gateways-IsHttpReady :
    (by_name : Map ServerConfig) (gs : List HttpGatewayConfig) (referenced : Map Bool)
    {out : List HttpGatewayConfig} {referenced' : Map Bool}
    → validate_http_gateways by_name gs referenced ≡ ok (out, referenced')
    → All IsHttpReady out
unfolding validate_http_gateways
validate_http_gateways-IsHttpReady by_name [] referenced e =
    subst (λ q. All IsHttpReady q.0) (ok-injective {E = ConfigError} e) tt
validate_http_gateways-IsHttpReady by_name (g ∷ gs) referenced e =
    let (p, first, e₁) = >>=-eq-ok (named g.name (http_gateway by_name g referenced)) _ e in
    let (q, others, e₂) = >>=-eq-ok (validate_http_gateways by_name gs p.1) _ e₁ in
    let checked = named-ok g.name (http_gateway by_name g referenced) first in
    let ready =
      subst (λ rs. All (IsHttpRouted p.0) rs) (http_gateway-routes by_name g referenced checked)
        (http_gateway-IsHttpRouted by_name g referenced checked) in
    subst (λ t. All IsHttpReady t.0) (ok-injective {E = ConfigError} e₂)
      (ready, validate_http_gateways-IsHttpReady by_name gs p.1 others)

-- A configuration that is fit to start.
pub record IsValid (cfg : Config) : Type 0 where
  pub servers_sized : All (λ (s : ServerConfig). IsCopySize s.tcp_copy_buffer_bytes) cfg.servers
  pub clients_sized : All (λ (c : ClientConfig). IsCopySize c.tcp_copy_buffer_bytes) cfg.clients
  pub sni_ready : All IsSniReady cfg.sni_gateways
  pub http_ready : All IsHttpReady cfg.http_gateways

-- Of a configuration that passes the check, every server and client has a copy buffer of 1 KiB to
-- 1 MiB, and every running gateway routes the hosts of its routes to their servers and targets.
pub validate_config-IsValid :
    (parse : Bytes → Option ℤ) (pick : (Bytes × ListenOwner) → Map ListenOwner → ListenOwner)
    (cfg : Config) {cfg' : Config}
    → validate_config parse pick cfg ≡ ok cfg'
    → IsValid cfg'
unfolding validate_config
validate_config-IsValid parse pick cfg {cfg'} e =
    let (runtime, _, e₁) =
      >>=-eq-ok (map_err runtime_error (validate_runtime_config parse cfg.runtime)) _ e in
    let (by_name, _, e₂) = >>=-eq-ok (servers_by_name cfg.servers []) _ e₁ in
    let (sni, sni_ok, e₃) = >>=-eq-ok (validate_sni_gateways by_name cfg.sni_gateways []) _ e₂ in
    let (http, http_ok, e₄) =
      >>=-eq-ok (validate_http_gateways by_name cfg.http_gateways sni.1) _ e₃ in
    let (table, _, e₅) = >>=-eq-ok (validate_listeners pick cfg.servers sni.0 http.0) _ e₄ in
    let (inbound, _, e₆) = >>=-eq-ok (check_inbound cfg.servers http.1) _ e₅ in
    let (tunnels, _, e₇) = >>=-eq-ok (parse_tunnel_buffers cfg.clients) _ e₆ in
    let (servers, servers_ok, e₈) = >>=-eq-ok (parse_server_buffers cfg.servers) _ e₇ in
    let (clients, clients_ok, e₉) = >>=-eq-ok (parse_client_buffers tunnels) _ e₈ in
    subst IsValid (ok-injective {E = ConfigError} e₉) (record {
      servers_sized = parse_server_buffers-IsCopySize cfg.servers servers_ok;
      clients_sized = parse_client_buffers-IsCopySize tunnels clients_ok;
      sni_ready = validate_sni_gateways-IsSniReady by_name cfg.sni_gateways [] sni_ok;
      http_ready = validate_http_gateways-IsHttpReady by_name cfg.http_gateways sni.1 http_ok;
    })
