-- ===== src/Config/Routes/Sound.antt =====
-- cmd/validate.go: the route tables of the gateways against their lists of routes.
use backhaul_plus.Prelude.{
  ◌≡◌, refl, sym, ◌∙◌, ap, Bool, true, false, List, [], ◌∷◌, Option, none, some, arith,
}
use mathlib.Core.Path.{subst}
use backhaul_plus.Prelude.{All}
use backhaul_plus.Config.{
  ServerConfig, SniGatewayRouteConfig, SniGatewayRoute, HttpGatewayRouteConfig, HttpGatewayRoute,
}
use backhaul_plus.Config.Error.{
  RouteError, missing_host, missing_server, missing_target, duplicate_host, udp_server,
}
use backhaul_plus.Config.Routes.{
  normalize_sni_key, is_some, is_udp, known_server, check_route, sni_routes, http_routes,
}
use backhaul_plus.Http.Host.{normalize_http_host}
use backhaul_plus.Maps.{Map, lookup, insert, lookup-insert}
use backhaul_plus.Result.{ok, ◌>>◌, refuse-ok, >>=-eq-ok, ok-injective}
use backhaul_plus.Strings.{Bytes, equal, trim_space}
use backhaul_plus.Strings.Search.{equal_refl, equal_iff}

-- What a checked route has: a host not seen before, and a server that exists and is no UDP one.
pub record IsChecked {ℓ} {V : Type ℓ} (by_name : Map ServerConfig) (m : Map V)
    (host server target : Bytes) (p : Bytes × Bytes) : Type 0 where
  pub given : equal host [] ≡ false
  pub fresh : is_some (lookup host m) ≡ false
  pub trimmed : p ≡ (trim_space server, trim_space target)
  pub owner : ServerConfig
  pub known : lookup (trim_space server) by_name ≡ some owner
  pub streams : is_udp owner.transport ≡ false

pub check_route-IsChecked {ℓ} :
    {V : Type ℓ} (by_name : Map ServerConfig) (m : Map V) (host server target : Bytes)
    {p : Bytes × Bytes}
    → check_route by_name m host server target ≡ ok p
    → IsChecked by_name m host server target p
unfolding check_route
check_route-IsChecked by_name m host server target {p} e =
    let (given, e₁) = refuse-ok (equal host []) missing_host _ e in
    let (_, e₂) = refuse-ok (equal (trim_space server) []) missing_server _ e₁ in
    let (_, e₃) = refuse-ok (equal (trim_space target) []) missing_target _ e₂ in
    let (fresh, e₄) = refuse-ok (is_some (lookup host m)) duplicate_host _ e₃ in
    checked given fresh (lookup (trim_space server) by_name) refl e₄
  where
    checked :
        equal host [] ≡ false
        → is_some (lookup host m) ≡ false
        → (o : Option ServerConfig) → lookup (trim_space server) by_name ≡ o
        → (known_server o >> ok (trim_space server, trim_space target)) ≡ ok p
        → IsChecked by_name m host server target p
    checked given fresh none l h = cc
    checked given fresh (some s) l h =
        let (streams, same) = refuse-ok (is_udp s.transport) udp_server _ h in
        record {
          given = given;
          fresh = fresh;
          trimmed = sym (ok-injective {E = RouteError} same);
          owner = s;
          known = l;
          streams = streams;
        }

-- An entry that stands stays, since a host is entered once.
kept {ℓ} :
    {V : Type ℓ} (m : Map V) (k j : Bytes) (v w : V)
    → is_some (lookup k m) ≡ false
    → lookup j m ≡ some w
    → lookup j (insert k v m) ≡ some w
kept m k j v w fresh l = ground (arith, lookup-insert k j v m, equal_iff k j)

-- A server that a route named stays named.
named_still :
    (m : Map Bool) (k j : Bytes) → lookup j m ≡ some true → lookup j (insert k true m) ≡ some true
named_still m k j l = ground (arith, lookup-insert k j true m)

lookup-insert_same {ℓ} :
    {V : Type ℓ} (k : Bytes) (v : V) (m : Map V) → lookup k (insert k v m) ≡ some v
lookup-insert_same k v m = lookup-insert k k v m ∙ rw (equal_refl k) refl

-- The route stands in the table, and its server exists, is no UDP one and is recorded as named.
pub record IsSniServed (by_name : Map ServerConfig) (m : Map SniGatewayRoute)
    (referenced : Map Bool) (r : SniGatewayRouteConfig) : Type 0 where
  pub entry :
      lookup (normalize_sni_key r.sni) m
      ≡ some (record {
        sni = normalize_sni_key r.sni;
        server = trim_space r.server;
        target = trim_space r.target;
      })
  pub owner : ServerConfig
  pub known : lookup (trim_space r.server) by_name ≡ some owner
  pub streams : is_udp owner.transport ≡ false
  pub named : lookup (trim_space r.server) referenced ≡ some true

-- What the loop makes of the tables that it starts with.
record SniLoop (by_name : Map ServerConfig) (rs : List SniGatewayRouteConfig)
    (m m' : Map SniGatewayRoute) (referenced referenced' : Map Bool) : Type 0 where
  served : All (IsSniServed by_name m' referenced') rs
  entries_stay : (j : Bytes) (w : SniGatewayRoute) → lookup j m ≡ some w → lookup j m' ≡ some w
  names_stay : (j : Bytes) → lookup j referenced ≡ some true → lookup j referenced' ≡ some true

sni_loop :
    (by_name : Map ServerConfig) (rs : List SniGatewayRouteConfig) (m : Map SniGatewayRoute)
    (referenced : Map Bool) {m' : Map SniGatewayRoute} {referenced' : Map Bool}
    → sni_routes by_name rs m referenced ≡ ok (m', referenced')
    → SniLoop by_name rs m m' referenced referenced'
unfolding sni_routes
sni_loop by_name [] m referenced {m'} {referenced'} e =
    let same = ok-injective {E = RouteError} e in
    record {
      served = tt;
      entries_stay = λ j w l. ap (λ p. lookup j p.0) (sym same) ∙ l;
      names_stay = λ j l. ap (λ p. lookup j p.1) (sym same) ∙ l;
    }
sni_loop by_name (r ∷ rs) m referenced {m'} {referenced'} e =
    let (p, checked, next) =
      >>=-eq-ok (check_route by_name m (normalize_sni_key r.sni) r.server r.target) _ e in
    let c = check_route-IsChecked by_name m (normalize_sni_key r.sni) r.server r.target checked in
    let rest = sni_loop by_name rs _ _ (
      subst
        (λ (q : Bytes × Bytes).
          sni_routes by_name rs
            (insert (normalize_sni_key r.sni)
              (record { sni = normalize_sni_key r.sni; server = q.0; target = q.1 }) m)
            (insert q.0 true referenced)
          ≡ ok (m', referenced'))
        c.trimmed next) in
    record {
      served = (
        record {
          entry = rest.entries_stay _ _ (lookup-insert_same (normalize_sni_key r.sni) _ m);
          owner = c.owner;
          known = c.known;
          streams = c.streams;
          named = rest.names_stay _ (lookup-insert_same (trim_space r.server) true referenced);
        },
        rest.served,
      );
      entries_stay =
          λ j w l. rest.entries_stay j w (kept m (normalize_sni_key r.sni) j _ w c.fresh l);
      names_stay = λ j l. rest.names_stay j (named_still referenced (trim_space r.server) j l);
    }

-- Of an SNI gateway whose routes pass, every route is found under its normalized host, with its server and
-- target trimmed, and its server exists, is no UDP one and counts as referenced.
pub sni_routes_served :
    (by_name : Map ServerConfig) (rs : List SniGatewayRouteConfig) (referenced : Map Bool)
    {m : Map SniGatewayRoute} {referenced' : Map Bool}
    → sni_routes by_name rs [] referenced ≡ ok (m, referenced')
    → All (IsSniServed by_name m referenced') rs
sni_routes_served by_name rs referenced e = (sni_loop by_name rs [] referenced e).served

-- The route stands in the table, and its server exists, is no UDP one and is recorded as named.
pub record IsHttpServed (by_name : Map ServerConfig) (m : Map HttpGatewayRoute)
    (referenced : Map Bool) (r : HttpGatewayRouteConfig) : Type 0 where
  pub entry :
      lookup (normalize_http_host r.host) m
      ≡ some (record {
        host = normalize_http_host r.host;
        server = trim_space r.server;
        target = trim_space r.target;
      })
  pub owner : ServerConfig
  pub known : lookup (trim_space r.server) by_name ≡ some owner
  pub streams : is_udp owner.transport ≡ false
  pub named : lookup (trim_space r.server) referenced ≡ some true

-- What the loop makes of the tables that it starts with.
record HttpLoop (by_name : Map ServerConfig) (rs : List HttpGatewayRouteConfig)
    (m m' : Map HttpGatewayRoute) (referenced referenced' : Map Bool) : Type 0 where
  served : All (IsHttpServed by_name m' referenced') rs
  entries_stay : (j : Bytes) (w : HttpGatewayRoute) → lookup j m ≡ some w → lookup j m' ≡ some w
  names_stay : (j : Bytes) → lookup j referenced ≡ some true → lookup j referenced' ≡ some true

http_loop :
    (by_name : Map ServerConfig) (rs : List HttpGatewayRouteConfig) (m : Map HttpGatewayRoute)
    (referenced : Map Bool) {m' : Map HttpGatewayRoute} {referenced' : Map Bool}
    → http_routes by_name rs m referenced ≡ ok (m', referenced')
    → HttpLoop by_name rs m m' referenced referenced'
unfolding http_routes
http_loop by_name [] m referenced {m'} {referenced'} e =
    let same = ok-injective {E = RouteError} e in
    record {
      served = tt;
      entries_stay = λ j w l. ap (λ p. lookup j p.0) (sym same) ∙ l;
      names_stay = λ j l. ap (λ p. lookup j p.1) (sym same) ∙ l;
    }
http_loop by_name (r ∷ rs) m referenced {m'} {referenced'} e =
    let (p, checked, next) =
      >>=-eq-ok (check_route by_name m (normalize_http_host r.host) r.server r.target) _ e in
    let c =
      check_route-IsChecked by_name m (normalize_http_host r.host) r.server r.target checked in
    let rest = http_loop by_name rs _ _ (
      subst
        (λ (q : Bytes × Bytes).
          http_routes by_name rs
            (insert (normalize_http_host r.host)
              (record { host = normalize_http_host r.host; server = q.0; target = q.1 }) m)
            (insert q.0 true referenced)
          ≡ ok (m', referenced'))
        c.trimmed next) in
    record {
      served = (
        record {
          entry = rest.entries_stay _ _ (lookup-insert_same (normalize_http_host r.host) _ m);
          owner = c.owner;
          known = c.known;
          streams = c.streams;
          named = rest.names_stay _ (lookup-insert_same (trim_space r.server) true referenced);
        },
        rest.served,
      );
      entries_stay =
          λ j w l. rest.entries_stay j w (kept m (normalize_http_host r.host) j _ w c.fresh l);
      names_stay = λ j l. rest.names_stay j (named_still referenced (trim_space r.server) j l);
    }

-- Of an HTTP gateway whose routes pass, every route is found under its normalized host, with its server and
-- target trimmed, and its server exists, is no UDP one and counts as referenced.
pub http_routes_served :
    (by_name : Map ServerConfig) (rs : List HttpGatewayRouteConfig) (referenced : Map Bool)
    {m : Map HttpGatewayRoute} {referenced' : Map Bool}
    → http_routes by_name rs [] referenced ≡ ok (m, referenced')
    → All (IsHttpServed by_name m referenced') rs
http_routes_served by_name rs referenced e = (http_loop by_name rs [] referenced e).served
