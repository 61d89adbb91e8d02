-- ===== src/Start/Registered.antt =====
-- The routes of a configuration that passes the check, and the runtimes that are registered for them.
use mathlib.Core.Path.{subst}
use backhaul_plus.Prelude.{
  if◌then◌else◌, ◌≡◌, refl, sym, ap, ◌∙◌, Bool, true, false, List, [], ◌∷◌, Option, none, some, pos,
  Bool-cases, inl, inr,
}
use backhaul_plus.Config.{
  ServerConfig, TransportType, tcp, tcp_mux, ws, wss, ws_mux, wss_mux, udp, quic, other,
}
use backhaul_plus.Config.Error.{ConfigError, empty_server_name, duplicate_server_name, size_error}
use backhaul_plus.Config.ByteSize.{parse_tcp_copy_buffer}
use backhaul_plus.Config.Routes.{is_some}
use backhaul_plus.Config.Validate.{map_err, servers_by_name, parse_server_buffers}
use backhaul_plus.Maps.{Map, lookup, insert, lookup-insert}
use backhaul_plus.Result.{ok, ok-injective, >>=-eq-ok, refuse-ok}
use backhaul_plus.Start.{InboundTarget, new_server, build_for, register_runtime, register_servers}
use backhaul_plus.Strings.{Bytes, equal, trim_space}

-- The transports that `build` has a runtime for.
abbrev pub is_inbound : TransportType → Bool
is_inbound udp = false
is_inbound (other name) = false
is_inbound tcp = true
is_inbound tcp_mux = true
is_inbound ws = true
is_inbound wss = true
is_inbound ws_mux = true
is_inbound wss_mux = true
is_inbound quic = true

-- A server with such a transport has a runtime.
build_for-runtime :
    (t : TransportType) (c : ServerConfig)
    → is_inbound t ≡ true
    → (rt : InboundTarget) × ((build_for t c).runtime ≡ some rt)
unfolding build_for
build_for-runtime tcp c h = (_, refl)
build_for-runtime tcp_mux c h = (_, refl)
build_for-runtime ws c h = (_, refl)
build_for-runtime wss c h = (_, refl)
build_for-runtime ws_mux c h = (_, refl)
build_for-runtime wss_mux c h = (_, refl)
build_for-runtime quic c h = (_, refl)
build_for-runtime udp c h = cc
build_for-runtime (other name) c h = cc

-- Each server of the table whose transport has a runtime is registered.
abbrev pub IsRegistered : Map ServerConfig → Map InboundTarget → Type 0
IsRegistered by_name registry =
    (name : Bytes) (c : ServerConfig)
    → lookup name by_name ≡ some c
    → is_inbound c.transport ≡ true
    → (rt : InboundTarget) × (lookup name registry ≡ some rt)

-- `c'` is `c` with the size of its copy buffer.
register-IsRegistered :
    (c c' : ServerConfig) (by_name : Map ServerConfig) (registry : Map InboundTarget)
    → c'.name ≡ c.name
    → c'.transport ≡ c.transport
    → IsRegistered by_name registry
    → IsRegistered
        (insert c.name c by_name)
        (register_runtime c'.name (new_server c').runtime registry)
unfolding new_server
register-IsRegistered c c' by_name registry n t reg name d found inbound =
    elim (Bool-cases (equal c.name name)) [
      | inl here ↦
          let same : c ≡ d = some-injective (
            sym (ap (λ (b : Bool). if b then some c else lookup name by_name) here)
            ∙ sym (lookup-insert c.name name c by_name)
            ∙ found) in
          let has = ap is_inbound (t ∙ ap (λ (x : ServerConfig). x.transport) same) ∙ inbound in
          let (rt, built) = build_for-runtime c'.transport c' has in
          (
            rt,
            ap (λ (o : Option InboundTarget). lookup name (register_runtime c'.name o registry))
                  built
                ∙ lookup-insert c'.name name rt registry
                ∙ ap (λ (k : Bytes). if equal k name then some rt else lookup name registry) n
                ∙ ap (λ (b : Bool). if b then some rt else lookup name registry) here,
          )
      | inr elsewhere ↦
          let before : lookup name by_name ≡ some d =
            sym (ap (λ (b : Bool). if b then some c else lookup name by_name) elsewhere)
            ∙ sym (lookup-insert c.name name c by_name)
            ∙ found in
          let (rt, known) = reg name d before inbound in
          (
            rt,
            kept (new_server c').runtime (ap (λ (k : Bytes). equal k name) n ∙ elsewhere) ∙ known,
          )
    ]
  where
    some-injective : {x y : ServerConfig} → ◌≡◌ {A = Option ServerConfig} (some x) (some y) → x ≡ y
    some-injective h = cc

    kept :
        (o : Option InboundTarget)
        → equal c'.name name ≡ false
        → lookup name (register_runtime c'.name o registry) ≡ lookup name registry
    kept none apart = refl
    kept (some rt) apart =
        lookup-insert c'.name name rt registry
        ∙ ap (λ (b : Bool). if b then some rt else lookup name registry) apart

pub servers-IsRegistered :
    (ss : List ServerConfig) (m : Map ServerConfig) (registry : Map InboundTarget)
    {by_name : Map ServerConfig} {ss' : List ServerConfig}
    → servers_by_name ss m ≡ ok by_name
    → parse_server_buffers ss ≡ ok ss'
    → IsRegistered m registry
    → IsRegistered by_name (register_servers ss' registry)
unfolding servers_by_name parse_server_buffers register_servers
servers-IsRegistered [] m registry {by_name} {ss'} e b reg =
    subst (λ t. IsRegistered t (register_servers ss' registry)) (ok-injective {E = ConfigError} e)
      (subst (λ ts. IsRegistered m (register_servers ts registry))
        (ok-injective {E = ConfigError} b) reg)
servers-IsRegistered (s ∷ ss) m registry {by_name} {ss'} e b reg =
    let (_, e₁) = refuse-ok (equal (trim_space s.name) []) empty_server_name _ e in
    let (_, e₂) = refuse-ok (is_some (lookup s.name m)) (duplicate_server_name s.name) _ e₁ in
    let (n, _, b₁) =
      >>=-eq-ok (map_err (size_error s.name) (parse_tcp_copy_buffer s.tcp_copy_buffer)) _ b in
    let (rest, others, b₂) = >>=-eq-ok (parse_server_buffers ss) _ b₁ in
    let s' : ServerConfig = record s { tcp_copy_buffer_bytes = pos n } in
    subst (λ ts. IsRegistered by_name (register_servers ts registry))
      (ok-injective {E = ConfigError} b₂)
      (servers-IsRegistered ss (insert s.name s m)
        (register_runtime s'.name (new_server s').runtime registry) e₂ others
        (register-IsRegistered s s' m registry refl refl reg))
