-- ===== src/Config/Listeners.antt =====
-- cmd/validate.go: the listeners of the whole configuration, and their collisions.
pub mod Disjoint
use backhaul_plus.Prelude.{ℕ, List, [], ◌∷◌, Option, none, some, ◌==◌, if◌then◌else◌}
use backhaul_plus.Config.{ServerConfig, SniGatewayConfig, HttpGatewayConfig}
use backhaul_plus.Config.Error.{
  OwnerKind, owner_bind, owner_port, owner_sni_gateway, owner_http_gateway, ListenOwner,
  ConfigError, mapping_error, duplicate_bind_addr, duplicate_port_listener, invalid_listen_addr,
  duplicate_gateway_addr, conflict_sni_gateway, conflict_http_gateway, conflict_bind,
  conflict_ports, MappingError,
}
use backhaul_plus.Config.PortMapping.{
  ListenAddr, is_wildcard_host, parse_host_port, port_mapping_listen_addrs,
}
use backhaul_plus.Maps.{Map, lookup, insert}
use backhaul_plus.Result.{Result, ok, err, panic, stuck, ◌>>=◌}
use backhaul_plus.Strings.{Bytes, equal}

-- The two tables of `validateListeners`, by port; a port without a table of hosts is `none`.
pub record PortTable : Type 0 where
  pub port_wildcard : ℕ → Option ListenOwner
  pub port_hosts : ℕ → Option (Map ListenOwner)

abbrev pub no_ports : PortTable
no_ports = record { port_wildcard = λ p. none; port_hosts = λ p. none }

-- `m[k] = v` on a map by port.
abbrev pub at_port {ℓ} : {V : Type ℓ} → ℕ → V → (ℕ → Option V) → ℕ → Option V
at_port k v m p = if p == k then some v else m p

-- What `register` answers: the address is taken by another owner, or it is recorded.
pub data Registered : Type 0 where
  taken : ListenOwner → Registered
  recorded : PortTable → Registered

abbrev pub add_wildcard : ℕ → ListenOwner → PortTable → Registered
add_wildcard port owner t =
    recorded (record t { port_wildcard = at_port port owner t.port_wildcard })

abbrev pub add_host : Bytes → ℕ → ListenOwner → Map ListenOwner → PortTable → Registered
add_host host port owner hosts t =
    recorded (record t { port_hosts = at_port port (insert host owner hosts) t.port_hosts })

abbrev pub add_new_host :
    Bytes → ℕ → ListenOwner → Map ListenOwner → PortTable → Option ListenOwner → Registered
add_new_host host port owner hosts t (some existing) = taken existing
add_new_host host port owner hosts t none = add_host host port owner hosts t

abbrev pub in_hosts : Bytes → ℕ → ListenOwner → PortTable → Option (Map ListenOwner) → Registered
in_hosts host port owner t none = add_host host port owner [] t
in_hosts host port owner t (some hosts) = add_new_host host port owner hosts t (lookup host hosts)

-- `pick` is the entry that a loop over a map that is not empty sees first; Go leaves it open.
module _ (pick : (Bytes × ListenOwner) → Map ListenOwner → ListenOwner) where
  abbrev pub over_hosts : ℕ → ListenOwner → PortTable → Option (Map ListenOwner) → Registered
  over_hosts port owner t none = add_wildcard port owner t
  over_hosts port owner t (some []) = add_wildcard port owner t
  over_hosts port owner t (some (entry ∷ rest)) = taken (pick entry rest)

  abbrev pub beside_wildcard : Bytes → ℕ → ListenOwner → PortTable → Option ListenOwner → Registered
  beside_wildcard host port owner t (some existing) = taken existing
  beside_wildcard host port owner t none =
      if is_wildcard_host host
      then over_hosts port owner t (t.port_hosts port)
      else in_hosts host port owner t (t.port_hosts port)

  -- The closure `register`
  unfoldable pub register_addr : Bytes → ℕ → ListenOwner → PortTable → Registered
  register_addr host port owner t = beside_wildcard host port owner t (t.port_wildcard port)

  -- A server keeps a collision with itself.
  abbrev pub own_or :
      (Bytes → Bytes → ConfigError) → Bytes → PortTable → Registered → Result ConfigError PortTable
  own_or e name t (recorded t') = ok t'
  own_or e name t (taken existing) =
      if equal existing.name name then ok t else err (e existing.name name)

  abbrev pub bind_listener : Bytes → PortTable → Option (Bytes × ℕ) → Result ConfigError PortTable
  bind_listener name t none = ok t
  bind_listener name t (some (host, port)) =
      own_or duplicate_bind_addr name t
        (register_addr host port (record { kind = owner_bind; name = name }) t)

  unfoldable pub port_listeners : Bytes → List ListenAddr → PortTable → Result ConfigError PortTable
  port_listeners name [] t = ok t
  port_listeners name (a ∷ addrs) t =
      own_or duplicate_port_listener name t
        (register_addr a.host a.port (record { kind = owner_port; name = name }) t)
      >>= port_listeners name addrs

  abbrev pub of_mapping :
      Bytes → Result MappingError (List ListenAddr) → Result ConfigError (List ListenAddr)
  of_mapping name (ok addrs) = ok addrs
  of_mapping name (err e) = err (mapping_error name e)
  of_mapping name panic = panic
  of_mapping name stuck = stuck

  unfoldable pub mapping_listeners : Bytes → List Bytes → PortTable → Result ConfigError PortTable
  mapping_listeners name [] t = ok t
  mapping_listeners name (pm ∷ pms) t = of_mapping name (port_mapping_listen_addrs pm) >>= λ addrs.
      port_listeners name addrs t >>= mapping_listeners name pms

  -- The loop over the servers.
  unfoldable pub server_listeners : List ServerConfig → PortTable → Result ConfigError PortTable
  server_listeners [] t = ok t
  server_listeners (s ∷ ss) t = bind_listener s.name t (parse_host_port s.bind_addr) >>= λ u.
      mapping_listeners s.name s.ports u >>= server_listeners ss

  -- `gatewayConflictError`
  abbrev pub gateway_conflict : OwnerKind → Bytes → ListenOwner → ConfigError
  gateway_conflict kind name existing = by_kinds existing.kind kind
    where
      by_kinds : OwnerKind → OwnerKind → ConfigError
      by_kinds owner_sni_gateway owner_sni_gateway = duplicate_gateway_addr existing.name name
      by_kinds owner_sni_gateway _ = conflict_sni_gateway name existing.name
      by_kinds owner_http_gateway owner_http_gateway = duplicate_gateway_addr existing.name name
      by_kinds owner_http_gateway _ = conflict_http_gateway name existing.name
      by_kinds owner_bind _ = conflict_bind name existing.name
      by_kinds owner_port _ = conflict_ports name existing.name

  abbrev pub or_conflict : OwnerKind → Bytes → Registered → Result ConfigError PortTable
  or_conflict kind name (recorded t) = ok t
  or_conflict kind name (taken existing) = err (gateway_conflict kind name existing)

  unfoldable pub gateway_listener :
      OwnerKind → Bytes → PortTable → Option (Bytes × ℕ) → Result ConfigError PortTable
  gateway_listener kind name t none = err (invalid_listen_addr name)
  gateway_listener kind name t (some (host, port)) =
      or_conflict kind name (register_addr host port (record { kind = kind; name = name }) t)

  unfoldable pub sni_listeners : List SniGatewayConfig → PortTable → Result ConfigError PortTable
  sni_listeners [] t = ok t
  sni_listeners (g ∷ gs) t =
      gateway_listener owner_sni_gateway g.name t (parse_host_port g.listen_addr)
      >>= sni_listeners gs

  unfoldable pub http_listeners : List HttpGatewayConfig → PortTable → Result ConfigError PortTable
  http_listeners [] t = ok t
  http_listeners (g ∷ gs) t =
      gateway_listener owner_http_gateway g.name t (parse_host_port g.listen_addr)
      >>= http_listeners gs

  -- `validateListeners`, with the tables it ends with.
  unfoldable pub validate_listeners :
      List ServerConfig
      → List SniGatewayConfig
      → List HttpGatewayConfig
      → Result ConfigError PortTable
  validate_listeners servers sni http =
      server_listeners servers no_ports >>= sni_listeners sni >>= http_listeners http
