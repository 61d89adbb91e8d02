-- ===== src/Config/PortMapping.antt =====
-- cmd/validate.go: the addresses that a port mapping listens on, `portMappingListenAddrs`.
pub mod Range
use backhaul_plus.Prelude.{
  ℕ, zero, suc, ◌+◌, ◌-◌, Bool, ◌&&◌, ◌||◌, List, [], ◌∷◌, Option, none, some, ℤ, pos, negsuc, leb,
  ltb, if◌then◌else◌, take,
}
use backhaul_plus.Config.Error.{
  MappingError, bad_mapping, bad_range, bad_start, bad_end, bad_port, bad_address,
}
use backhaul_plus.Net.{atoi, split_host_port, HostPort, split_ok, split_err}
use backhaul_plus.Result.{Result, ok, err, ◌>>=◌, ◌>>◌, refuse}
use backhaul_plus.Strings.{Bytes, codes, contains, equal, index_byte, split, trim_space}

pub record ListenAddr : Type 0 where
  pub host : Bytes
  pub port : ℕ

-- `err != nil || port < 1 || port > 65535`, for a number that is a port.
unfoldable pub as_port : Option ℤ → Option ℕ
as_port none = none
as_port (some (negsuc n)) = none
as_port (some (pos n)) = if leb 1 n && leb n 65535 then some n else none

abbrev pub or_else {ℓ} : {A : Type ℓ} → MappingError → Option A → Result MappingError A
or_else e none = err e
or_else e (some a) = ok a

abbrev pub host_and_port : Bytes → Option ℕ → Option (Bytes × ℕ)
host_and_port host none = none
host_and_port host (some port) = some (host, port)

abbrev pub checked_split : HostPort → Option (Bytes × ℕ)
checked_split (split_err e) = none
checked_split (split_ok host port) = host_and_port host (as_port (atoi port))

-- `parseHostPort`; its errors are `none`.
unfoldable pub parse_host_port : Bytes → Option (Bytes × ℕ)
parse_host_port addr = checked_split (split_host_port (trim_space addr))

-- `isWildcardHost`
unfoldable pub is_wildcard_host : Bytes → Bool
is_wildcard_host host =
    let h = trim_space host in
    equal h []
    || equal h (codes "0.0.0.0")
    || equal h (codes "::")
    || equal h (codes "[::]")
    || equal h (codes "*")

-- `count` ports from `p` on, on every interface.
unfoldable pub ports_from : ℕ → ℕ → List ListenAddr
ports_from zero p = []
ports_from (suc count) p = record { host = []; port = p } ∷ ports_from count (p + 1)

-- The part before the first `=`.
abbrev pub before_equals : Bytes → Option ℕ → Bytes
before_equals mapping none = mapping
before_equals mapping (some i) = take i mapping

-- `start-end`
unfoldable pub range_addrs : List Bytes → Result MappingError (List ListenAddr)
range_addrs (s ∷ e ∷ []) = or_else bad_start (as_port (atoi (trim_space s))) >>= λ start.
    or_else bad_end (as_port (atoi (trim_space e))) >>= λ end.
    refuse (ltb end start) bad_end >> ok (ports_from (end - start + 1) start)
range_addrs _ = err bad_range

-- `ip:port`
unfoldable pub address_addrs : Option (Bytes × ℕ) → Result MappingError (List ListenAddr)
address_addrs none = err bad_address
address_addrs (some (host, port)) = ok (record { host = host; port = port } ∷ [])

-- A port alone.
unfoldable pub single_addrs : Option ℕ → Result MappingError (List ListenAddr)
single_addrs none = err bad_port
single_addrs (some port) = ok (record { host = []; port = port } ∷ [])

-- `portMappingListenAddrs`
unfoldable pub port_mapping_listen_addrs : Bytes → Result MappingError (List ListenAddr)
port_mapping_listen_addrs mapping =
    let local = trim_space (before_equals mapping (index_byte mapping b'=')) in
    if equal local []
    then err bad_mapping
    else if contains local b'-'
    then range_addrs (split local b'-')
    else if contains local b':'
    then address_addrs (parse_host_port local)
    else single_addrs (as_port (atoi local))
