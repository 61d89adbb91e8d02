-- ===== src/Config/PortMapping/Range.antt =====
-- cmd/validate.go: the ports of `portMappingListenAddrs`.
use backhaul_plus.Prelude.{
  ℕ, zero, suc, ◌+◌, ◌-◌, ◌≤◌, ◌≡◌, Bool, true, false, List, [], ◌∷◌, Option, none, some, ℤ, pos,
  negsuc, arith, All, ltb, if◌then◌else◌, refl,
}
use backhaul_plus.Config.Error.{MappingError, bad_end, bad_start, bad_mapping}
use backhaul_plus.Config.PortMapping.{
  ListenAddr, as_port, or_else, host_and_port, checked_split, parse_host_port, ports_from,
  range_addrs, address_addrs, single_addrs, port_mapping_listen_addrs,
}
use backhaul_plus.Net.{HostPort, split_ok, split_err, atoi}
use backhaul_plus.Result.{Result, ok, err, panic, stuck, ◌>>=◌, ◌>>◌, refuse}
use backhaul_plus.Strings.{Bytes, equal, contains, index_byte, split, trim_space}
use backhaul_plus.Net.{split_host_port}
use backhaul_plus.Config.PortMapping.{before_equals}
use backhaul_plus.Prelude.{Bool-cases, inl, inr}

abbrev pub IsPort : ListenAddr → Type 0
IsPort a = (1 ≤ a.port) × (a.port ≤ 65535)

pub as_port_range : (o : Option ℤ) {p : ℕ} → as_port o ≡ some p → (1 ≤ p) × (p ≤ 65535)
unfolding as_port
as_port_range none h = cc
as_port_range (some (negsuc n)) h = cc
as_port_range (some (pos n)) h = ground arith

ports_from-IsPort : (count p : ℕ) → 1 ≤ p → count + p ≤ 65536 → All IsPort (ports_from count p)
unfolding ports_from
ports_from-IsPort zero p h k = tt
ports_from-IsPort (suc count) p h k =
    ((h, omega arith), ports_from-IsPort count (p + 1) (omega arith) (omega arith))

-- What an outcome holds, if it is a list of addresses.
abbrev pub AllPorts : Result MappingError (List ListenAddr) → Type 0
AllPorts (ok addrs) = All IsPort addrs
AllPorts (err e) = Unit
AllPorts panic = ⊥
AllPorts stuck = ⊥

range_end :
    (s : ℕ) (o : Option ℕ)
    → ((p : ℕ) → o ≡ some p → p ≤ 65535)
    → 1 ≤ s
    → AllPorts
        (or_else bad_end o >>= λ end. refuse (ltb end s) bad_end >> ok (ports_from (end - s + 1) s))
range_end s none h k = tt
range_end s (some end) h k = elim (Bool-cases (ltb end s)) [
  | inl before ↦ rw before tt
  | inr behind ↦ rw behind (ports_from-IsPort (end - s + 1) s k (ground (arith, h end refl)))
]

range_start :
    (o e : Option ℕ)
    → ((p : ℕ) → o ≡ some p → 1 ≤ p)
    → ((p : ℕ) → e ≡ some p → p ≤ 65535)
    → AllPorts (
        or_else bad_start o >>= λ start. or_else bad_end e >>= λ end.
        refuse (ltb end start) bad_end >> ok (ports_from (end - start + 1) start))
range_start none e h k = tt
range_start (some start) e h k = range_end start e k (h start refl)

range_addrs-AllPorts : (parts : List Bytes) → AllPorts (range_addrs parts)
unfolding range_addrs
range_addrs-AllPorts [] = tt
range_addrs-AllPorts (s ∷ []) = tt
range_addrs-AllPorts (s ∷ e ∷ []) =
    range_start (as_port (atoi (trim_space s))) (as_port (atoi (trim_space e)))
      (λ p h. (as_port_range _ h).0) (λ p h. (as_port_range _ h).1)
range_addrs-AllPorts (s ∷ e ∷ f ∷ parts) = tt

checked_split-IsPort : (h : HostPort) → AllPorts (address_addrs (checked_split h))
unfolding address_addrs
checked_split-IsPort (split_err e) = tt
checked_split-IsPort (split_ok host port) = checked (as_port (atoi port)) refl
  where
    checked :
        (o : Option ℕ) → as_port (atoi port) ≡ o → AllPorts (address_addrs (host_and_port host o))
    checked none h = tt
    checked (some p) h = (as_port_range (atoi port) h, tt)

single_addrs-AllPorts : (o : Option ℤ) → AllPorts (single_addrs (as_port o))
unfolding single_addrs
single_addrs-AllPorts o = checked (as_port o) refl
  where
    checked : (r : Option ℕ) → as_port o ≡ r → AllPorts (single_addrs r)
    checked none h = tt
    checked (some p) h = (as_port_range o h, tt)

-- A mapping is refused, or it listens only on ports from 1 to 65535.
pub port_mapping_listen_addrs-AllPorts :
    (mapping : Bytes) → AllPorts (port_mapping_listen_addrs mapping)
unfolding port_mapping_listen_addrs parse_host_port
port_mapping_listen_addrs-AllPorts mapping =
    by_form (equal local []) (contains local b'-') (contains local b':')
  where
    local : Bytes
    local = trim_space (before_equals mapping (index_byte mapping b'='))

    by_form :
        (blank dash colon : Bool)
        → AllPorts (
            if blank
            then err bad_mapping
            else if dash
            then range_addrs (split local b'-')
            else if colon
            then address_addrs (checked_split (split_host_port (trim_space local)))
            else single_addrs (as_port (atoi local)))
    by_form true dash colon = tt
    by_form false true colon = range_addrs-AllPorts (split local b'-')
    by_form false false true = checked_split-IsPort (split_host_port (trim_space local))
    by_form false false false = single_addrs-AllPorts (atoi local)
