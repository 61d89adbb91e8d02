-- ===== src/Ports/Agreement.antt =====
-- `parsePortMappings` of tcp.go against `portMappingListenAddrs` of cmd/validate.go.
use backhaul_plus.Prelude.{
  ℕ, zero, suc, ◌+◌, ◌-◌, ◌≡◌, refl, ap, ◌∙◌, false, Bool-cases, inl, inr, List, [], ◌∷◌, map,
  Option, none, some, ltb, if◌then◌else◌,
}
use backhaul_plus.Config.Error.{MappingError, bad_start, bad_end, bad_mapping}
use backhaul_plus.Config.PortMapping.{
  ListenAddr, as_port, or_else, ports_from, range_addrs, single_addrs, address_addrs,
  parse_host_port, port_mapping_listen_addrs,
}
use backhaul_plus.Net.{atoi, itoa}
use backhaul_plus.Ports.{
  Listener, colon_port, range_listeners, range_mapping, single_mapping, bare_mapping,
  mapping_of_parts,
}
use backhaul_plus.Result.{Result, ok, err, panic, stuck, ◌>>=◌, ◌>>◌, refuse}
use backhaul_plus.Strings.{Bytes, contains, equal, split, trim_space}
use backhaul_plus.Strings.Search.{index_byte-none, equal_iff, split-none}

-- The addresses that are listened on, of what the server starts and of what the check records.
abbrev pub opened : Result MappingError (List Listener) → Option (List Bytes)
opened (ok ls) = some (map (λ l. l.local_addr) ls)
opened (err e) = none
opened panic = none
opened stuck = none

abbrev pub expected : Result MappingError (List ListenAddr) → Option (List Bytes)
expected (ok addrs) = some (map (λ a. colon_port a.port) addrs)
expected (err e) = none
expected panic = none
expected stuck = none

range_same :
    (remote : ℕ → Bytes) (count port : ℕ)
    → map (λ (l : Listener). l.local_addr) (range_listeners remote count port)
      ≡ map (λ (a : ListenAddr). colon_port a.port) (ports_from count port)
unfolding range_listeners ports_from
range_same remote zero port = refl
range_same remote (suc count) port =
    ap (λ t. colon_port port ∷ t) (range_same remote count (port + 1))

range_mapping-opened :
    (remote : ℕ → Bytes) (parts : List Bytes)
    → opened (range_mapping remote parts) ≡ expected (range_addrs parts)
unfolding range_mapping range_addrs
range_mapping-opened remote [] = refl
range_mapping-opened remote (s ∷ []) = refl
range_mapping-opened remote (s ∷ e ∷ f ∷ parts) = refl
range_mapping-opened remote (s ∷ e ∷ []) =
    from_start (as_port (atoi (trim_space s))) (as_port (atoi (trim_space e)))
  where
    from_start :
        (start end : Option ℕ)
        → opened (
            or_else bad_start start >>= λ a. or_else bad_end end >>= λ b.
            refuse (ltb b a) bad_end >> ok (range_listeners remote (b - a + 1) a))
          ≡ expected (
              or_else bad_start start >>= λ a. or_else bad_end end >>= λ b.
              refuse (ltb b a) bad_end >> ok (ports_from (b - a + 1) a))
    from_start none end = refl
    from_start (some a) none = refl
    from_start (some a) (some b) = elim (Bool-cases (ltb b a)) [
      | inl less ↦ rw less refl
      | inr fits ↦ rw fits (ap some (range_same remote (b - a + 1) a))
    ]

blank-opened : opened (bare_mapping []) ≡ none
unfolding bare_mapping single_mapping contains atoi as_port
blank-opened = refl

single_mapping-opened :
    (text : Bytes) (o : Option ℕ) → opened (single_mapping text o) ≡ expected (single_addrs o)
unfolding single_mapping single_addrs
single_mapping-opened text none = refl
single_mapping-opened text (some port) = refl

-- What the check makes of the text of a mapping.
abbrev checked : Bytes → Result MappingError (List ListenAddr)
checked local =
    if equal local []
    then err bad_mapping
    else if contains local b'-'
    then range_addrs (split local b'-')
    else if contains local b':'
    then address_addrs (parse_host_port local)
    else single_addrs (as_port (atoi local))

bare_mapping-opened :
    (local : Bytes)
    → contains local b':' ≡ false
    → opened (bare_mapping local) ≡ expected (checked local)
unfolding bare_mapping
bare_mapping-opened local no_colon = elim (Bool-cases (equal local [])) [
  | inl blank ↦
      ap (λ t. opened (bare_mapping t)) ((equal_iff local []).0 blank)
      ∙ blank-opened
      ∙ rw blank refl
  | inr given ↦ elim (Bool-cases (contains local b'-')) [
    | inl dash ↦ rw (given, dash) (range_mapping-opened itoa (split local b'-'))
    | inr plain ↦ rw (given, plain, no_colon) (single_mapping-opened local (as_port (atoi local)))
  ]
]

-- A mapping without "=" and without ":" is refused by both, or the server opens on every interface
-- exactly the ports that the check recorded.
pub mapping_of_parts-opened :
    (mapping : Bytes)
    → contains mapping b'=' ≡ false
    → contains (trim_space mapping) b':' ≡ false
    → opened (mapping_of_parts (split mapping b'=')) ≡ expected (port_mapping_listen_addrs mapping)
unfolding mapping_of_parts port_mapping_listen_addrs
mapping_of_parts-opened mapping no_equals no_colon =
    rw (split-none mapping b'=' no_equals, index_byte-none mapping b'=' no_equals)
      (bare_mapping-opened (trim_space mapping) no_colon)
