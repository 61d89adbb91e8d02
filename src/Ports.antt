-- ===== src/Ports.antt =====
-- internal/server/transport/tcp.go: the listeners that the port mappings of a server open,
-- `parsePortMappings`.
pub mod Agreement
use backhaul_plus.Prelude.{
  ℕ, zero, suc, ◌+◌, ◌-◌, Bool, ◌&&◌, List, [], ◌∷◌, ◌++◌, Option, none, some, ℤ, pos, negsuc, ltb,
  if◌then◌else◌,
}
use backhaul_plus.Config.Error.{MappingError, bad_mapping, bad_range, bad_start, bad_end, bad_port}
use backhaul_plus.Config.PortMapping.{as_port, or_else}
use backhaul_plus.Net.{atoi, itoa}
use backhaul_plus.Result.{Result, ok, err, ◌>>=◌, ◌>>◌, refuse}
use backhaul_plus.Strings.{Bytes, contains, split, trim_space}

-- A call of `startListeners`.
pub record Listener : Type 0 where
  pub local_addr : Bytes
  pub remote_addr : Bytes

-- `fmt.Sprintf(":%d", port)`
abbrev pub colon_port : ℕ → Bytes
colon_port port = b':' ∷ itoa port

-- The loop over a range, of `count` ports from `port` on.
unfoldable pub range_listeners : (ℕ → Bytes) → ℕ → ℕ → List Listener
range_listeners remote zero port = []
range_listeners remote (suc count) port =
    record { local_addr = colon_port port; remote_addr = remote port }
    ∷ range_listeners remote count (port + 1)

unfoldable pub range_mapping : (ℕ → Bytes) → List Bytes → Result MappingError (List Listener)
range_mapping remote (s ∷ e ∷ []) = or_else bad_start (as_port (atoi (trim_space s))) >>= λ start.
    or_else bad_end (as_port (atoi (trim_space e))) >>= λ end.
    refuse (ltb end start) bad_end >> ok (range_listeners remote (end - start + 1) start)
range_mapping remote _ = err bad_range

unfoldable pub single_mapping : Bytes → Option ℕ → Result MappingError (List Listener)
single_mapping remote none = err bad_port
single_mapping remote (some port) =
    ok (record { local_addr = colon_port port; remote_addr = remote } ∷ [])

-- A mapping without `=`.
unfoldable pub bare_mapping : Bytes → Result MappingError (List Listener)
bare_mapping text =
    if contains text b'-'
    then range_mapping itoa (split text b'-')
    else single_mapping text (as_port (atoi text))

-- `err == nil && port > 1 && port < 65535`
abbrev pub inner_port : Option ℤ → Option ℕ
inner_port none = none
inner_port (some (negsuc n)) = none
inner_port (some (pos n)) = if ltb 1 n && ltb n 65535 then some n else none

abbrev pub port_or_text : Bytes → Option ℕ → Bytes
port_or_text text none = text
port_or_text text (some port) = colon_port port

-- `local=remote`
unfoldable pub pair_mapping : Bytes → Bytes → Result MappingError (List Listener)
pair_mapping text remote =
    if contains text b'-'
    then range_mapping (λ port. remote) (split text b'-')
    else ok (
        record { local_addr = port_or_text text (inner_port (atoi text)); remote_addr = remote }
        ∷ [])

unfoldable pub mapping_of_parts : List Bytes → Result MappingError (List Listener)
mapping_of_parts (local ∷ []) = bare_mapping (trim_space local)
mapping_of_parts (local ∷ remote ∷ []) = pair_mapping (trim_space local) (trim_space remote)
mapping_of_parts _ = err bad_mapping

-- `parsePortMappings`: what is started, or the message that the program ends with.
unfoldable pub parse_port_mappings : List Bytes → Result MappingError (List Listener)
parse_port_mappings [] = ok []
parse_port_mappings (mapping ∷ rest) = mapping_of_parts (split mapping b'=') >>= λ started.
    parse_port_mappings rest >>= λ later. ok (started ++ later)
