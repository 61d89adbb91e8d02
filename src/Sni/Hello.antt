-- ===== src/Sni/Hello.antt =====
-- The body of a ClientHello as a client writes it (RFC 8446, RFC 6066): the independent description
-- that the parser is held against.
pub mod Names
pub mod Extensions
pub mod RoundTrip
use backhaul_plus.Prelude.{ℕ, ◌+◌, ◌<◌, ◌≡◌, ◌≢◌, List, [], ◌∷◌, ◌++◌, length, All}
use backhaul_plus.Strings.{Bytes}
use backhaul_plus.Wire.{put_uint16}

-- An entry of the server name list, or an extension: a kind and its contents.
pub record Item : Type 0 where
  pub kind : ℕ
  pub body : Bytes

abbrev pub with_length : Bytes → Bytes
with_length b = put_uint16 (length b) ++ b

abbrev pub name_bytes : Item → Bytes
name_bytes n = n.kind ∷ with_length n.body

abbrev pub names_bytes : List Item → Bytes
names_bytes [] = []
names_bytes (n ∷ ns) = name_bytes n ++ names_bytes ns

abbrev pub extension_bytes : Item → Bytes
extension_bytes e = put_uint16 e.kind ++ with_length e.body

abbrev pub extensions_bytes : List Item → Bytes
extensions_bytes [] = []
extensions_bytes (e ∷ es) = extension_bytes e ++ extensions_bytes es

-- Entries of other kinds may stand in front of the host name, and anything behind it.
pub record ClientHello : Type 0 where
  pub version_and_random : Bytes
  pub session_id : Bytes
  pub cipher_suites : Bytes
  pub compression_methods : Bytes
  pub extensions_before : List Item
  pub names_before : List Item
  pub host : Bytes
  pub names_after : List Item
  pub extensions_after : List Item

abbrev pub host_name : Bytes → Item
host_name host = record { kind = 0; body = host }

abbrev pub server_names : ClientHello → Bytes
server_names h =
    names_bytes h.names_before ++ (name_bytes (host_name h.host) ++ names_bytes h.names_after)

abbrev pub server_name : ClientHello → Item
server_name h = record { kind = 0; body = with_length (server_names h) }

abbrev pub extensions : ClientHello → Bytes
extensions h =
    extensions_bytes h.extensions_before
    ++ (extension_bytes (server_name h) ++ extensions_bytes h.extensions_after)

abbrev pub client_hello : ClientHello → Bytes
client_hello h =
    h.version_and_random
    ++ (length h.session_id
        ∷ (h.session_id
            ++ (with_length h.cipher_suites
                ++ (length h.compression_methods
                    ∷ (h.compression_methods ++ with_length (extensions h))))))

abbrev pub IsOther : Item → Type 0
IsOther i = i.kind ≢ 0

pub record IsWellFormed (h : ClientHello) : Type 0 where
  pub version_and_random_size : length h.version_and_random ≡ 34
  pub session_id_size : length h.session_id < 256
  pub compression_methods_size : length h.compression_methods < 256
  pub total_size : length (client_hello h) < 65536
  pub other_extensions : All IsOther h.extensions_before
  pub other_names : All IsOther h.names_before
  pub host_given : h.host ≢ []
