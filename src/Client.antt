-- ===== src/Client.antt =====
-- internal/client/transport/shared.go: `ResolveRemoteAddr`, by which the client dials the local
-- service that a message names; and the label of a client in cmd/cmd.go.
pub mod Workers
pub mod Launch
pub mod Started
use backhaul_plus.Prelude.{
  ℕ, ◌+◌, ◌≡◌, refl, false, List, [], ◌∷◌, ◌++◌, Option, none, some, ℤ, pos, negsuc, if◌then◌else◌,
}
use backhaul_plus.Net.{atoi, itoa}
use backhaul_plus.Strings.{Bytes, codes, contains, equal, split, trim_space}
use backhaul_plus.Strings.Search.{split-none, split-append}

-- `%d`
abbrev pub decimal_text : ℤ → Bytes
decimal_text (pos n) = itoa n
decimal_text (negsuc n) = b'-' ∷ itoa (n + 1)

abbrev pub on_localhost : Option ℤ → Option (ℤ × Bytes)
on_localhost none = none
on_localhost (some port) = some (port, codes "127.0.0.1:" ++ decimal_text port)

abbrev pub as_given : Bytes → Option ℤ → Option (ℤ × Bytes)
as_given remote_addr none = none
as_given remote_addr (some port) = some (port, remote_addr)

abbrev pub of_parts : Bytes → List Bytes → Option (ℤ × Bytes)
of_parts remote_addr [] = none
of_parts remote_addr (first ∷ []) = on_localhost (atoi first)
of_parts remote_addr (first ∷ second ∷ rest) = as_given remote_addr (atoi second)

-- `ResolveRemoteAddr`; its errors are `none`.
unfoldable pub resolve_remote_addr : Bytes → Option (ℤ × Bytes)
resolve_remote_addr remote_addr = of_parts remote_addr (split remote_addr b':')

-- `clientLogLabel`
unfoldable pub client_log_label : ℕ → Bytes → Bytes
client_log_label index name =
    let n = trim_space name in
    if equal n [] then codes "client[" ++ (itoa index ++ codes "]") else codes "client " ++ n

-- An address without a colon is a port of the local host; of a host and a port the address is kept
-- and the port is the number behind the colon. What is no number is refused.
pub resolve_remote_addr_lem :
    (host port : Bytes)
    → contains host b':' ≡ false
    → contains port b':' ≡ false
    → (resolve_remote_addr port ≡ on_localhost (atoi port))
      × (resolve_remote_addr (host ++ (b':' ∷ port)) ≡ as_given (host ++ (b':' ∷ port)) (atoi port))
unfolding resolve_remote_addr
resolve_remote_addr_lem host port h p = (
  rw (split-none port b':' p) refl,
  rw (split-append host port b':' h, split-none port b':' p) refl,
)
