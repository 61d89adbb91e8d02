-- ===== src/Http/Host.antt =====
-- `parseHTTPHostFromHeader`, `validateRequestLineBytes`, `NormalizeHTTPHost` and
-- `rejectObviousNonHTTPPrefix`. An index that a search returned is within bounds.
use backhaul_plus.Prelude.{
  ℕ, zero, suc, ◌+◌, Bool, true, false, not, ◌&&◌, ◌||◌, [], ◌∷◌, Option, none, some, ltb, leb,
  ◌==◌, if◌then◌else◌, length, take, drop,
}
use backhaul_plus.Net.{HostPort, split_ok, split_err, split_host_port}
use backhaul_plus.Result.{Result, ok, err, stuck, ◌>>=◌, ◌>>◌, refuse}
use backhaul_plus.Stream.{IoError}
use backhaul_plus.Strings.{
  Bytes, codes, equal, equal_fold, index, index_byte, to_lower, trim_space, trim_suffix,
}

pub data HttpError : Type 0 where
  header_too_large malformed_request_line unsupported_http_version no_host_header : HttpError
  multiple_host_headers empty_host non_http_traffic : HttpError
  io : IoError → HttpError

abbrev pub crlf : Bytes
crlf = b'\r' ∷ b'\n' ∷ []

abbrev pub http_header_terminator : Bytes
http_header_terminator = b'\r' ∷ b'\n' ∷ b'\r' ∷ b'\n' ∷ []

abbrev pub without_port : HostPort → Bytes → Bytes
without_port (split_ok host port) h = host
without_port (split_err e) h = h

-- `NormalizeHTTPHost`
unfoldable pub normalize_http_host : Bytes → Bytes
normalize_http_host host =
    let h = to_lower (trim_space host) in
    if equal h [] then [] else trim_suffix (without_port (split_host_port h) h) (codes ".")

abbrev pub is_found : Option ℕ → Bool
is_found none = false
is_found (some i) = true

-- `version := rest[second+1:]` and the checks behind it.
unfoldable pub check_version : Bytes → Result HttpError (Unit {0})
check_version version = do
  refuse (is_found (index_byte version b' ')) malformed_request_line
  refuse (not (equal version (codes "HTTP/1.0")) && not (equal version (codes "HTTP/1.1")))
      unsupported_http_version
  ok tt

unfoldable pub check_target : Bytes → Option ℕ → Result HttpError (Unit {0})
check_target rest none = err malformed_request_line
check_target rest (some second) =
    refuse (length (take second rest) == 0) malformed_request_line
    >> check_version (drop (second + 1) rest)

unfoldable pub check_method : Bytes → Option ℕ → Result HttpError (Unit {0})
check_method line none = err malformed_request_line
check_method line (some zero) = err malformed_request_line
check_method line (some (suc first)) =
    let rest = drop (suc first + 1) line in check_target rest (index_byte rest b' ')

-- `validateRequestLineBytes`
unfoldable pub validate_request_line_bytes : Bytes → Result HttpError (Unit {0})
validate_request_line_bytes line = check_method line (index_byte line b' ')

-- The variables of the header loop: how many Host lines, and the value of the last.
pub record Found : Type 0 where
  pub count : ℕ
  pub host_val : Bytes

abbrev pub host_header_name : Bytes
host_header_name = codes "host"

unfoldable pub take_line : Bytes → Option ℕ → Found → Found
take_line line none f = f
take_line line (some colon) f =
    if equal_fold (trim_space (take colon line)) host_header_name
    then record { count = f.count + 1; host_val = drop (colon + 1) line }
    else f

-- The line that ends at `nl`; a blank one ends the block, and `next` goes on behind another.
unfoldable pub header_line :
    Bytes → Found → (Bytes → Found → Result HttpError Found) → Option ℕ → Result HttpError Found
header_line rest f next none = ok f
header_line rest f next (some nl) = elim (length (take nl rest) == 0) [
  | true ↦ ok f
  | false ↦ next (drop (nl + 2) rest) (take_line (take nl rest) (index_byte (take nl rest) b':') f)
]

-- `for len(rest) > 0`; each round drops a line with its terminator.
unfoldable pub header_loop : ℕ → Bytes → Found → Result HttpError Found
header_loop zero rest f = stuck
header_loop (suc fuel) rest f = elim (length rest == 0) [
  | true ↦ ok f
  | false ↦ header_line rest f (header_loop fuel) (index rest crlf)
]

unfoldable pub host_of_found : Found → Result HttpError Bytes
host_of_found f = do
  refuse (f.count == 0) no_host_header
  refuse (ltb 1 f.count) multiple_host_headers
  let host = normalize_http_host f.host_val
  refuse (equal host []) empty_host
  ok host

abbrev pub nothing_found : Found
nothing_found = record { count = 0; host_val = [] }

unfoldable pub parse_lines : Bytes → Option ℕ → Result HttpError Bytes
parse_lines b none = err malformed_request_line
parse_lines b (some zero) = err malformed_request_line
parse_lines b (some (suc n)) = do
  validate_request_line_bytes (take (suc n) b)
  let rest = drop (suc n + 2) b
  found ← header_loop (suc (length rest)) rest nothing_found
  host_of_found found

-- `parseHTTPHostFromHeader`
unfoldable pub parse_http_host_from_header : Bytes → Result HttpError Bytes
parse_http_host_from_header b = parse_lines b (index b crlf)

-- `rejectObviousNonHTTPPrefix`
unfoldable pub reject_obvious_non_http_prefix : Bytes → Result HttpError (Unit {0})
reject_obvious_non_http_prefix [] = ok tt
reject_obvious_non_http_prefix (c ∷ buf) =
    refuse (leb 0x14 c && leb c 0x17) non_http_traffic
    >> refuse (ltb c 0x20 || c == 0x7f) non_http_traffic
