-- ===== src/Http/Preread.antt =====
-- `ReadHTTPHost`: reading in chunks until the end of the request header.
pub mod Replay
use backhaul_plus.Prelude.{
  ℕ, zero, suc, ◌+◌, Bool, true, false, [], ◌∷◌, ◌++◌, List, Option, none, some, ℤ, pos, negsuc,
  ltb, if◌then◌else◌, length, take,
}
use backhaul_plus.Result.{Result, ok, err, panic, stuck}
use backhaul_plus.Stream.{IoError, Conn, read}
use backhaul_plus.Stream.Read.{fuel_for}
use backhaul_plus.Strings.{Bytes, index}
use backhaul_plus.Sni.Inspect.{effective_timeout}
use backhaul_plus.Http.Host.{
  HttpError, header_too_large, io, crlf, http_header_terminator, validate_request_line_bytes,
  parse_http_host_from_header, reject_obvious_non_http_prefix,
}

abbrev pub preread_chunk_size : ℕ
preread_chunk_size = 4096

abbrev pub default_max_http_header_bytes : ℕ
default_max_http_header_bytes = 32768

-- What one round decides: go on, with the flag `requestLineChecked`, or return.
pub data Round : Type 0 where
  go_on : Bool → Round
  finish : Result HttpError Bytes → Round

abbrev checked : Result HttpError (Unit {0}) → Round → Round
checked (ok u) k = k
checked (err e) k = finish (err e)
checked panic k = finish panic
checked stuck k = finish stuck

-- The end of the header, if it has arrived.
unfoldable pub header_end : ℕ → Bytes → Bool → Option ℕ → Round
header_end max buf line_checked none =
    if ltb max (length buf) then finish (err header_too_large) else go_on line_checked
header_end max buf line_checked (some idx) =
    if ltb max (idx + 4)
    then finish (err header_too_large)
    else finish (parse_http_host_from_header (take (idx + 4) buf))

-- The request line, if it has arrived and was not looked at before.
unfoldable pub request_line : ℕ → Bytes → Bool → Option ℕ → Round
request_line max buf true line_end = header_end max buf true (index buf http_header_terminator)
request_line max buf false none = header_end max buf false (index buf http_header_terminator)
request_line max buf false (some line_end) =
    checked (validate_request_line_bytes (take line_end buf))
      (header_end max buf true (index buf http_header_terminator))

-- `if n > 0 { … }`, on the buffer with the chunk in it.
unfoldable pub inspect : ℕ → Bytes → Bool → Round
inspect max buf line_checked =
    checked (reject_obvious_non_http_prefix buf)
      (request_line max buf line_checked (index buf crlf))

-- `if e != nil` behind the inspection.
abbrev pub stop : IoError → Round → Round
stop e (go_on b) = finish (err (io e))
stop e (finish r) = finish r

-- A round of the loop: one `Read`, the inspection of a chunk that is not empty, the read's error.
unfoldable pub round : ℕ → Bytes → Bool → Bytes → Option IoError → Round
round max buf line_checked [] none = go_on line_checked
round max buf line_checked [] (some e) = finish (err (io e))
round max buf line_checked (x ∷ chunk) none = inspect max buf line_checked
round max buf line_checked (x ∷ chunk) (some e) = stop e (inspect max buf line_checked)

abbrev pub after_round :
    Bytes
    → Conn
    → (Bool → Result HttpError Bytes × Bytes × Conn)
    → Round
    → Result HttpError Bytes × Bytes × Conn
after_round buf c again (go_on b) = again b
after_round buf c again (finish r) = (r, buf, c)

unfoldable pub preread_loop : ℕ → ℕ → Bytes → Bool → Conn → Result HttpError Bytes × Bytes × Conn
preread_loop zero max buf line_checked c = (stuck, buf, c)
preread_loop (suc fuel) max buf line_checked c =
    let (chunk, e, c') = read preread_chunk_size c in
    after_round (buf ++ chunk) c' (λ b. preread_loop fuel max (buf ++ chunk) b c')
      (round max (buf ++ chunk) line_checked chunk e)

abbrev pub effective_max : ℤ → ℕ
effective_max (pos zero) = default_max_http_header_bytes
effective_max (pos (suc n)) = suc n
effective_max (negsuc n) = default_max_http_header_bytes

abbrev pub prereading : Conn → ℤ → Conn
prereading c timeout = record c { read_deadline = some (effective_timeout timeout) }

abbrev pub cleared : Result HttpError Bytes × Bytes × Conn → Result HttpError Bytes × Bytes × Conn
cleared (r, buf, c) = (r, buf, record c { read_deadline = none })

unfoldable pub with_deadline : Option IoError → Conn → ℤ → ℤ → Result HttpError Bytes × Bytes × Conn
with_deadline (some e) c timeout max_header_bytes = (err (io e), [], c)
with_deadline none c timeout max_header_bytes = cleared (
    preread_loop (fuel_for c.segments) (effective_max max_header_bytes) [] false
      (prereading c timeout))

unfoldable pub read_http_host : Conn → ℤ → ℤ → Result HttpError Bytes × Bytes × Conn
unfolding with_deadline
read_http_host c timeout max_header_bytes =
    with_deadline c.deadline_error c timeout max_header_bytes
