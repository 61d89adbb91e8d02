-- ===== src/Http/Headers.antt =====
-- `parseHTTPHostFromHeader` against a description of a header by its lines.
use backhaul_plus.Prelude.{
  ℕ, zero, suc, ◌+◌, ◌≤◌, ◌<◌, ◌≡◌, ◌≢◌, refl, ap, ◌∙◌, Bool, true, false, List, [], ◌∷◌, ◌++◌,
  arith, length, length-append, take-append, drop-append_add, drop-append_one, ◌==◌, if◌then◌else◌,
  All, ltb,
}
use backhaul_plus.Result.{Result, ok, err, refuse, ◌>>◌}
use backhaul_plus.Strings.{
  Bytes, equal, equal_fold, contains, index, index_byte, trim_space, has_prefix,
}
use backhaul_plus.Strings.Search.{index_byte-append, index_byte-none, index_crlf-append}
use backhaul_plus.Http.Host.{
  HttpError, no_host_header, multiple_host_headers, empty_host, crlf, Found, take_line, header_loop,
  host_of_found, nothing_found, host_header_name, normalize_http_host, parse_http_host_from_header,
  validate_request_line_bytes, parse_lines, header_line,
}

-- A header line: a field with its name and value, or a text without a colon.
pub data Line : Type 0 where
  field : Bytes → Bytes → Line
  other : ℕ → Bytes → Line

abbrev pub line_bytes : Line → Bytes
line_bytes (field name value) = name ++ (b':' ∷ value)
line_bytes (other c text) = c ∷ text

abbrev pub IsLine : Line → Type 0
IsLine (field name value) =
    (contains name b':' ≡ false) × (contains (name ++ (b':' ∷ value)) b'\n' ≡ false)
IsLine (other c text) = (contains (c ∷ text) b':' ≡ false) × (contains (c ∷ text) b'\n' ≡ false)

-- The lines, each with its terminator, and the blank line.
abbrev pub header_bytes : List Line → Bytes
header_bytes [] = crlf
header_bytes (l ∷ ls) = line_bytes l ++ (b'\r' ∷ b'\n' ∷ header_bytes ls)

abbrev is_host : Bytes → Bool
is_host name = equal_fold (trim_space name) host_header_name

-- The values of the Host fields, in order.
abbrev pub hosts : List Line → List Bytes
hosts [] = []
hosts (field name value ∷ ls) = if is_host name then value ∷ hosts ls else hosts ls
hosts (other c text ∷ ls) = hosts ls

-- One Host field with a host in it is wanted.
abbrev pub decide_host : List Bytes → Result HttpError Bytes
decide_host [] = err no_host_header
decide_host (value ∷ []) =
    if equal (normalize_http_host value) [] then err empty_host else ok (normalize_http_host value)
decide_host (v ∷ w ∷ values) = err multiple_host_headers

abbrev collect : Found → List Bytes → Found
collect f [] = f
collect f (v ∷ values) = collect (record { count = f.count + 1; host_val = v }) values

line_given : (l : Line) → (length (line_bytes l) == 0) ≡ false
line_given (field [] value) = ground arith
line_given (field (x ∷ name) value) = ground arith
line_given (other c text) = ground arith

line_newline : (l : Line) → IsLine l → contains (line_bytes l) b'\n' ≡ false
line_newline (field name value) h = h.1
line_newline (other c text) h = h.1

-- What a line does to the variables of the loop.
take_line-collect :
    (l : Line) (ls : List Line) (f : Found)
    → IsLine l
    → collect (take_line (line_bytes l) (index_byte (line_bytes l) b':') f) (hosts ls)
      ≡ collect f (hosts (l ∷ ls))
unfolding take_line
take_line-collect (field name value) ls f h =
    rw
      (
        index_byte-append name value b':' h.0,
        take-append name (b':' ∷ value),
        drop-append_one name value b':',
      )
      (by_test (is_host name))
  where
    by_test :
        (b : Bool)
        → collect (if b then record { count = f.count + 1; host_val = value } else f) (hosts ls)
          ≡ collect f (if b then value ∷ hosts ls else hosts ls)
    by_test true = refl
    by_test false = refl
take_line-collect (other c text) ls f h = rw (index_byte-none (c ∷ text) b':' h.0)

header_loop-line :
    (fuel : ℕ) (l : Line) (rest : Bytes) (f : Found)
    → IsLine l
    → header_loop (suc fuel) (line_bytes l ++ (b'\r' ∷ b'\n' ∷ rest)) f
      ≡ header_loop fuel rest (take_line (line_bytes l) (index_byte (line_bytes l) b':') f)
unfolding header_loop header_line
header_loop-line fuel l rest f h =
    rw
      (
        header_loop,
        given,
        index_crlf-append (line_bytes l) rest (line_newline l h),
        header_line,
        take-append (line_bytes l) (b'\r' ∷ b'\n' ∷ rest),
        line_given l,
        drop-append_add (line_bytes l) (b'\r' ∷ b'\n' ∷ rest) 2,
      )
      (ap (λ (t : Bytes). header_loop fuel rest (take_line t (index_byte t b':') f))
        (take-append (line_bytes l) (b'\r' ∷ b'\n' ∷ rest)))
  where
    longer :
        length (line_bytes l ++ (b'\r' ∷ b'\n' ∷ rest))
        ≡ length (line_bytes l) + suc (suc (length rest))
    longer = length-append (line_bytes l) (b'\r' ∷ b'\n' ∷ rest)

    given : (length (line_bytes l ++ (b'\r' ∷ b'\n' ∷ rest)) == 0) ≡ false
    given = ground (arith, longer)

header_loop-collect :
    (ls : List Line) (fuel : ℕ) (f : Found)
    → All IsLine ls
    → length (header_bytes ls) < fuel
    → header_loop fuel (header_bytes ls) f ≡ ok (collect f (hosts ls))
header_loop-collect ls zero f h b = absurd (omega arith)
header_loop-collect [] (suc fuel) f h b = unfold header_loop header_line index has_prefix in refl
header_loop-collect (l ∷ ls) (suc fuel) f h b =
    header_loop-line fuel l (header_bytes ls) f h.0
    ∙ header_loop-collect ls fuel _ h.1
        (omega (arith, length-append (line_bytes l) (b'\r' ∷ b'\n' ∷ header_bytes ls)))
    ∙ ap ok (take_line-collect l ls f h.0)

count-collect : (hs : List Bytes) (f : Found) → f.count ≤ (collect f hs).count
count-collect [] f = omega arith
count-collect (v ∷ hs) f =
    omega (arith, count-collect hs (record { count = f.count + 1; host_val = v }))

many_hosts : (f : Found) → 2 ≤ f.count → host_of_found f ≡ err multiple_host_headers
unfolding host_of_found
many_hosts f h = rw (some_host, too_many)
  where
    some_host : (f.count == 0) ≡ false
    some_host = ground arith

    too_many : ltb 1 f.count ≡ true
    too_many = ground arith

host_of_found-collect :
    (hs : List Bytes) → host_of_found (collect nothing_found hs) ≡ decide_host hs
unfolding host_of_found
host_of_found-collect [] = refl
host_of_found-collect (v ∷ []) = by_test (equal (normalize_http_host v) [])
  where
    by_test :
        (b : Bool)
        → (refuse b empty_host >> ok (normalize_http_host v))
          ≡ (if b then err empty_host else ok (normalize_http_host v))
    by_test true = refl
    by_test false = refl
host_of_found-collect (v ∷ w ∷ hs) =
    many_hosts (collect (record { count = 2; host_val = w }) hs)
      (count-collect hs (record { count = 2; host_val = w }))

-- Of a request whose request line is valid, the parser takes the Host field: exactly one is wanted,
-- in any letter case and with blanks around its name, and its value must hold a host.
pub parse_http_host_from_header-decide_host :
    (line : Bytes) (ls : List Line)
    → validate_request_line_bytes line ≡ ok tt
    → line ≢ []
    → contains line b'\n' ≡ false
    → All IsLine ls
    → parse_http_host_from_header (line ++ (b'\r' ∷ b'\n' ∷ header_bytes ls))
      ≡ decide_host (hosts ls)
unfolding parse_http_host_from_header parse_lines
parse_http_host_from_header-decide_host [] ls v g n h = absurd (g refl)
parse_http_host_from_header-decide_host (c ∷ line) ls v g n h =
    ap (parse_lines whole) (index_crlf-append (c ∷ line) (header_bytes ls) n)
    ∙ rw
        (
          take-append (c ∷ line) (b'\r' ∷ b'\n' ∷ header_bytes ls),
          v,
          drop-append_add (c ∷ line) (b'\r' ∷ b'\n' ∷ header_bytes ls) 2,
          header_loop-collect ls (suc (length (header_bytes ls))) nothing_found h (omega arith),
        )
        (host_of_found-collect (hosts ls))
  where
    whole : Bytes
    whole = (c ∷ line) ++ (b'\r' ∷ b'\n' ∷ header_bytes ls)
