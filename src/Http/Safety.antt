-- ===== src/Http/Safety.antt =====
-- The parsers of http_preread.go and their outcomes.
use backhaul_plus.Prelude.{
  ℕ, zero, suc, ◌+◌, ◌<◌, ◌≡◌, false, [], ◌∷◌, Option, none, some, arith, length, take, drop,
  length-drop, ◌==◌,
}
use backhaul_plus.Result.{Result, IsSafe, >>=-IsSafe}
use backhaul_plus.Strings.{Bytes, index, index_byte}
use backhaul_plus.Http.Host.{
  HttpError, crlf, Found, header_loop, host_of_found, nothing_found, take_line, parse_lines,
  parse_http_host_from_header, check_version, check_target, check_method,
  validate_request_line_bytes, reject_obvious_non_http_prefix, header_line,
}

header_line-IsSafe :
    (rest : Bytes) (f : Found) (next : Bytes → Found → Result HttpError Found) (o : Option ℕ)
    → ((nl : ℕ) (g : Found) → IsSafe (next (drop (nl + 2) rest) g))
    → IsSafe (header_line rest f next o)
unfolding header_line
header_line-IsSafe rest f next none k = tt
header_line-IsSafe rest f next (some nl) k =
    ground (arith, k nl (take_line (take nl rest) (index_byte (take nl rest) b':') f))

header_loop-IsSafe :
    (fuel : ℕ) (rest : Bytes) (f : Found) → length rest < fuel → IsSafe (header_loop fuel rest f)
unfolding header_loop
header_loop-IsSafe zero rest f h = absurd (omega arith)
header_loop-IsSafe (suc fuel) [] f h = tt
header_loop-IsSafe (suc fuel) (x ∷ rest) f h =
    rw (header_loop, given)
      (header_line-IsSafe (x ∷ rest) f (header_loop fuel) (index (x ∷ rest) crlf) (λ nl g.
        header_loop-IsSafe fuel (drop (nl + 2) (x ∷ rest)) g
          (omega (arith, length-drop (nl + 2) (x ∷ rest)))))
  where
    given : (suc (length rest) == 0) ≡ false
    given = ground arith

pub validate_request_line_bytes-IsSafe : (line : Bytes) → IsSafe (validate_request_line_bytes line)
unfolding validate_request_line_bytes check_method check_target check_version
validate_request_line_bytes-IsSafe line = ground arith

host_of_found-IsSafe : (f : Found) → IsSafe (host_of_found f)
unfolding host_of_found
host_of_found-IsSafe f = ground arith

pub parse_http_host_from_header-IsSafe : (b : Bytes) → IsSafe (parse_http_host_from_header b)
unfolding parse_http_host_from_header
parse_http_host_from_header-IsSafe b = go (index b crlf)
  where
    go : (o : Option ℕ) → IsSafe (parse_lines b o)
    go none = unfold parse_lines in tt
    go (some zero) = unfold parse_lines in tt
    go (some (suc n)) =
        unfold parse_lines in
        >>=-IsSafe (validate_request_line_bytes (take (suc n) b)) _
          (validate_request_line_bytes-IsSafe (take (suc n) b))
          λ u _.
            >>=-IsSafe
              (header_loop (suc (length (drop (suc n + 2) b))) (drop (suc n + 2) b) nothing_found)
              host_of_found (header_loop-IsSafe _ (drop (suc n + 2) b) nothing_found (omega arith))
              (λ f _. host_of_found-IsSafe f)

pub reject_obvious_non_http_prefix-IsSafe :
    (buf : Bytes) → IsSafe (reject_obvious_non_http_prefix buf)
unfolding reject_obvious_non_http_prefix
reject_obvious_non_http_prefix-IsSafe [] = tt
reject_obvious_non_http_prefix-IsSafe (c ∷ buf) = ground arith
