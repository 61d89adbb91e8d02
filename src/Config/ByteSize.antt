-- ===== src/Config/ByteSize.antt =====
-- cmd/validate.go: sizes with an optional unit, `parseByteSize` and the two options that use it.
pub mod Bounds
use backhaul_plus.Prelude.{
  ℕ, ◌*◌, ◌/◌, Bool, true, false, ◌&&◌, ◌||◌, not, [], ◌∷◌, Option, none, some, ℤ, pos, negsuc, leb,
  ltb, if◌then◌else◌,
}
use backhaul_plus.Config.Error.{
  SizeError, size_empty, size_format, size_not_int, size_not_positive, size_too_large,
  auto_not_supported, size_too_small, size_too_big,
}
use backhaul_plus.Net.{atoi, is_digit, max_int}
use backhaul_plus.Result.{Result, ok, err, ◌>>=◌, ◌>>◌, refuse}
use backhaul_plus.Strings.{Bytes, codes, equal, has_suffix, to_lower, trim_space, trim_suffix}

-- `isAllDigits`: the loop, and the text is not empty.
unfoldable pub digits_only : Bytes → Bool
unfolding is_digit
digits_only [] = true
digits_only (c ∷ s) = if is_digit c then digits_only s else false

unfoldable pub is_all_digits : Bytes → Bool
unfolding digits_only
is_all_digits s = digits_only s && not (equal s [])

-- The multiplier of the unit, and the text before it.
unfoldable pub unit_of : Bytes → ℕ × Bytes
unit_of v =
    if has_suffix v (codes "kb")
    then (1024, trim_suffix v (codes "kb"))
    else if has_suffix v (codes "mb")
    then (1024 * 1024, trim_suffix v (codes "mb"))
    else (1, v)

-- Behind `strconv.Atoi`: the number is positive, and the product is an int.
unfoldable pub scaled : ℕ → Option ℤ → Result SizeError ℕ
scaled multiplier none = err size_not_int
scaled multiplier (some (negsuc n)) = err size_not_positive
scaled multiplier (some (pos n)) =
    if leb n 0
    then err size_not_positive
    else if ltb (max_int / multiplier) n
    then err size_too_large
    else ok (n * multiplier)

-- `parseByteSize`
unfoldable pub parse_byte_size : Bytes → Result SizeError ℕ
unfolding unit_of scaled
parse_byte_size value =
    let v = to_lower (trim_space value) in
    let u = unit_of v in
    refuse (equal v []) size_empty
    >> (refuse (equal u.1 [] || not (is_all_digits u.1)) size_format >> scaled u.0 (atoi u.1))

abbrev pub is_auto : Bytes → Bool
is_auto value = equal (to_lower (trim_space value)) (codes "auto")

-- `parseTunnelTCPBuffer`; 0 leaves the buffer to the system.
unfoldable pub parse_tunnel_tcp_buffer : Bytes → Result SizeError ℕ
parse_tunnel_tcp_buffer value = if is_auto value then ok 0 else parse_byte_size value

abbrev pub min_tcp_copy_buffer : ℕ
min_tcp_copy_buffer = 1024

abbrev pub max_tcp_copy_buffer : ℕ
max_tcp_copy_buffer = 1024 * 1024

-- `parseTCPCopyBuffer`
unfoldable pub parse_tcp_copy_buffer : Bytes → Result SizeError ℕ
parse_tcp_copy_buffer value =
    if is_auto value
    then err auto_not_supported
    else parse_byte_size value >>= λ n.
        if ltb n min_tcp_copy_buffer
        then err size_too_small
        else if ltb max_tcp_copy_buffer n
        then err size_too_big
        else ok n
