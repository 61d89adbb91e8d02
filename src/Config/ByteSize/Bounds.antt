-- ===== src/Config/ByteSize/Bounds.antt =====
-- cmd/validate.go: the range of `parseByteSize` and `parseTCPCopyBuffer`.
use backhaul_plus.Prelude.{
  ℕ, ◌*◌, ◌/◌, ◌≤◌, ◌≡◌, Bool, true, false, Option, none, some, ℤ, pos, negsuc, arith, leb, ltb,
  if◌then◌else◌, refl,
}
use backhaul_plus.Config.Error.{SizeError}
use backhaul_plus.Config.ByteSize.{
  scaled, unit_of, parse_byte_size, parse_tcp_copy_buffer, is_auto, min_tcp_copy_buffer,
  max_tcp_copy_buffer, is_all_digits, size_not_positive, size_too_large,
}
use backhaul_plus.Config.Error.{
  auto_not_supported, size_too_small, size_too_big, size_empty, size_format,
}
use backhaul_plus.Prelude.{◌||◌, not, []}
use backhaul_plus.Strings.{equal, to_lower, trim_space}
use native.Mathlib.Nat.{mul-le-mul_right, div-mul-le_self}
use backhaul_plus.Net.{atoi, max_int}
use backhaul_plus.Result.{Result, ok, err, panic, stuck, ◌>>=◌, refuse-ok, ok-injective}
use backhaul_plus.Strings.{Bytes}

-- `if bad { return err }`, passed.
guard :
    (bad : Bool) (e : SizeError) (r : Result SizeError ℕ) {n : ℕ}
    → (if bad then err e else r) ≡ ok n
    → (bad ≡ false) × (r ≡ ok n)
guard true e r h = cc
guard false e r h = (refl, h)

scaled_bounds :
    (multiplier : ℕ) (o : Option ℤ) {n : ℕ}
    → 1 ≤ multiplier
    → scaled multiplier o ≡ ok n
    → (1 ≤ n) × (n ≤ max_int)
unfolding scaled
scaled_bounds multiplier none h e = cc
scaled_bounds multiplier (some (negsuc m)) h e = cc
scaled_bounds multiplier (some (pos m)) {n} h e =
    let (positive, e₁) = guard (leb m 0) size_not_positive _ e in
    let (fits, e₂) = guard (ltb (max_int / multiplier) m) size_too_large _ e₁ in
    let below = mul-le-mul_right {m = 1} {n = m} multiplier (ground arith) in
    let above = mul-le-mul_right {m = m} {n = max_int / multiplier} multiplier (ground arith) in
    let whole = div-mul-le_self max_int multiplier in
    let found = ok-injective {E = SizeError} {a = m * multiplier} {b = n} e₂ in
    (ground arith, ground arith)

unit_of_positive : (v : Bytes) → 1 ≤ (unit_of v).0
unfolding unit_of
unit_of_positive v = ground arith

-- A size that is read is positive and an int: the product with the unit does not overflow.
pub parse_byte_size_bounds :
    (value : Bytes) {n : ℕ} → parse_byte_size value ≡ ok n → (1 ≤ n) × (n ≤ max_int)
unfolding parse_byte_size
parse_byte_size_bounds value {n} e =
    let (kept, given) = refuse-ok (equal (to_lower (trim_space value)) []) size_empty _ e in
    let u = unit_of (to_lower (trim_space value)) in
    let (well_formed, found) =
      refuse-ok (equal u.1 [] || not (is_all_digits u.1)) size_format _ given in
    scaled_bounds u.0 (atoi u.1) (unit_of_positive (to_lower (trim_space value))) found

-- The copy buffer has 1 KiB to 1 MiB.
pub parse_tcp_copy_buffer_bounds :
    (value : Bytes) {n : ℕ} → parse_tcp_copy_buffer value ≡ ok n → (1024 ≤ n) × (n ≤ 1048576)
unfolding parse_tcp_copy_buffer
parse_tcp_copy_buffer_bounds value {n} e = bounded (is_auto value) (parse_byte_size value) e
  where
    bounded :
        (auto : Bool) (r : Result SizeError ℕ)
        → (if auto
            then err auto_not_supported
            else r >>= λ m.
                if ltb m min_tcp_copy_buffer
                then err size_too_small
                else if ltb max_tcp_copy_buffer m
                then err size_too_big
                else ok m)
          ≡ ok n
        → (1024 ≤ n) × (n ≤ 1048576)
    bounded true r h = cc
    bounded false (ok m) h = ground arith
    bounded false (err x) h = cc
    bounded false panic h = cc
    bounded false stuck h = cc
