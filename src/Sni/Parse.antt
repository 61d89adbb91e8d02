-- ===== src/Sni/Parse.antt =====
-- `parseSNIFromClientHello` and `parseServerNameExtension`. Every index and slice is checked: one
-- out of bounds is a panic. The loops take fuel.
use backhaul_plus.Prelude.{
  ℕ, zero, suc, ◌+◌, ◌-◌, ◌*◌, true, false, ltb, leb, ◌==◌, if◌then◌else◌, length, get_or, take,
  drop,
}
use backhaul_plus.Result.{Result, ok, err, panic, stuck, ◌>>=◌, ◌>>◌, refuse}
use backhaul_plus.Stream.{IoError}
use backhaul_plus.Strings.{Bytes, codes, to_lower, trim_space, trim_suffix}

pub data SniError : Type 0 where
  not_handshake empty_record exceeds_maximum not_client_hello too_large : SniError
  malformed no_extensions no_sni_extension empty_host_name no_host_name : SniError
  io : IoError → SniError

-- `b[i]`
unfoldable pub at : Bytes → ℕ → Result SniError ℕ
at b i = if ltb i (length b) then ok (get_or b i 0) else panic

-- `binary.BigEndian.Uint16(b[i:])`
unfoldable pub uint16_at : Bytes → ℕ → Result SniError ℕ
uint16_at b i =
    if leb (i + 2) (length b) then ok (get_or b i 0 * 256 + get_or b (i + 1) 0) else panic

-- `b[lo:hi]`
unfoldable pub slice : Bytes → ℕ → ℕ → Result SniError Bytes
slice b lo hi =
    if leb hi (length b)
    then (if leb lo hi then ok (take (hi - lo) (drop lo b)) else panic)
    else panic

-- One entry of the name list, at `pos`; `next` goes on behind it.
unfoldable pub name_entry : Bytes → ℕ → ℕ → (ℕ → Result SniError Bytes) → Result SniError Bytes
name_entry b pos end next = do
  name_type ← at b pos
  name_len ← uint16_at b (pos + 1)
  refuse (ltb end (pos + 3 + name_len)) malformed
  elim (name_type == 0) [
    | true ↦ refuse (name_len == 0) empty_host_name >> slice b (pos + 3) (pos + 3 + name_len)
    | false ↦ next (pos + 3 + name_len)
  ]

-- The loop over the names, from `pos` to `end`.
unfoldable pub name_loop : ℕ → Bytes → ℕ → ℕ → Result SniError Bytes
name_loop zero b pos end = stuck
name_loop (suc fuel) b pos end =
    if leb (pos + 3) end
    then name_entry b pos end (λ p. name_loop fuel b p end)
    else err no_host_name

unfoldable pub parse_server_name_extension : Bytes → Result SniError Bytes
parse_server_name_extension b = do
  refuse (ltb (length b) 2) malformed
  list_len ← uint16_at b 0
  let end = if ltb (length b) (2 + list_len) then length b else 2 + list_len
  name_loop (suc (length b)) b 2 end

-- One extension, at `pos`; `next` goes on behind it.
unfoldable pub extension_entry : Bytes → ℕ → ℕ → (ℕ → Result SniError Bytes) → Result SniError Bytes
extension_entry b pos end next = do
  ext_type ← uint16_at b pos
  ext_len ← uint16_at b (pos + 2)
  refuse (ltb end (pos + 4 + ext_len)) malformed
  elim (ext_type == 0) [
    | true ↦ slice b (pos + 4) (pos + 4 + ext_len) >>= parse_server_name_extension
    | false ↦ next (pos + 4 + ext_len)
  ]

-- The loop over the extensions, from `pos` to `end`.
unfoldable pub extension_loop : ℕ → Bytes → ℕ → ℕ → Result SniError Bytes
extension_loop zero b pos end = stuck
extension_loop (suc fuel) b pos end =
    if leb (pos + 4) end
    then extension_entry b pos end (λ p. extension_loop fuel b p end)
    else err no_sni_extension

-- From the extensions' length at `pos` on.
unfoldable pub parse_extensions : Bytes → ℕ → Result SniError Bytes
parse_extensions b pos = do
  refuse (ltb (length b) (pos + 2)) no_extensions
  ext_total ← uint16_at b pos
  let start = pos + 2
  let end = if ltb (length b) (start + ext_total) then length b else start + ext_total
  extension_loop (suc (length b)) b start end

unfoldable pub parse_sni_from_client_hello : Bytes → Result SniError Bytes
parse_sni_from_client_hello b = do
  refuse (ltb (length b) 34) malformed
  refuse (ltb (length b) (34 + 1)) malformed
  sid_len ← at b 34
  let suites = 34 + 1 + sid_len
  refuse (ltb (length b) (suites + 2)) malformed
  cs_len ← uint16_at b suites
  let methods = suites + 2 + cs_len
  refuse (ltb (length b) (methods + 1)) malformed
  cm_len ← at b methods
  parse_extensions b (methods + 1 + cm_len)

-- `NormalizeSNIHost`
unfoldable pub normalize_sni_host : Bytes → Bytes
unfolding trim_suffix to_lower trim_space
normalize_sni_host s = trim_suffix (to_lower (trim_space s)) (codes ".")
