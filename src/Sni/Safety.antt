-- ===== src/Sni/Safety.antt =====
-- The indices, slices and loops of `parseSNIFromClientHello`.
use backhaul_plus.Prelude.{
  ℕ, zero, suc, ◌+◌, ◌-◌, ◌≤◌, ◌<◌, ◌≡◌, arith, inl, inr, true, false, length, leb, ltb, Bool-cases,
  leb→le, ◌==◌, get_or, take, if◌then◌else◌, Bool, ◌*◌, drop, refl,
}
use backhaul_plus.Result.{Result, ok, IsSafe, refuse, ◌>>=◌, ◌>>◌}
use backhaul_plus.Strings.{Bytes}
use backhaul_plus.Sni.Parse.{
  SniError, at, uint16_at, slice, name_loop, parse_server_name_extension, extension_loop,
  parse_extensions, parse_sni_from_client_hello, name_entry, extension_entry,
}

pub at-ok : (b : Bytes) (i : ℕ) → i < length b → (x : ℕ) × (at b i ≡ ok x)
unfolding at
at-ok b i h = (get_or b i 0, ground arith)

pub uint16_at-ok : (b : Bytes) (i : ℕ) → i + 2 ≤ length b → (x : ℕ) × (uint16_at b i ≡ ok x)
unfolding uint16_at
uint16_at-ok b i h = (get_or b i 0 * 256 + get_or b (i + 1) 0, ground arith)

pub slice-ok :
    (b : Bytes) (lo hi : ℕ) → lo ≤ hi → hi ≤ length b → (s : Bytes) × (slice b lo hi ≡ ok s)
unfolding slice
slice-ok b lo hi h l = (take (hi - lo) (drop lo b), ground arith)

name_entry-IsSafe :
    (b : Bytes) (pos end : ℕ) (next : ℕ → Result SniError Bytes)
    → end ≤ length b
    → pos + 3 ≤ end
    → ((p : ℕ) → pos + 3 ≤ p → p ≤ end → IsSafe (next p))
    → IsSafe (name_entry b pos end next)
unfolding name_entry
name_entry-IsSafe b pos end next h r k =
    let (t, et) = at-ok b pos (omega arith) in
    let (l, el) = uint16_at-ok b (pos + 1) (omega arith) in
    rw (et, el)
      (elim (Bool-cases (ltb end (pos + 3 + l))) [
        | inl far ↦ rw far tt
        | inr fits ↦ rw fits (
            let (s, es) = slice-ok b (pos + 3) (pos + 3 + l) (omega arith) (ground arith) in
            elim (Bool-cases (t == 0)) [
              | inl host ↦
                  rw (host, es)
                    (elim (Bool-cases (l == 0)) [ inl empty ↦ rw empty tt | inr full ↦ rw full tt ])
              | inr other ↦ rw other (k (pos + 3 + l) (omega arith) (ground arith))
            ])
      ])

name_loop-IsSafe :
    (fuel : ℕ) (b : Bytes) (pos end : ℕ)
    → end ≤ length b
    → pos ≤ length b
    → length b < fuel + pos
    → IsSafe (name_loop fuel b pos end)
unfolding name_loop
name_loop-IsSafe zero b pos end h p f = absurd (omega arith)
name_loop-IsSafe (suc fuel) b pos end h p f = elim (Bool-cases (leb (pos + 3) end)) [
  | inl room ↦ rw room (
      name_entry-IsSafe b pos end _ h (leb→le _ _ room)
        (λ q lo hi. name_loop-IsSafe fuel b q end h (omega arith) (omega arith)))
  | inr done ↦ rw done tt
]

clip-le : (n m : ℕ) → (if ltb n m then n else m) ≤ n
clip-le n m = ground arith

parse_server_name_extension-IsSafe : (b : Bytes) → IsSafe (parse_server_name_extension b)
unfolding parse_server_name_extension
parse_server_name_extension-IsSafe b = elim (Bool-cases (ltb (length b) 2)) [
  | inl short ↦ rw short tt
  | inr long ↦
      let (l, el) = uint16_at-ok b 0 (ground arith) in
      rw (long, el)
        (name_loop-IsSafe (suc (length b)) b 2 _ (clip-le (length b) (2 + l)) (ground arith)
          (omega arith))
]

extension_entry-IsSafe :
    (b : Bytes) (pos end : ℕ) (next : ℕ → Result SniError Bytes)
    → end ≤ length b
    → pos + 4 ≤ end
    → ((p : ℕ) → pos + 4 ≤ p → p ≤ end → IsSafe (next p))
    → IsSafe (extension_entry b pos end next)
unfolding extension_entry
extension_entry-IsSafe b pos end next h r k =
    let (t, et) = uint16_at-ok b pos (omega arith) in
    let (l, el) = uint16_at-ok b (pos + 2) (omega arith) in
    rw (et, el)
      (elim (Bool-cases (ltb end (pos + 4 + l))) [
        | inl far ↦ rw far tt
        | inr fits ↦ rw fits (
            let (s, es) = slice-ok b (pos + 4) (pos + 4 + l) (omega arith) (ground arith) in
            elim (Bool-cases (t == 0)) [
              | inl host ↦ rw (host, es) (parse_server_name_extension-IsSafe s)
              | inr other ↦ rw other (k (pos + 4 + l) (omega arith) (ground arith))
            ])
      ])

extension_loop-IsSafe :
    (fuel : ℕ) (b : Bytes) (pos end : ℕ)
    → end ≤ length b
    → pos ≤ length b
    → length b < fuel + pos
    → IsSafe (extension_loop fuel b pos end)
unfolding extension_loop
extension_loop-IsSafe zero b pos end h p f = absurd (omega arith)
extension_loop-IsSafe (suc fuel) b pos end h p f = elim (Bool-cases (leb (pos + 4) end)) [
  | inl room ↦ rw room (
      extension_entry-IsSafe b pos end _ h (leb→le _ _ room)
        (λ q lo hi. extension_loop-IsSafe fuel b q end h (omega arith) (omega arith)))
  | inr done ↦ rw done tt
]

parse_extensions-IsSafe : (b : Bytes) (pos : ℕ) → IsSafe (parse_extensions b pos)
unfolding parse_extensions
parse_extensions-IsSafe b pos = elim (Bool-cases (ltb (length b) (pos + 2))) [
  | inl short ↦ rw short tt
  | inr long ↦
      let (l, el) = uint16_at-ok b pos (ground arith) in
      rw (long, el)
        (extension_loop-IsSafe (suc (length b)) b (pos + 2) _ (clip-le (length b) (pos + 2 + l))
          (ground arith) (omega arith))
]

-- A step that is taken only when the input is long enough.
guarded-IsSafe :
    (short : Bool) (e : SniError) (k : Result SniError Bytes)
    → (short ≡ false → IsSafe k)
    → IsSafe (refuse short e >> k)
guarded-IsSafe true e k h = tt
guarded-IsSafe false e k h = h refl

read-IsSafe :
    {r : Result SniError ℕ} (k : ℕ → Result SniError Bytes)
    → (x : ℕ) × (r ≡ ok x)
    → ((x : ℕ) → IsSafe (k x))
    → IsSafe (r >>= k)
read-IsSafe k (x, e) h = rw e (h x)

-- On every input, however malformed, the parser returns a host name or an error: no index or slice
-- is out of bounds, and the loops end within their fuel.
pub parse_sni_from_client_hello-IsSafe : (b : Bytes) → IsSafe (parse_sni_from_client_hello b)
unfolding parse_sni_from_client_hello
parse_sni_from_client_hello-IsSafe b = guarded-IsSafe (ltb (length b) 34) _ _ λ _.
    guarded-IsSafe (ltb (length b) (34 + 1)) _ _ λ p.
      read-IsSafe _ (at-ok b 34 (ground arith)) λ sid.
        guarded-IsSafe (ltb (length b) (34 + 1 + sid + 2)) _ _ λ q.
          read-IsSafe _ (uint16_at-ok b (34 + 1 + sid) (ground arith)) λ cs.
            guarded-IsSafe (ltb (length b) (34 + 1 + sid + 2 + cs + 1)) _ _ λ r.
              read-IsSafe _ (at-ok b (34 + 1 + sid + 2 + cs) (ground arith))
                λ cm. parse_extensions-IsSafe b (34 + 1 + sid + 2 + cs + 1 + cm)
