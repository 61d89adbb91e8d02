-- ===== src/Sni/Hello/Extensions.antt =====
-- The loop over the extensions on the extensions of a described ClientHello.
use backhaul_plus.Prelude.{
  ℕ, zero, suc, ◌+◌, ◌≤◌, ◌<◌, ◌≡◌, ◌∙◌, List, [], ◌∷◌, ◌++◌, arith, length, length-append,
  append_assoc, All, ltb, ◌==◌, leb, false, true,
}
use backhaul_plus.Result.{Result}
use backhaul_plus.Strings.{Bytes}
use backhaul_plus.Wire.{put_uint16}
use backhaul_plus.Sni.Parse.{SniError, extension_entry, extension_loop, parse_server_name_extension}
use backhaul_plus.Sni.Cursor.{Rest, Rest-move, uint16_at-Rest, slice-Rest}
use backhaul_plus.Sni.Hello.{Item, extension_bytes, extensions_bytes, IsOther, with_length}

module _ {b : Bytes} (t : Bytes) (pos end : ℕ) (next : ℕ → Result SniError Bytes) (n : Item)
    (r : Rest b pos (extension_bytes n ++ t)) (h : pos + 4 + length n.body ≤ end) where
  behind_kind : Rest b (pos + 2) (with_length n.body ++ t)
  behind_kind = Rest-move (put_uint16 n.kind) (pos + 2) r (omega arith)

  behind_length : Rest b (pos + 4) (n.body ++ t)
  behind_length = Rest-move (put_uint16 (length n.body)) (pos + 4) behind_kind (omega arith)

  fits : ltb end (pos + 4 + length n.body) ≡ false
  fits = ground arith

  -- An extension of another kind is skipped.
  extension_entry-other :
      IsOther n → extension_entry b pos end next ≡ next (pos + 4 + length n.body)
  unfolding extension_entry
  extension_entry-other o =
      rw (uint16_at-Rest n.kind r, uint16_at-Rest (length n.body) behind_kind, fits, other)
    where
      other : (n.kind == 0) ≡ false
      other = ground arith

  -- The server name extension gives the result.
  extension_entry-server_name :
      n.kind ≡ 0 → extension_entry b pos end next ≡ parse_server_name_extension n.body
  unfolding extension_entry
  extension_entry-server_name k = rw (
    uint16_at-Rest n.kind r,
    uint16_at-Rest (length n.body) behind_kind,
    fits,
    host,
    slice-Rest n.body t behind_length,
  )
    where
      host : (n.kind == 0) ≡ true
      host = ground arith

pub extension_loop-server_name :
    (before : List Item) (e : Item) (t : Bytes) {b : Bytes} (fuel pos end : ℕ)
    → All IsOther before
    → e.kind ≡ 0
    → Rest b pos (extensions_bytes before ++ (extension_bytes e ++ t))
    → pos + length (extensions_bytes before) + 4 + length e.body ≤ end
    → length b < fuel + pos
    → extension_loop fuel b pos end ≡ parse_server_name_extension e.body
unfolding extension_loop
extension_loop-server_name before e t zero pos end o k r h f = absurd (omega (arith, r.total))
extension_loop-server_name [] e t {b} (suc fuel) pos end o k r h f =
    rw room
      (extension_entry-server_name t pos end (λ p. extension_loop fuel b p end) e r (omega arith) k)
  where
    room : leb (pos + 4) end ≡ true
    room = ground arith
extension_loop-server_name (n ∷ before) e t {b} (suc fuel) pos end o k r h f =
    let behind = extensions_bytes before ++ (extension_bytes e ++ t) in
    let here : Rest b pos (extension_bytes n ++ behind) =
      rw (append_assoc (extension_bytes n) (extensions_bytes before) (extension_bytes e ++ t)) at
        r in
    let size = length-append (extension_bytes n) (extensions_bytes before) in
    rw (room size) (
      extension_entry-other behind pos end (λ p. extension_loop fuel b p end) n here
        (omega (arith, size)) o.0
      ∙ extension_loop-server_name before e t fuel (pos + 4 + length n.body) end o.1 k
          (Rest-move (extension_bytes n) _ here (omega arith)) (omega (arith, size)) (omega arith))
  where
    room :
        length (extensions_bytes (n ∷ before))
          ≡ length (extension_bytes n) + length (extensions_bytes before)
        → leb (pos + 4) end ≡ true
    room e = ground (arith, e)
