-- ===== src/Sni/Hello/Names.antt =====
-- The loop over the server names on the names of a described ClientHello.
use backhaul_plus.Prelude.{
  ℕ, zero, suc, ◌+◌, ◌≤◌, ◌<◌, ◌≡◌, ◌≢◌, refl, ◌∙◌, List, [], ◌∷◌, ◌++◌, arith, length,
  length-append, append_assoc, All, ltb, ◌==◌, leb, false, true, eq_nil_of_length,
}
use backhaul_plus.Result.{Result, ok}
use backhaul_plus.Strings.{Bytes}
use backhaul_plus.Sni.Parse.{SniError, name_entry, name_loop, parse_server_name_extension}
use backhaul_plus.Sni.Cursor.{Rest, Rest-start, Rest-move, at-Rest, uint16_at-Rest, slice-Rest}
use backhaul_plus.Sni.Hello.{
  Item, name_bytes, names_bytes, host_name, IsOther, with_length, put_uint16,
}

module _ {b : Bytes} (t : Bytes) (pos end : ℕ) (next : ℕ → Result SniError Bytes) (n : Item)
    (r : Rest b pos (name_bytes n ++ t)) (h : pos + 3 + length n.body ≤ end) where
  behind_kind : Rest b (pos + 1) (with_length n.body ++ t)
  behind_kind = Rest-move (n.kind ∷ []) (pos + 1) r refl

  behind_length : Rest b (pos + 3) (n.body ++ t)
  behind_length = Rest-move (put_uint16 (length n.body)) (pos + 3) behind_kind (omega arith)

  fits : ltb end (pos + 3 + length n.body) ≡ false
  fits = ground arith

  -- An entry of another kind is skipped.
  pub name_entry-other : IsOther n → name_entry b pos end next ≡ next (pos + 3 + length n.body)
  unfolding name_entry
  name_entry-other o =
      rw (at-Rest n.kind r, uint16_at-Rest (length n.body) behind_kind, fits, other)
    where
      other : (n.kind == 0) ≡ false
      other = ground arith

  -- A host name is the result.
  pub name_entry-host : n.kind ≡ 0 → n.body ≢ [] → name_entry b pos end next ≡ ok n.body
  unfolding name_entry
  name_entry-host k g =
      rw (at-Rest n.kind r, uint16_at-Rest (length n.body) behind_kind, fits, host, given)
        (slice-Rest n.body t behind_length)
    where
      host : (n.kind == 0) ≡ true
      host = ground arith

      given : (length n.body == 0) ≡ false
      given = ground (arith, eq_nil_of_length n.body)

-- The end of the list's entries, counted from their start.
names_loop-host :
    (before : List Item) (host t : Bytes) {b : Bytes} (fuel pos end : ℕ)
    → All IsOther before
    → host ≢ []
    → Rest b pos (names_bytes before ++ (name_bytes (host_name host) ++ t))
    → pos + length (names_bytes before) + 3 + length host ≤ end
    → length b < fuel + pos
    → name_loop fuel b pos end ≡ ok host
unfolding name_loop
names_loop-host before host t zero pos end o g r h f = absurd (omega (arith, r.total))
names_loop-host [] host t {b} (suc fuel) pos end o g r h f = rw (room) (
    name_entry-host t pos end (λ p. name_loop fuel b p end) (host_name host) r (omega arith) refl g)
  where
    room : leb (pos + 3) end ≡ true
    room = ground arith
names_loop-host (n ∷ before) host t {b} (suc fuel) pos end o g r h f =
    let behind = names_bytes before ++ (name_bytes (host_name host) ++ t) in
    let here : Rest b pos (name_bytes n ++ behind) =
      rw (append_assoc (name_bytes n) (names_bytes before) (name_bytes (host_name host) ++ t)) at
        r in
    let size = length-append (name_bytes n) (names_bytes before) in
    rw (room size) (
      name_entry-other behind pos end (λ p. name_loop fuel b p end) n here (omega (arith, size)) o.0
      ∙ names_loop-host before host t fuel (pos + 3 + length n.body) end o.1 g
          (Rest-move (name_bytes n) _ here (omega arith)) (omega (arith, size)) (omega arith))
  where
    room :
        length (names_bytes (n ∷ before)) ≡ length (name_bytes n) + length (names_bytes before)
        → leb (pos + 3) end ≡ true
    room e = ground (arith, e)

whole_list :
    (names : Bytes)
    → parse_server_name_extension (with_length names)
      ≡ name_loop (suc (suc (suc (length names)))) (with_length names) 2 (2 + length names)
unfolding parse_server_name_extension
whole_list names = rw (long, uint16_at-Rest (length names) (Rest-start (with_length names)), clip)
  where
    long : ltb (suc (suc (length names))) 2 ≡ false
    long = ground arith

    clip : ltb (suc (suc (length names))) (2 + length names) ≡ false
    clip = ground arith

-- The contents of a server name extension.
pub parse_server_name_extension-host :
    (before after : List Item) (host : Bytes)
    → All IsOther before
    → host ≢ []
    → parse_server_name_extension
        (with_length (names_bytes before ++ (name_bytes (host_name host) ++ names_bytes after)))
      ≡ ok host
parse_server_name_extension-host before after host o g =
    let names = names_bytes before ++ (name_bytes (host_name host) ++ names_bytes after) in
    whole_list names
    ∙ names_loop-host before host (names_bytes after) (suc (suc (suc (length names)))) 2
        (2 + length names) o g
        (Rest-move (put_uint16 (length names)) 2 (Rest-start (with_length names)) (omega arith))
        (omega (
          arith,
          length-append (names_bytes before) (name_bytes (host_name host) ++ names_bytes after),
          length-append host (names_bytes after),
        ))
        (omega arith)
