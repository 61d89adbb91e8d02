-- ===== src/Sni/Hello/RoundTrip.antt =====
-- `parseSNIFromClientHello` on a described ClientHello.
use backhaul_plus.Prelude.{
  ℕ, suc, ◌+◌, ◌≤◌, ◌≡◌, refl, ◌∙◌, [], ◌∷◌, ◌++◌, arith, length, length-append, ltb, false,
}
use backhaul_plus.Result.{ok}
use backhaul_plus.Strings.{Bytes}
use backhaul_plus.Wire.{put_uint16}
use backhaul_plus.Sni.Parse.{parse_extensions, parse_sni_from_client_hello, extension_loop}
use backhaul_plus.Sni.Cursor.{Rest, Rest-start, Rest-move, at-Rest, uint16_at-Rest}
use backhaul_plus.Sni.Hello.{
  ClientHello, IsWellFormed, client_hello, extensions, with_length, server_name, extension_bytes,
  extensions_bytes, server_names,
}
use backhaul_plus.Sni.Hello.Names.{parse_server_name_extension-host}
use backhaul_plus.Sni.Hello.Extensions.{extension_loop-server_name}

-- The extensions stand at the end of the message.
parse_extensions-last :
    (b exts : Bytes) (pos : ℕ)
    → Rest b pos (with_length exts)
    → parse_extensions b pos ≡ extension_loop (suc (length b)) b (pos + 2) (pos + 2 + length exts)
unfolding parse_extensions
parse_extensions-last b exts pos r = rw (long, uint16_at-Rest (length exts) r, clip)
  where
    long : ltb (length b) (pos + 2) ≡ false
    long = ground (arith, r.total)

    clip : ltb (length b) (pos + 2 + length exts) ≡ false
    clip = ground (arith, r.total)

length-extensions :
    (h : ClientHello)
    → length (extensions_bytes h.extensions_before) + 4 + length (server_name h).body
      ≤ length (extensions h)
length-extensions h = omega (
  arith,
  length-append (extensions_bytes h.extensions_before)
      (extension_bytes (server_name h) ++ extensions_bytes h.extensions_after),
  length-append (server_names h) (extensions_bytes h.extensions_after),
)

parse_extensions-host :
    (h : ClientHello) (b : Bytes) (pos : ℕ)
    → IsWellFormed h
    → Rest b pos (with_length (extensions h))
    → parse_extensions b pos ≡ ok h.host
parse_extensions-host h b pos w r =
    parse_extensions-last b (extensions h) pos r
    ∙ extension_loop-server_name h.extensions_before (server_name h)
        (extensions_bytes h.extensions_after) (suc (length b)) (pos + 2)
        (pos + 2 + length (extensions h)) w.other_extensions refl
        (Rest-move (put_uint16 (length (extensions h))) (pos + 2) r (omega arith))
        (omega (arith, length-extensions h)) (omega arith)
    ∙ parse_server_name_extension-host h.names_before h.names_after h.host w.other_names
        w.host_given

module _ (h : ClientHello) (w : IsWellFormed h) where
  abbrev b : Bytes
  b = client_hello h

  abbrev suites : ℕ
  suites = 34 + 1 + length h.session_id

  abbrev methods : ℕ
  methods = suites + 2 + length h.cipher_suites

  abbrev behind_methods : Bytes
  behind_methods = h.compression_methods ++ with_length (extensions h)

  abbrev behind_suites : Bytes
  behind_suites = length h.compression_methods ∷ behind_methods

  abbrev behind_session : Bytes
  behind_session = with_length h.cipher_suites ++ behind_suites

  at_session : Rest b 34 (length h.session_id ∷ (h.session_id ++ behind_session))
  at_session =
      Rest-move h.version_and_random 34 (Rest-start b) (omega (arith, w.version_and_random_size))

  at_suites : Rest b suites behind_session
  at_suites =
      Rest-move h.session_id suites (Rest-move (length h.session_id ∷ []) (34 + 1) at_session refl)
        refl

  at_methods : Rest b methods behind_suites
  at_methods =
      Rest-move h.cipher_suites methods
        (Rest-move (put_uint16 (length h.cipher_suites)) (suites + 2) at_suites refl) refl

  at_extensions : Rest b (methods + 1 + length h.compression_methods) (with_length (extensions h))
  at_extensions =
      Rest-move h.compression_methods (methods + 1 + length h.compression_methods)
        (Rest-move (length h.compression_methods ∷ []) (methods + 1) at_methods refl) refl

  -- Of every well-formed ClientHello, whatever other extensions and name entries stand in front of
  -- the host name and behind it, the parser returns the host name.
  pub parse_sni_from_client_hello-client_hello : parse_sni_from_client_hello b ≡ ok h.host
  unfolding parse_sni_from_client_hello
  parse_sni_from_client_hello-client_hello =
      rw
        (
          front,
          session,
          at-Rest (length h.session_id) at_session,
          suites_fit,
          uint16_at-Rest (length h.cipher_suites) at_suites,
          methods_fit,
          at-Rest (length h.compression_methods) at_methods,
        )
        (parse_extensions-host h b (methods + 1 + length h.compression_methods) w at_extensions)
    where
      front : ltb (length b) 34 ≡ false
      front = ground (arith, at_session.total)

      session : ltb (length b) (34 + 1) ≡ false
      session = ground (arith, at_session.total)

      suites_fit : ltb (length b) (suites + 2) ≡ false
      suites_fit = ground (arith, at_suites.total)

      methods_fit : ltb (length b) (methods + 1) ≡ false
      methods_fit = ground (arith, at_methods.total)
