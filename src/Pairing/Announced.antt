-- ===== src/Pairing/Announced.antt =====
-- An inbound connection of the server and the service that the client dials for it.
use backhaul_plus.Prelude.{
  ℕ, ◌+◌, ◌<◌, ◌≤◌, ◌≡◌, refl, sym, ap, ◌∙◌, false, List, [], ◌∷◌, ◌++◌, some, arith, length, ltb,
  ℤ,
}
use backhaul_plus.Client.{resolve_remote_addr}
use backhaul_plus.Registry.{LocalTcpConn}
use backhaul_plus.Result.{Result, ok, err, panic, stuck}
use backhaul_plus.Signals.{sg_tcp}
use backhaul_plus.Strings.{Bytes}
use backhaul_plus.Wire.{
  AnyConn, WireError, send_binary_transport_string, receive_binary_transport_string,
  transport_frame,
}
use backhaul_plus.Wire.Fresh.{received_whole, send_fresh}
use backhaul_plus.Wire.RoundTrip.{IsFresh, IsKnown, incoming, outgoing}
use backhaul_plus.Pairing.{
  Outcome, copying, Looped, handle_local, announced, dial_local, announcement_read, tunnel_dialer,
  close_any,
}

-- A tunnel connection on which the announcement fails.
abbrev pub IsBroken : Bytes → AnyConn → Type 0
IsBroken target c = (e : WireError) × ((send_binary_transport_string c target sg_tcp).0 ≡ err e)

abbrev pub AllBroken : Bytes → List (ℕ × AnyConn) → Type 0
AllBroken target [] = Unit
AllBroken target ((now, c) ∷ cs) = IsBroken target c × AllBroken target cs

abbrev pub AllBefore : ℕ → List (ℕ × AnyConn) → Type 0
AllBefore t [] = Unit
AllBefore t ((now, c) ∷ cs) = (now ≤ t) × AllBefore t cs

-- The connections on which the announcement failed, each closed after it, in the order of arrival.
abbrev pub closed_after : Bytes → List (ℕ × AnyConn) → List AnyConn
closed_after target [] = []
closed_after target ((now, c) ∷ cs) =
    close_any (send_binary_transport_string c target sg_tcp).1 ∷ closed_after target cs

announced-broken :
    (again : Looped) (rest : List (ℕ × AnyConn)) (p : Result WireError (Unit {0}) × AnyConn)
    {e : WireError}
    → p.0 ≡ err e
    → ((announced again rest p).outcome ≡ again.outcome)
      × ((announced again rest p).left ≡ again.left)
      × ((announced again rest p).closed ≡ close_any p.1 ∷ again.closed)
announced-broken again rest (err x, c) h = (refl, refl, refl)
announced-broken again rest (ok u, c) h = cc
announced-broken again rest (panic, c) h = cc
announced-broken again rest (stuck, c) h = cc

dialed :
    (port : ℤ) (addr : Bytes) (p : Result WireError (Bytes × ℕ) × AnyConn) {target : Bytes}
    → p.0 ≡ ok (target, sg_tcp)
    → resolve_remote_addr target ≡ some (port, addr)
    → announcement_read p ≡ dial_local port addr p.1
unfolding announcement_read
dialed port addr (r, c) h e = rw (h, e) refl

-- The client's end of an announcement.
announced_dialed :
    (target later : Bytes) (d client : AnyConn) (port : ℤ) (addr : Bytes) (sender : AnyConn)
    → length target < 65536
    → IsFresh sender
    → outgoing d ≡ transport_frame target sg_tcp
    → IsKnown client
    → incoming client ≡ outgoing d ++ later
    → resolve_remote_addr target ≡ some (port, addr)
    → (e : AnyConn) × (tunnel_dialer client ≡ dial_local port addr e) × (incoming e ≡ later)
unfolding tunnel_dialer
announced_dialed target later d client port addr sender l f o k s r =
    let (x, sent, _, y) = send_fresh target sg_tcp sender f in
    let same : outgoing d ≡ outgoing (send_binary_transport_string sender target sg_tcp).1 =
      o ∙ sym y ∙ ap (λ (p : Result WireError (Unit {0}) × AnyConn). outgoing p.1) (sym sent) in
    let (got, left) =
      received_whole target later sg_tcp sender client l f k
        (s ∙ ap (λ (m : Bytes). m ++ later) same) in
    (
      (receive_binary_transport_string client).1,
      dialed port addr (receive_binary_transport_string client) got r,
      left,
    )

copying-injective : {c d : AnyConn} → ◌≡◌ {A = Outcome} (copying c) (copying d) → c ≡ d
copying-injective h = cc

module _ (entry : LocalTcpConn) where
  in_time :
      (now : ℕ) (tunnel : AnyConn) (rest : List (ℕ × AnyConn))
      → now ≤ entry.time_created + 3000
      → handle_local entry ((now, tunnel) ∷ rest)
        ≡ announced
            (handle_local entry rest)
            rest
            (send_binary_transport_string tunnel entry.remote_addr sg_tcp)
  unfolding handle_local
  in_time now tunnel rest u =
      let fresh : ltb (entry.time_created + 3000) now ≡ false = ground arith in rw fresh refl

  -- The loop ends in copying over a connection that was sent the target, and closed those before it.
  abbrev pub Carries : List (ℕ × AnyConn) → List (ℕ × AnyConn) → Looped → Type 0
  Carries rest broken looped =
      (d : AnyConn) × (looped.outcome ≡ copying d)
      × (looped.left ≡ rest)
      × (looped.closed ≡ closed_after entry.remote_addr broken)
      × (outgoing d ≡ transport_frame entry.remote_addr sg_tcp)

  carries :
      (broken : List (ℕ × AnyConn)) (now : ℕ) (tunnel : AnyConn) (rest : List (ℕ × AnyConn))
      → AllBroken entry.remote_addr broken
      → AllBefore (entry.time_created + 3000) broken
      → now ≤ entry.time_created + 3000
      → IsFresh tunnel
      → Carries rest broken (handle_local entry (broken ++ ((now, tunnel) ∷ rest)))
  carries [] now tunnel rest b t u f =
      let (d, sent, _, o) = send_fresh entry.remote_addr sg_tcp tunnel f in
      let ends = in_time now tunnel rest u ∙ ap (announced (handle_local entry rest) rest) sent in
      (
        d,
        ap (λ (x : Looped). x.outcome) ends,
        ap (λ (x : Looped). x.left) ends,
        ap (λ (x : Looped). x.closed) ends,
        o,
      )
  carries ((at, c) ∷ broken) now tunnel rest b t u f =
      let more = broken ++ ((now, tunnel) ∷ rest) in
      let (d, e, left, n, o) = carries broken now tunnel rest b.1 t.1 u f in
      let (e', left', n') =
        announced-broken (handle_local entry more) more
          (send_binary_transport_string c entry.remote_addr sg_tcp) b.0.1 in
      let first = in_time at c more t.0 in
      (
        d,
        ap (λ (x : Looped). x.outcome) first ∙ e' ∙ e,
        ap (λ (x : Looped). x.left) first ∙ left' ∙ left,
        ap (λ (x : Looped). x.closed) first
            ∙ n'
            ∙ ap
                (λ (closed : List AnyConn).
                  close_any (send_binary_transport_string c entry.remote_addr sg_tcp).1 ∷ closed)
                n,
        o,
      )

  -- Behind any number of tunnel connections on which the announcement fails, which are closed in turn,
  -- each after it, and no other, a fresh one carries the inbound connection if the loop waits for each
  -- within three seconds of its arrival: it is sent the target, shorter than 65536 bytes, with the mark
  -- of TCP, and nothing else. The client that reads it and can resolve the target dials it, and all
  -- that follows is left to copy.
  pub handle_local-Carries :
      (broken : List (ℕ × AnyConn)) (now : ℕ) (tunnel : AnyConn) (rest : List (ℕ × AnyConn))
      → AllBroken entry.remote_addr broken
      → AllBefore (entry.time_created + 3000) broken
      → now ≤ entry.time_created + 3000
      → IsFresh tunnel
      → length entry.remote_addr < 65536
      → Carries rest broken (handle_local entry (broken ++ ((now, tunnel) ∷ rest)))
        × ((later : Bytes) (d client : AnyConn) (port : ℤ) (addr : Bytes)
            → (handle_local entry (broken ++ ((now, tunnel) ∷ rest))).outcome ≡ copying d
            → IsKnown client
            → incoming client ≡ outgoing d ++ later
            → resolve_remote_addr entry.remote_addr ≡ some (port, addr)
            → (e : AnyConn) × (tunnel_dialer client ≡ dial_local port addr e)
              × (incoming e ≡ later))
  handle_local-Carries broken now tunnel rest b t u f l =
      let (d, e, left, n, o) = carries broken now tunnel rest b t u f in
      (
        (d, e, left, n, o),
        λ later d' client port addr h k s r.
            let same : d' ≡ d = copying-injective (sym h ∙ e) in
            announced_dialed entry.remote_addr later d' client port addr tunnel l f
              (ap outgoing same ∙ o) k s r,
      )
