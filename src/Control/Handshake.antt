-- ===== src/Control/Handshake.antt =====
-- The two ends of the handshake of the control channel.
use backhaul_plus.Prelude.{
  ℕ, ◌≡◌, refl, ap, ◌∙◌, Bool, false, Option, none, if◌then◌else◌, length, ◌<◌, ◌++◌, ◌≢◌,
  Bool-cases, inl, inr, sym,
}
use backhaul_plus.Result.{Result, ok}
use backhaul_plus.Signals.{sg_chan}
use backhaul_plus.Strings.{Bytes, equal}
use backhaul_plus.Strings.Search.{equal_refl, equal_iff}
use backhaul_plus.Wire.{
  AnyConn, net_conn, quic_stream, unsupported, WireError, send_binary_transport_string,
  transport_frame,
}
use backhaul_plus.Wire.RoundTrip.{outgoing, incoming, IsFresh, IsKnown}
use backhaul_plus.Control.{
  close_any, with_deadline, Greeting, established, refused, answered, hello_read, response_read,
  send_hello, greet, greet_within, await_response, await_within, receive_binary_transport_string,
  deadline_error, hello_timeout,
}
use backhaul_plus.Wire.Fresh.{send_fresh, received_whole, fresh-IsKnown, receive-IsFresh}

deadline-IsFresh : (t : Option ℕ) (c : AnyConn) → IsFresh c → IsFresh (with_deadline t c)
deadline-IsFresh t (net_conn c) f = f
deadline-IsFresh t (quic_stream c) f = f
deadline-IsFresh t unsupported f = f

incoming-deadline : (t : Option ℕ) (c : AnyConn) → incoming (with_deadline t c) ≡ incoming c
incoming-deadline t (net_conn c) = refl
incoming-deadline t (quic_stream c) = refl
incoming-deadline t unsupported = refl

-- The tokens that agree are answered, on a connection that came up to `c`.
hello_read-same :
    (token : Bytes) (p : Result WireError (Bytes × ℕ) × AnyConn)
    → p.0 ≡ ok (token, sg_chan)
    → IsFresh p.1
    → (d : AnyConn) × (hello_read token p ≡ established d)
      × (incoming d ≡ incoming p.1)
      × (outgoing d ≡ transport_frame token sg_chan)
unfolding hello_read
hello_read-same token (r, c) h f =
    let (d, sent, i, o) =
      send_fresh token sg_chan (with_deadline none c) (deadline-IsFresh none c f) in
    (
      d,
      ap (λ (r : Result WireError (Bytes × ℕ)). hello_read token (r, c)) h
          ∙ ap
              (λ (b : Bool).
                if b
                then answered (send_binary_transport_string (with_deadline none c) token sg_chan)
                else refused (close_any (with_deadline none c)))
              (equal_refl token)
          ∙ ap answered sent,
      i ∙ incoming-deadline none c,
      o,
    )

abbrev pub IsRefused : Greeting → Type 0
IsRefused g = (d : AnyConn) × (g ≡ refused (close_any d))

hello_read-other :
    (token other : Bytes) (p : Result WireError (Bytes × ℕ) × AnyConn)
    → p.0 ≡ ok (other, sg_chan)
    → equal other token ≡ false
    → IsRefused (hello_read token p)
unfolding hello_read
hello_read-other token other (r, c) h n = (with_deadline none c, rw (h, n) refl)

deadline-IsKnown : (t : Option ℕ) (c : AnyConn) → IsKnown c → IsKnown (with_deadline t c)
deadline-IsKnown t (net_conn c) k = tt
deadline-IsKnown t (quic_stream c) k = tt
deadline-IsKnown t unsupported k = elim k [ ]

response_read-same :
    (token : Bytes) (transport : ℕ) (p : Result WireError (Bytes × ℕ) × AnyConn)
    → p.0 ≡ ok (token, transport)
    → response_read token p ≡ established (with_deadline none p.1)
unfolding response_read
response_read-same token transport (r, c) h = rw (h, equal_refl token) refl

module _ (client_token server_token rest : Bytes) (client server : AnyConn) where
  -- What the server reads of a client's message, when both connections are fresh.
  hello_received :
      length client_token < 65536
      → IsFresh client
      → IsFresh server
      → incoming server ≡ outgoing (send_hello client_token client).1 ++ rest
      → ((receive_binary_transport_string (with_deadline hello_timeout server)).0
          ≡ ok (client_token, sg_chan))
        × (incoming (receive_binary_transport_string (with_deadline hello_timeout server)).1 ≡ rest)
        × IsFresh (receive_binary_transport_string (with_deadline hello_timeout server)).1
  unfolding send_hello
  hello_received l f g s =
      let fresh = deadline-IsFresh hello_timeout server g in
      let (got, left) =
        received_whole client_token rest sg_chan client (with_deadline hello_timeout server) l f
          (fresh-IsKnown _ fresh) (incoming-deadline hello_timeout server ∙ s) in
      (got, left, receive-IsFresh _ fresh)

  -- On fresh connections whose deadlines can be set, a server makes the connection of a client that sends
  -- its token the control channel, and what came behind the token is left to read; the client that reads the
  -- answer has its control channel too, with all that follows it. A client with another token is refused,
  -- and its connection closed. Tokens are shorter than 65536 bytes.
  pub handshake_lem :
      length client_token < 65536
      → IsFresh client
      → IsFresh server
      → deadline_error server ≡ none
      → incoming server ≡ outgoing (send_hello client_token client).1 ++ rest
      → (client_token ≡ server_token
          → (d : AnyConn) × (greet server_token server ≡ established d)
            × (incoming d ≡ rest)
            × ((later : Bytes) (waiting : AnyConn)
                → IsKnown waiting
                → deadline_error waiting ≡ none
                → incoming waiting ≡ outgoing d ++ later
                → (e : AnyConn) × (await_response client_token waiting ≡ established e)
                  × (incoming e ≡ later)))
        × (client_token ≢ server_token → IsRefused (greet server_token server))
  unfolding greet greet_within await_response await_within
  handshake_lem l f g set s =
      let (got, left, fresh) = hello_received l f g s in
      let entered : greet server_token server
          ≡ hello_read server_token
              (receive_binary_transport_string (with_deadline hello_timeout server)) =
        ap (greet_within server_token server) set in
      (
        λ same.
            let (d, kept, i, o) =
              hello_read-same server_token _ (got ∙ ap (λ (t : Bytes). ok (t, sg_chan)) same)
                fresh in
            (
              d,
              entered ∙ kept,
              i ∙ left,
              λ later waiting k can t. answer_read d same o later waiting k can t,
            ),
        λ differ.
            let (d, e) = hello_read-other server_token client_token _ got (unequal differ) in
            (d, entered ∙ e),
      )
    where
      unequal : client_token ≢ server_token → equal client_token server_token ≡ false
      unequal differ = elim (Bool-cases (equal client_token server_token)) [
        | inl same ↦ absurd (differ ((equal_iff client_token server_token).0 same))
        | inr other ↦ other
      ]

      answer_read :
          (d : AnyConn)
          → client_token ≡ server_token
          → outgoing d ≡ transport_frame server_token sg_chan
          → (later : Bytes) (waiting : AnyConn) → IsKnown waiting
          → deadline_error waiting ≡ none
          → incoming waiting ≡ outgoing d ++ later
          → (e : AnyConn) × (await_response client_token waiting ≡ established e)
            × (incoming e ≡ later)
      answer_read d same o later waiting k can t =
          let (x, sent, _, y) = send_fresh client_token sg_chan client f in
          let frame_again : outgoing d
              ≡ outgoing (send_binary_transport_string client client_token sg_chan).1 =
            o
            ∙ ap (λ (m : Bytes). transport_frame m sg_chan) (sym same)
            ∙ sym y
            ∙ ap (λ (p : Result WireError (Unit {0}) × AnyConn). outgoing p.1) (sym sent) in
          let (got', left') =
            received_whole client_token later sg_chan client (with_deadline hello_timeout waiting) l
              f (deadline-IsKnown hello_timeout waiting k)
              (incoming-deadline hello_timeout waiting
                ∙ t
                ∙ ap (λ (m : Bytes). m ++ later) frame_again) in
          let q : Result WireError (Bytes × ℕ) × AnyConn =
            receive_binary_transport_string (with_deadline hello_timeout waiting) in
          (
            with_deadline none q.1,
            ap (await_within client_token waiting) can
                ∙ response_read-same client_token sg_chan q got',
            incoming-deadline none q.1 ∙ left',
          )
