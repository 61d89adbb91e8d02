-- ===== src/UdpOverTcp/EndToEnd.antt =====
-- accept_udp.go: the senders' loops, and both ends together.
use backhaul_plus.Prelude.{
  ℕ, suc, ◌+◌, ◌<◌, ◌≡◌, refl, sym, ap, ◌∙◌, false, ltb, Bool, List, [], ◌∷◌, ◌++◌, none, some, All,
  arith, length, take, append_assoc, append-nil, length-take, ◌||◌,
}
use backhaul_plus.Strings.{Bytes}
use backhaul_plus.Stream.{Conn, stream, write}
use backhaul_plus.Usage.{UsageMap}
use backhaul_plus.UdpOverTcp.{
  Relay, server_udp_to_tcp, client_udp_to_tcp, client_tcp_to_udp, server_tcp_to_udp, counted,
  effective_rtt,
}
use backhaul_plus.UdpOverTcp.Packets.{frame}
use backhaul_plus.UdpOverTcp.Delivery.{Fits, frames, client_tcp_to_udp-Delivered, Delivered}
use backhaul_plus.UdpOverTcp.Stamped.{
  Stamped, stamp, stamped_frames, datagrams, server_tcp_to_udp-Done,
}
use backhaul_plus.UdpOverTcp.Age.{AllPrompt, any_old, any_late-any_old}

write_ok :
    (buf : Bytes) (c : Conn)
    → c.write_error ≡ none
    → write buf c ≡ (none, record c { written = c.written ++ buf })
unfolding write
write_ok buf c h = rw h refl

-- A datagram as the client's buffer holds it.
abbrev pub cut_to_buffer : List Stamped → List Stamped
cut_to_buffer [] = []
cut_to_buffer ((now, datagram) ∷ rest) = (now, take 16378 datagram) ∷ cut_to_buffer rest

module _ (sniffer : Bool) (port : ℕ) where
  server_sends :
      (packets : List Bytes) (tcp : Conn) (m : UsageMap)
      → tcp.write_error ≡ none
      → All Fits packets
      → (server_udp_to_tcp sniffer port packets (tcp, m)).0.written ≡ tcp.written ++ frames packets
  unfolding server_udp_to_tcp
  server_sends [] tcp m h a = sym (append-nil tcp.written)
  server_sends (packet ∷ packets) tcp m h a =
      let small : ltb 65535 (length packet) ≡ false = ground (arith, a.0) in
      rw (small, write_ok (frame packet) tcp h)
        (server_sends packets (record tcp { written = tcp.written ++ frame packet })
            (counted sniffer port (2 + length packet) m) h a.1
          ∙ append_assoc tcp.written (frame packet) (frames packets))

  client_sends :
      (packets : List Stamped) (tcp : Conn) (m : UsageMap)
      → tcp.write_error ≡ none
      → (client_udp_to_tcp sniffer port packets (tcp, m)).0.written
        ≡ tcp.written ++ stamped_frames (cut_to_buffer packets)
  unfolding client_udp_to_tcp
  client_sends [] tcp m h = sym (append-nil tcp.written)
  client_sends ((now, datagram) ∷ packets) tcp m h =
      let packet : Bytes = take 16378 datagram in
      rw (write_ok (stamp now ++ frame packet) tcp h) (
        client_sends packets (record tcp { written = tcp.written ++ (stamp now ++ frame packet) })
          (counted sniffer port (6 + length packet) m) h
        ∙ append_assoc tcp.written (stamp now ++ frame packet)
            (stamped_frames (cut_to_buffer packets)))

cut-Fits : (packets : List Stamped) → All Fits (datagrams (cut_to_buffer packets))
cut-Fits [] = tt
cut-Fits ((now, datagram) ∷ packets) =
    (let cut = length-take 16378 datagram in omega arith, cut-Fits packets)

length-cut_to_buffer : (packets : List Stamped) → length (cut_to_buffer packets) ≡ length packets
length-cut_to_buffer [] = refl
length-cut_to_buffer (p ∷ packets) = ap suc (length-cut_to_buffer packets)

module _ (sniffer sniffer' : Bool) (port port' : ℕ) (tcp : Conn) (m : UsageMap) (r : Relay)
    (lost : Bytes) where
  -- From the server to the client: of datagrams that fit the buffer, written to a fresh connection whose
  -- writes succeed, the client writes a front part to its UDP socket, each whole and in order, without the
  -- empty ones; and all of them if no byte of the connection is lost.
  pub server_to_client :
      (packets : List Bytes) (fuel : ℕ)
      → tcp.written ≡ []
      → tcp.write_error ≡ none
      → r.udp.failing ≡ false
      → All Fits packets
      → stream r.tcp ++ lost ≡ (server_udp_to_tcp sniffer port packets (tcp, m)).0.written
      → length packets < fuel
      → (r' : Relay) × (client_tcp_to_udp sniffer' port' fuel r ≡ some r')
        × Delivered packets lost r r'
  server_to_client packets fuel fresh w h a s l =
      client_tcp_to_udp-Delivered sniffer' port' packets fuel r lost h a
        (s
          ∙ server_sends sniffer port packets tcp m w a
          ∙ ap (λ (t : Bytes). t ++ frames packets) fresh)
        l

  -- From the client to the server: of datagrams written to a fresh connection whose writes succeed, each
  -- cut to 16378 bytes, the server writes a front part to the UDP client, in order and without the empty
  -- ones. If no byte is lost it has written all. If moreover each was read less than ten minutes after it
  -- was sent, by clocks that agree, the connection is marked as congested exactly if it was so before or
  -- one of them was older than three round trips and sent and read within the same ten minutes of the
  -- clock; one that is older but was sent before such a boundary does not mark it.
  pub client_to_server :
      (packets : List Stamped) (rtt : ℕ) (clock : ℕ → ℕ) (fuel : ℕ)
      → tcp.written ≡ []
      → tcp.write_error ≡ none
      → r.udp.failing ≡ false
      → stream r.tcp ++ lost ≡ (client_udp_to_tcp sniffer port packets (tcp, m)).0.written
      → length packets < fuel
      → (r' : Relay) × (server_tcp_to_udp sniffer' port' (effective_rtt rtt) clock 0 fuel r
          ≡ some r')
        × Delivered (datagrams (cut_to_buffer packets)) lost r r'
        × (lost ≡ []
            → AllPrompt clock 0 (cut_to_buffer packets)
            → r'.is_congested
              ≡ (r.is_congested || any_old (effective_rtt rtt) clock 0 (cut_to_buffer packets)))
  client_to_server packets rtt clock fuel fresh w h s l =
      let (r', ends, (delivered, marked)) =
        server_tcp_to_udp-Done sniffer' port' (effective_rtt rtt) clock (cut_to_buffer packets) 0
          fuel r lost h (cut-Fits packets)
          (s
            ∙ client_sends sniffer port packets tcp m w
            ∙ ap (λ (t : Bytes). t ++ stamped_frames (cut_to_buffer packets)) fresh)
          (let same = length-cut_to_buffer packets in omega arith) in
      (
        r',
        ends,
        delivered,
        λ none_lost prompt.
            marked none_lost
            ∙ ap (λ (b : Bool). r.is_congested || b)
                (any_late-any_old (effective_rtt rtt) clock 0 (cut_to_buffer packets) prompt),
      )
