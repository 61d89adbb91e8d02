-- ===== src/UdpOverTcp/Delivery.antt =====
-- accept_udp.go: what a receiver's loop writes to its UDP socket.
use backhaul_plus.Prelude.{
  ℕ, suc, zero, ◌<◌, ◌≤◌, ◌≡◌, refl, sym, ap, ◌∙◌, false, true, List, [], ◌∷◌, ◌++◌, Option, some,
  All, arith, length, append_assoc, append-nil, ◌==◌, if◌then◌else◌, Bool-cases, inl, Bool, inr,
}
use backhaul_plus.Strings.{Bytes}
use backhaul_plus.Stream.{Conn, stream}
use backhaul_plus.UdpOverTcp.{
  Relay, UdpSocket, forward, forwarded, packet_read, client_tcp_to_udp, read_packet, buffer_size,
  counted,
}
use backhaul_plus.UdpOverTcp.Packets.{
  Cut, whole, short, frame, read_packet-Cut, read_packet-end, append_nil_inv,
}

-- The packets of a list that are not empty.
abbrev pub kept : Bytes → List Bytes
kept packet = if length packet == 0 then [] else packet ∷ []

abbrev pub non_empty : List Bytes → List Bytes
non_empty [] = []
non_empty (packet ∷ packets) = kept packet ++ non_empty packets

abbrev pub Fits : Bytes → Type 0
Fits packet = length packet ≤ buffer_size

forward_lem :
    (packet : Bytes) (s : UdpSocket)
    → s.failing ≡ false
    → forward packet s ≡ (true, record s { sent = s.sent ++ kept packet })
unfolding forward
forward_lem packet s h = elim (Bool-cases (length packet == 0)) [
  | inl empty ↦ rw (empty, append-nil s.sent) refl
  | inr full ↦ rw (full, h) refl
]

-- A front part of the packets was written, each of them whole; all of them if nothing is lost.
pub record Delivered (packets : List Bytes) (lost : Bytes) (r r' : Relay) : Type 0 where
  pub front : List Bytes
  pub back : List Bytes
  pub split : packets ≡ front ++ back
  pub sent : r'.udp.sent ≡ r.udp.sent ++ non_empty front
  pub complete : lost ≡ [] → back ≡ []

-- Nothing is written.
pub stopped :
    (packets : List Bytes) (lost : Bytes) (r r' : Relay)
    → r'.udp.sent ≡ r.udp.sent
    → (lost ≡ [] → packets ≡ [])
    → Delivered packets lost r r'
stopped packets lost r r' same h = record {
  front = [];
  back = packets;
  split = refl;
  sent = same ∙ sym (append-nil r.udp.sent);
  complete = h;
}

-- One more packet in front.
one_more :
    (packet : Bytes) (packets : List Bytes) (lost : Bytes) (r r1 r' : Relay)
    → r1.udp.sent ≡ r.udp.sent ++ kept packet
    → Delivered packets lost r1 r'
    → Delivered (packet ∷ packets) lost r r'
one_more packet packets lost r r1 r' e d = record {
  front = packet ∷ d.front;
  back = d.back;
  split = ap (◌∷◌ packet) d.split;
  sent =
      d.sent
      ∙ ap (λ (t : List Bytes). t ++ non_empty d.front) e
      ∙ append_assoc r.udp.sent (kept packet) (non_empty d.front);
  complete = d.complete;
}

-- The bytes that the server sends for these packets.
abbrev pub frames : List Bytes → Bytes
frames [] = []
frames (packet ∷ packets) = frame packet ++ frames packets

module _ (sniffer : Bool) (port : ℕ) where
  -- A round of either loop, whose further rounds are `next`; `Then` is what they leave if nothing is
  -- lost, from a connection with the mark `mark`.
  pub packet_read-Delivered :
      (next : Relay → Option Relay) (Then : Relay → Type 0) (mark : Bool) (packet : Bytes)
      (packets : List Bytes) (rest lost : Bytes)
      → ((r : Relay)
          → r.udp.failing ≡ false
          → r.is_congested ≡ mark
          → stream r.tcp ++ lost ≡ rest
          → (r' : Relay) × (next r ≡ some r') × Delivered packets lost r r' × (lost ≡ [] → Then r'))
      → (r : Relay) (p : Option Bytes × Conn) → r.udp.failing ≡ false
      → r.is_congested ≡ mark
      → Cut packet rest lost p
      → (r' : Relay) × (packet_read sniffer port next r p ≡ some r')
        × Delivered (packet ∷ packets) lost r r'
        × (lost ≡ [] → Then r')
  unfolding packet_read forwarded
  packet_read-Delivered next Then mark packet packets rest lost ih r p h c (short tcp lacking) = (
    record r { tcp = tcp },
    refl,
    stopped _ lost r _ refl (λ e. absurd (lacking e)),
    λ e. absurd (lacking e),
  )
  packet_read-Delivered next Then mark packet packets rest lost ih r p h c (whole tcp s) =
      let r1 : Relay = record r {
        tcp = tcp;
        udp = record r.udp { sent = r.udp.sent ++ kept packet };
        usage = counted sniffer port (length packet) r.usage;
      } in
      let (r', e, d, t) = ih r1 h c s in
      (
        r',
        ap (forwarded sniffer port next packet (record r { tcp = tcp }))
              (forward_lem packet r.udp h)
            ∙ e,
        one_more packet packets lost r r1 r' refl d,
        t,
      )

  -- A client that reads the server's packets, of which the last bytes may be lost, comes to an end and
  -- has then written the datagrams of a front part of them, each whole, in order, without the empty ones:
  -- of all of them if nothing is lost.
  pub client_tcp_to_udp-Delivered :
      (packets : List Bytes) (fuel : ℕ) (r : Relay) (lost : Bytes)
      → r.udp.failing ≡ false
      → All Fits packets
      → stream r.tcp ++ lost ≡ frames packets
      → length packets < fuel
      → (r' : Relay) × (client_tcp_to_udp sniffer port fuel r ≡ some r')
        × Delivered packets lost r r'
  unfolding client_tcp_to_udp packet_read
  client_tcp_to_udp-Delivered packets zero r lost h a s l = absurd (omega arith)
  client_tcp_to_udp-Delivered [] (suc fuel) r lost h a s l =
      let (tcp, e) = read_packet-end r.tcp (append_nil_inv (stream r.tcp) lost s) in
      (
        record r { tcp = tcp },
        ap (packet_read sniffer port (client_tcp_to_udp sniffer port fuel) r) e,
        stopped [] lost r _ refl (λ _. refl),
      )
  client_tcp_to_udp-Delivered (packet ∷ packets) (suc fuel) r lost h a s l =
      let (r', e, d, _) =
        packet_read-Delivered (client_tcp_to_udp sniffer port fuel) (λ _. Unit {0}) r.is_congested
          packet packets (frames packets) lost
          (λ r1 h1 c1 s1.
            let (r', e, d) =
              client_tcp_to_udp-Delivered packets fuel r1 lost h1 a.1 s1 (omega arith) in
            (r', e, d, λ _. tt))
          r (read_packet r.tcp) h refl (read_packet-Cut packet (frames packets) lost r.tcp a.0 s) in
      (r', e, d)
