-- ===== src/UdpOverTcp/Stamped.antt =====
-- accept_udp.go: what the server writes of the packets that carry their time of sending.
use backhaul_plus.Prelude.{
  ℕ, suc, zero, ◌+◌, ◌%◌, ◌*◌, ltb, ◌<◌, ◌≡◌, refl, sym, ap, ◌∙◌, false, Bool, ◌||◌, List, [], ◌∷◌,
  ◌++◌, Option, some, All, arith, length,
}
use backhaul_plus.Strings.{Bytes}
use backhaul_plus.Stream.{Conn, stream}
use backhaul_plus.UdpOverTcp.{
  Relay, stamp_read, server_tcp_to_udp, read_packet, put_uint32, is_late,
}
use backhaul_plus.UdpOverTcp.Packets.{
  Cut, whole, short, frame, or_end-Cut, or_end-end, read_packet-Cut, append_nil_inv,
  uint32-put_uint32,
}
use backhaul_plus.UdpOverTcp.Delivery.{Fits, Delivered, stopped, packet_read-Delivered}

-- A datagram and the time, in milliseconds, at which the client read it.
abbrev pub Stamped : Type 0
Stamped = ℕ × Bytes

abbrev pub stamp : ℕ → Bytes
stamp now = put_uint32 (now % 600000)

-- The bytes that the client sends for these.
abbrev pub stamped_frames : List Stamped → Bytes
stamped_frames [] = []
stamped_frames ((now, packet) ∷ rest) = stamp now ++ (frame packet ++ stamped_frames rest)

abbrev pub datagrams : List Stamped → List Bytes
datagrams [] = []
datagrams ((now, packet) ∷ rest) = packet ∷ datagrams rest

-- For some packet the time within ten minutes at which it is read, at the rounds from `k` on, is more than
-- three round trips above that at which it was sent.
abbrev pub any_late : ℕ → (ℕ → ℕ) → ℕ → List Stamped → Bool
any_late rtt clock k [] = false
any_late rtt clock k ((sent_at, packet) ∷ rest) =
    ltb (sent_at % 600000 + 3 * rtt) (clock k % 600000) || any_late rtt clock (suc k) rest

is_late-stamp :
    (rtt now sent_at : ℕ)
    → is_late rtt now (stamp sent_at) ≡ ltb (sent_at % 600000 + 3 * rtt) (now % 600000)
unfolding is_late
is_late-stamp rtt now sent_at =
    ap (λ (v : ℕ). ltb (v + 3 * rtt) (now % 600000))
      (uint32-put_uint32 (sent_at % 600000) (omega arith))

or_swap : (a b c : Bool) → (a || (b || c)) ≡ ((b || a) || c)
or_swap a b c = ground arith

module _ (sniffer : Bool) (port rtt : ℕ) (clock : ℕ → ℕ) where
  -- What a loop is to do with these: write them, and mark the connection if one of them is late.
  abbrev pub Done : ℕ → List Stamped → Bytes → Relay → Relay → Type 0
  Done k packets lost r r' =
      Delivered (datagrams packets) lost r r'
      × (lost ≡ [] → r'.is_congested ≡ (r.is_congested || any_late rtt clock k packets))

  or_false : (b : Bool) → b ≡ (b || false)
  or_false b = ground arith

  -- A round of the loop, whose further rounds are `next`.
  server_round :
      (now : ℕ) (packet : Bytes) (packets : List Stamped) (k : ℕ) (next : Relay → Option Relay)
      {lost : Bytes}
      → ((r : Relay)
          → r.udp.failing ≡ false
          → stream r.tcp ++ lost ≡ stamped_frames packets
          → (r' : Relay) × (next r ≡ some r') × Done (suc k) packets lost r r')
      → (r : Relay) (p : Option Bytes × Conn) → r.udp.failing ≡ false
      → Fits packet
      → Cut (stamp now) (frame packet ++ stamped_frames packets) lost p
      → (r' : Relay) × (stamp_read sniffer port next rtt (clock k) r p ≡ some r')
        × Done k ((now, packet) ∷ packets) lost r r'
  unfolding stamp_read
  server_round now packet packets k next ih r p h a (short tcp lacking) = (
    record r { tcp = tcp },
    refl,
    (stopped _ _ r _ refl (λ e. absurd (lacking e)), λ e. absurd (lacking e)),
  )
  server_round now packet packets k next {lost} ih r p h a (whole tcp s) =
      let marked : Relay = record r {
        is_congested = is_late rtt (clock k) (stamp now) || r.is_congested;
      } in
      let (r', e, d, t) =
        packet_read-Delivered sniffer port next
          (λ r'. r'.is_congested ≡ (marked.is_congested || any_late rtt clock (suc k) packets))
          marked.is_congested packet (datagrams packets) (stamped_frames packets) lost
          (λ r1 h1 c1 s1.
            let (r2, e2, (d2, t2)) = ih r1 h1 s1 in
            (r2, e2, d2, λ n. t2 n ∙ ap (λ (b : Bool). b || any_late rtt clock (suc k) packets) c1))
          marked (read_packet tcp) h refl
          (read_packet-Cut packet (stamped_frames packets) lost tcp a s) in
      (
        r',
        e,
        (
          record {
            front = d.front;
            back = d.back;
            split = d.split;
            sent = d.sent;
            complete = d.complete;
          },
          λ n. t n ∙ marks packets (is_late-stamp rtt (clock k) now),
        ),
      )
    where
      marks :
          (packets : List Stamped) {b late : Bool}
          → late ≡ b
          → ((late || r.is_congested) || any_late rtt clock (suc k) packets)
            ≡ (r.is_congested || (b || any_late rtt clock (suc k) packets))
      marks packets {b} e =
          rw e (sym (or_swap r.is_congested b (any_late rtt clock (suc k) packets)))

  -- A server that reads the client's packets, of which the last bytes may be lost, comes to an end and
  -- has then written the datagrams of a front part of them, each whole, in order, without the empty ones.
  -- If nothing is lost it has written all, and has marked the connection as congested exactly if it was
  -- so before or a packet is late by the times within ten minutes.
  pub server_tcp_to_udp-Done :
      (packets : List Stamped) (k fuel : ℕ) (r : Relay) (lost : Bytes)
      → r.udp.failing ≡ false
      → All Fits (datagrams packets)
      → stream r.tcp ++ lost ≡ stamped_frames packets
      → length packets < fuel
      → (r' : Relay) × (server_tcp_to_udp sniffer port rtt clock k fuel r ≡ some r')
        × Done k packets lost r r'
  unfolding server_tcp_to_udp stamp_read
  server_tcp_to_udp-Done packets k zero r lost h a s l = absurd (omega arith)
  server_tcp_to_udp-Done [] k (suc fuel) r lost h a s l =
      let (tcp, e) = or_end-end 3 r.tcp (append_nil_inv (stream r.tcp) lost s) in
      (
        record r { tcp = tcp },
        ap
            (stamp_read sniffer port (server_tcp_to_udp sniffer port rtt clock (suc k) fuel) rtt
              (clock k) r)
            e,
        (stopped [] lost r _ refl (λ _. refl), λ _. or_false r.is_congested),
      )
  server_tcp_to_udp-Done ((now, packet) ∷ packets) k (suc fuel) r lost h a s l =
      let next : Relay → Option Relay = server_tcp_to_udp sniffer port rtt clock (suc k) fuel in
      let cut = or_end-Cut (stamp now) (frame packet ++ stamped_frames packets) lost r.tcp s in
      server_round now packet packets k next
        (λ r1 h1 s1. server_tcp_to_udp-Done packets (suc k) fuel r1 lost h1 a.1 s1 (omega arith)) r
        _ h a.0 cut
