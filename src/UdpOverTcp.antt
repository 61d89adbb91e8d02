-- ===== src/UdpOverTcp.antt =====
-- internal/server/transport/accept_udp.go and internal/client/transport/accept_udp.go: datagrams
-- carried over a TCP tunnel connection. A server's packet is a length and the datagram; a client's
-- has the time of sending in front.
pub mod Packets
pub mod Delivery
pub mod Stamped
pub mod Age
pub mod EndToEnd
use backhaul_plus.Prelude.{
  ℕ, zero, suc, ◌+◌, ◌*◌, ◌/◌, ◌%◌, Bool, true, false, ◌||◌, List, [], ◌∷◌, ◌++◌, Option, none,
  some, ltb, ◌==◌, if◌then◌else◌, length, take, get_or,
}
use backhaul_plus.Result.{Result, ok, err, panic, stuck}
use backhaul_plus.Stream.{IoError, Conn, read_full, write}
use backhaul_plus.Strings.{Bytes}
use backhaul_plus.Usage.{UsageMap, add_or_update_port}
use backhaul_plus.Wire.{put_uint16, uint16}

abbrev pub buffer_size : ℕ
buffer_size = 16384

-- What was written to a UDP socket, and whether it fails.
pub record UdpSocket : Type 0 where
  pub sent : List Bytes
  pub failing : Bool

-- The variables of a copy in one direction; only the server has `IsCongested`.
pub record Relay : Type 0 where
  pub tcp : Conn
  pub udp : UdpSocket
  pub usage : UsageMap
  pub is_congested : Bool

-- `if sniffer { usage.AddOrUpdatePort(…) }`
abbrev pub counted : Bool → ℕ → ℕ → UsageMap → UsageMap
counted sniffer port n m = if sniffer then add_or_update_port port n m else m

-- `for totalWritten < packetSize`: a datagram is written whole, and nothing is written of an empty one.
unfoldable pub forward : Bytes → UdpSocket → Bool × UdpSocket
forward packet s =
    if length packet == 0
    then (true, s)
    else if s.failing
    then (false, s)
    else (true, record s { sent = s.sent ++ (packet ∷ []) })

-- A read that fails ends the copy.
abbrev pub or_end : Result IoError Bytes × Conn → Option Bytes × Conn
or_end (ok bytes, tcp) = (some bytes, tcp)
or_end (err e, tcp) = (none, tcp)
or_end (panic, tcp) = (none, tcp)
or_end (stuck, tcp) = (none, tcp)

-- The packet behind its length; one that is larger than the buffer ends the copy.
unfoldable pub read_body : Option Bytes × Conn → Option Bytes × Conn
read_body (none, tcp) = (none, tcp)
read_body (some header, tcp) =
    if ltb buffer_size (uint16 header) then (none, tcp) else or_end (read_full (uint16 header) tcp)

unfoldable pub read_packet : Conn → Option Bytes × Conn
unfolding read_body
read_packet tcp = read_body (or_end (read_full 2 tcp))

-- `binary.BigEndian.PutUint32` and `Uint32`.
abbrev pub put_uint32 : ℕ → Bytes
put_uint32 v = (v / 16777216 % 256) ∷ (v / 65536 % 256) ∷ (v / 256 % 256) ∷ (v % 256) ∷ []

abbrev pub uint32 : Bytes → ℕ
uint32 b = get_or b 0 0 * 16777216 + get_or b 1 0 * 65536 + get_or b 2 0 * 256 + get_or b 3 0

-- A packet is late when the difference of the times, in milliseconds within ten minutes, is more than
-- three round trips.
unfoldable pub is_late : ℕ → ℕ → Bytes → Bool
is_late rtt now header = ltb (uint32 header + 3 * rtt) (now % 600000)

-- `UDPConnectionHandler` takes 100 ms for a round trip that was not measured.
abbrev pub effective_rtt : ℕ → ℕ
effective_rtt rtt = if rtt == 0 then 100 else rtt

module _ (sniffer : Bool) (port : ℕ) where
  -- Behind the write of a packet: the next round, or the end.
  unfoldable pub forwarded :
      (Relay → Option Relay) → Bytes → Relay → Bool × UdpSocket → Option Relay
  forwarded next packet r (true, udp) =
      next (record r { udp = udp; usage = counted sniffer port (length packet) r.usage })
  forwarded next packet r (false, udp) = some (record r { udp = udp })

  unfoldable pub packet_read : (Relay → Option Relay) → Relay → Option Bytes × Conn → Option Relay
  unfolding forwarded
  packet_read next r (none, tcp) = some (record r { tcp = tcp })
  packet_read next r (some packet, tcp) =
      forwarded next packet (record r { tcp = tcp }) (forward packet r.udp)

  -- `tcpToUDP` of the client; `none` is the end of the fuel.
  unfoldable pub client_tcp_to_udp : ℕ → Relay → Option Relay
  client_tcp_to_udp zero r = none
  client_tcp_to_udp (suc fuel) r = packet_read (client_tcp_to_udp fuel) r (read_packet r.tcp)

  -- The server's copy reads the time of sending first.
  unfoldable pub stamp_read :
      (Relay → Option Relay) → ℕ → ℕ → Relay → Option Bytes × Conn → Option Relay
  unfolding packet_read
  stamp_read next rtt now r (none, tcp) = some (record r { tcp = tcp })
  stamp_read next rtt now r (some header, tcp) =
      packet_read next (record r { is_congested = is_late rtt now header || r.is_congested })
        (read_packet tcp)

  -- `tcpToUDP` of the server; `clock` is the time of each round, of which `k` are over.
  unfoldable pub server_tcp_to_udp : ℕ → (ℕ → ℕ) → ℕ → ℕ → Relay → Option Relay
  server_tcp_to_udp rtt clock k zero r = none
  server_tcp_to_udp rtt clock k (suc fuel) r =
      stamp_read (server_tcp_to_udp rtt clock (suc k) fuel) rtt (clock k) r
        (or_end (read_full 4 r.tcp))

  abbrev pub after_write :
      (Conn × UsageMap → Conn × UsageMap) → ℕ → UsageMap → Option IoError × Conn → Conn × UsageMap
  after_write next n m (some e, tcp) = (tcp, m)
  after_write next n m (none, tcp) = next (tcp, counted sniffer port n m)

  -- `udpToTCP` of the server, on the packets of the payload channel until it is closed or a minute
  -- passes without one.
  unfoldable pub server_udp_to_tcp : List Bytes → Conn × UsageMap → Conn × UsageMap
  server_udp_to_tcp [] s = s
  server_udp_to_tcp (packet ∷ packets) (tcp, m) =
      if ltb 65535 (length packet)
      then server_udp_to_tcp packets (tcp, m)
      else after_write (server_udp_to_tcp packets) (2 + length packet) m
          (write (put_uint16 (length packet) ++ packet) tcp)

  -- `udpToTCP` of the client: a datagram and the time at which it is read, until a read fails. A
  -- datagram is cut to the buffer.
  unfoldable pub client_udp_to_tcp : List (ℕ × Bytes) → Conn × UsageMap → Conn × UsageMap
  client_udp_to_tcp [] s = s
  client_udp_to_tcp ((now, datagram) ∷ rest) (tcp, m) =
      let packet = take 16378 datagram in
      after_write (client_udp_to_tcp rest) (6 + length packet) m
        (write (put_uint32 (now % 600000) ++ (put_uint16 (length packet) ++ packet)) tcp)
