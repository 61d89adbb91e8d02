-- ===== src/Pairing.antt =====
-- `handleLoop` of internal/server/transport/tcp.go: an inbound connection waits for a tunnel connection
-- and is announced on it; and `tunnelDialer` of internal/client/transport/tcp.go, which reads the
-- announcement at the other end.
pub mod Announced
use backhaul_plus.Prelude.{ℕ, ◌+◌, List, [], ◌∷◌, Option, none, some, ltb, ℤ, ◌==◌, if◌then◌else◌}
use backhaul_plus.Client.{resolve_remote_addr}
use backhaul_plus.Control.{close_any}
use backhaul_plus.Registry.{LocalTcpConn}
use backhaul_plus.Result.{Result, ok, err, panic, stuck}
use backhaul_plus.Signals.{sg_tcp, sg_udp}
use backhaul_plus.Strings.{Bytes}
use backhaul_plus.Wire.{
  AnyConn, WireError, send_binary_transport_string, receive_binary_transport_string,
}

-- How the inner loop ends: copying starts, the inbound connection is closed for its age, or it still
-- waits; with the tunnel connections that were closed and those that were not taken.
pub data Outcome : Type 0 where
  copying : AnyConn → Outcome
  timed_out waiting : Outcome

pub record Looped : Type 0 where
  pub outcome : Outcome
  pub closed : List AnyConn
  pub left : List (ℕ × AnyConn)

abbrev pub and_closed : AnyConn → Looped → Looped
and_closed c l = record l { closed = c ∷ l.closed }

abbrev pub announced : Looped → List (ℕ × AnyConn) → Result WireError (Unit {0}) × AnyConn → Looped
announced again rest (ok _, c) = record { outcome = copying c; closed = []; left = rest }
announced again rest (err e, c) = and_closed (close_any c) again
announced again rest (panic, c) = again
announced again rest (stuck, c) = again

-- `loop` of `handleLoop`: a tunnel connection and the time at which the loop comes to wait for it.
unfoldable pub handle_local : LocalTcpConn → List (ℕ × AnyConn) → Looped
handle_local entry [] = record { outcome = waiting; closed = []; left = [] }
handle_local entry ((now, tunnel) ∷ rest) =
    let again = handle_local entry rest in
    if ltb (entry.time_created + 3000) now
    then record { outcome = timed_out; closed = []; left = (now, tunnel) ∷ rest }
    else announced again rest (send_binary_transport_string tunnel entry.remote_addr sg_tcp)

-- What `tunnelDialer` does with the connection that it dialed.
pub data Dialed : Type 0 where
  dial_local dial_udp : ℤ → Bytes → AnyConn → Dialed
  hung_up : AnyConn → Dialed

abbrev pub by_transport : ℕ → AnyConn → Option (ℤ × Bytes) → Dialed
by_transport transport c none = hung_up (close_any c)
by_transport transport c (some (port, addr)) =
    if transport == sg_tcp
    then dial_local port addr c
    else if transport == sg_udp
    then dial_udp port addr c
    else hung_up (close_any c)

unfoldable pub announcement_read : Result WireError (Bytes × ℕ) × AnyConn → Dialed
announcement_read (ok (remote_addr, transport), c) =
    by_transport transport c (resolve_remote_addr remote_addr)
announcement_read (err e, c) = hung_up (close_any c)
announcement_read (panic, c) = hung_up c
announcement_read (stuck, c) = hung_up c

-- `tunnelDialer`, from the dialed connection on.
unfoldable pub tunnel_dialer : AnyConn → Dialed
unfolding announcement_read
tunnel_dialer c = announcement_read (receive_binary_transport_string c)
