-- ===== src/Ws/Conserved.antt =====
-- Where the connections of the WebSocket server are in a run.
mod Arrivals
mod Loops
mod Control
use backhaul_plus.Signals.{sg_chan, sg_hb}
use backhaul_plus.Prelude.{
  ℕ, zero, suc, ◌+◌, ◌≡◌, refl, ap, Bool, true, false, ◌&&◌, List, [], ◌∷◌, ◌++◌, map, Option, none,
  some, ltb, ◌==◌, if◌then◌else◌, length, if_cases, arith, ◌-◌, remove_at,
}
use backhaul_plus.Registry.{has_room}
use backhaul_plus.Strings.{Bytes, codes, equal, has_prefix}
use backhaul_plus.Ws.Server.{
  Event, http_request, looked_on, accept, inbound, take_inbound, loop_done, check, pair,
  waiting_done, keeper_done, copy_ended, queued_ping, new_conn, heartbeat, done, read, read_nil,
  read_error, reader_done, message, stop, listener_done, restart, restarted, step, run,
}
use backhaul_plus.Ws.Server.State.{Inbound, Waiting, Copy, WsTransport, new_ws_server}
use backhaul_plus.Ws.Server.Requests.{
  on_control, on_tunnel, on_path, on_request, inbound_queued, on_accept, on_inbound,
}
use backhaul_plus.Ws.Server.Loops.{on_take, on_check, on_pair, on_copied}
use backhaul_plus.Ws.Places.{
  one, occ, occ-append, occ-map, Removed, remove_at-Removed, inbound_id, waiting_id, copy_id,
  copy_socket, looked_socket, itself, inbound_places, socket_places, IsConserved, below-suc,
}
use backhaul_plus.Ws.Conserved.Arrivals.{
  looked-IsConserved, path-IsConserved, queued-IsConserved, accept-IsConserved,
}
use backhaul_plus.Ws.Conserved.Loops.{
  take-IsConserved, check-IsConserved, pair-IsConserved, loop_done-IsConserved,
  waiting_done-IsConserved, keeper-IsConserved, copied-IsConserved,
}
use backhaul_plus.Ws.Conserved.Control.{
  restarted-IsConserved, new_conn-IsConserved, heartbeat-IsConserved, done-IsConserved,
  read-IsConserved, read_nil-IsConserved, reader-IsConserved, message-IsConserved,
  restart-IsConserved,
}

module _ (i : ℕ) where
  module _ (token : Bytes) (size : ℕ) where
    step-IsConserved :
        (e : Event) (s : WsTransport) → IsConserved i s → IsConserved i (step token size e s)
    unfolding step on_request on_inbound backhaul_plus.Ws.Server.Control.on_stop
    step-IsConserved (http_request cpus r) s h =
        if_cases (IsConserved i) (equal r.authorization (codes "Bearer " ++ token) && r.upgrades)
          (λ let_in. path-IsConserved i size cpus r.path s h) (λ refused. h)
    step-IsConserved (looked_on n) s h =
        looked-IsConserved i (remove_at n s.looked) s (remove_at-Removed looked_socket i n s.looked)
          h
    step-IsConserved (accept now target) s h = accept-IsConserved i size now target s h
    step-IsConserved (inbound now target port) s h =
        if_cases (IsConserved i) (s.ready && has_room size (length s.local_channel))
          (λ taken. queued-IsConserved i size now target port s h) (λ refused. h)
    step-IsConserved take_inbound s h = take-IsConserved i s.local_channel s refl h
    step-IsConserved loop_done s h = loop_done-IsConserved i s h
    step-IsConserved (check n now) s h =
        check-IsConserved i now (remove_at n s.waiting) s
          (remove_at-Removed waiting_id i n s.waiting) h
    step-IsConserved (pair n ok) s h =
        pair-IsConserved i ok (remove_at n s.waiting) s.tunnel_channel s
          (remove_at-Removed waiting_id i n s.waiting) refl h
    step-IsConserved (waiting_done n) s h =
        waiting_done-IsConserved i (remove_at n s.waiting) s
          (remove_at-Removed waiting_id i n s.waiting) h
    step-IsConserved (keeper_done n) s h = (keeper-IsConserved i n true s h).1
    step-IsConserved (copy_ended n) s h =
        copied-IsConserved i (remove_at n s.copies) s (remove_at-Removed copy_id i n s.copies)
          (remove_at-Removed copy_socket i n s.copies) h
    step-IsConserved (queued_ping n ok) s h = (keeper-IsConserved i n ok s h).0
    step-IsConserved (new_conn n ok) s h = new_conn-IsConserved i s h ok (remove_at n s.handlers)
    step-IsConserved (heartbeat n ok) s h = heartbeat-IsConserved i s h ok (remove_at n s.handlers)
    step-IsConserved (done n ok) s h = done-IsConserved i s h ok (remove_at n s.handlers)
    step-IsConserved (read n msg) s h = read-IsConserved i s h msg (remove_at n s.handlers)
    step-IsConserved (read_nil n) s h =
        read_nil-IsConserved i s h s.control_channel (remove_at n s.handlers)
    step-IsConserved (read_error n) s h = (reader-IsConserved i s h (remove_at n s.handlers)).0
    step-IsConserved (reader_done n) s h = (reader-IsConserved i s h (remove_at n s.handlers)).1
    step-IsConserved (message n) s h = message-IsConserved i s h (remove_at n s.handlers)
    step-IsConserved stop s h = record { of_inbound = h.of_inbound; of_sockets = h.of_sockets }
    step-IsConserved listener_done s h = (restart-IsConserved i s h).0
    step-IsConserved restart s h = (restart-IsConserved i s h).1
    step-IsConserved restarted s h = restarted-IsConserved i s h

    events-IsConserved :
        (es : List Event) (s : WsTransport) → IsConserved i s → IsConserved i (run token size es s)
    unfolding run
    events-IsConserved [] s h = h
    events-IsConserved (e ∷ es) s h =
        events-IsConserved es (if s.crashed then s else step token size e s)
          (if_cases (IsConserved i) s.crashed (λ crashed. h) (λ alive. step-IsConserved e s h))

new_ws_server-IsConserved : (i : ℕ) → IsConserved i new_ws_server
new_ws_server-IsConserved i = record { of_inbound = ground arith; of_sockets = ground arith }

-- In every run of the WebSocket server, however its goroutines are interleaved and whatever fails, each
-- inbound connection that it took is in exactly one place: queued, in a loop that waits for a tunnel
-- connection, copied, closed, or lost; and each WebSocket that it upgraded is the control channel, held by
-- a handler that is to make it that or refuse it, queued, copied, closed, left alone, or formerly the
-- control channel or in a queue that a restart replaced. So no two copies share a connection.
pub ws_run-IsConserved :
    (token : Bytes) (size : ℕ) (es : List Event) (i : ℕ)
    → IsConserved i (run token size es new_ws_server)
ws_run-IsConserved token size es i =
    events-IsConserved i token size es new_ws_server (new_ws_server-IsConserved i)
