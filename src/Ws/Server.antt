-- ===== src/Ws/Server.antt =====
-- The server of internal/server/transport/ws.go: its requests, its queues, the control channel and the
-- restart. An inbound connection and a WebSocket stand for themselves by number, in the order in which
-- they came. A run interleaves the goroutines; a write fails where its event says so or the connection
-- is closed. A goroutine's pass is cut where it may block, and a handler of `/channel` between its test of
-- `s.controlChannel` and what follows. A goroutine that has read a context which a restart cancels may end
-- at any time from then on, or never.
pub mod State
pub mod Requests
pub mod Loops
pub mod Control
use backhaul_plus.Prelude.{ℕ, Bool, List, [], ◌∷◌, if◌then◌else◌, remove_at}
use backhaul_plus.Strings.{Bytes}
use backhaul_plus.Ws.Server.State.{WsTransport}
use backhaul_plus.Ws.Server.Requests.{Request, on_request, on_looked, on_accept, on_inbound}
use backhaul_plus.Ws.Server.Loops.{
  on_take, on_check, on_pair, on_loop_done, on_waiting_done, on_queued_ping, on_keeper_done,
  on_copied,
}
use backhaul_plus.Ws.Server.Control.{
  on_new_conn, on_heartbeat, on_done, on_read, on_read_nil, on_read_error, on_reader_done,
  on_message, on_stop, on_listener_done, on_restart, on_restarted,
}

-- A number is a position: of a handler of `/channel`, of a loop that has a connection, in the queue, of a
-- copy or of a `channelHandler`.
pub data Event : Type 0 where
  http_request : ℕ → Request → Event
  looked_on : ℕ → Event
  accept : ℕ → Bytes → Event
  inbound : ℕ → Bytes → ℕ → Event
  take_inbound loop_done : Event
  check : ℕ → ℕ → Event
  pair : ℕ → Bool → Event
  waiting_done keeper_done copy_ended : ℕ → Event
  queued_ping new_conn heartbeat done : ℕ → Bool → Event
  read : ℕ → Bytes → Event
  read_nil read_error reader_done message : ℕ → Event
  stop listener_done restart restarted : Event

-- An event that cannot happen is passed over.
unfoldable pub step : Bytes → ℕ → Event → WsTransport → WsTransport
unfolding on_request on_looked on_accept on_inbound on_take on_check on_pair on_loop_done
    on_waiting_done on_queued_ping on_keeper_done on_copied on_new_conn on_heartbeat on_done on_read
    on_read_nil on_read_error on_reader_done on_message on_stop on_listener_done on_restart
    on_restarted
step token size (http_request cpus r) s = on_request size token cpus r s
step token size (looked_on i) s = on_looked (remove_at i s.looked) s
step token size (accept now remote_addr) s = on_accept size now remote_addr s
step token size (inbound now target port) s = on_inbound size now target port s
step token size take_inbound s = on_take s.local_channel s
step token size loop_done s = on_loop_done s
step token size (check i now) s = on_check now (remove_at i s.waiting) s
step token size (pair i ok) s = on_pair ok (remove_at i s.waiting) s.tunnel_channel s
step token size (waiting_done i) s = on_waiting_done (remove_at i s.waiting) s
step token size (keeper_done i) s = on_keeper_done i s
step token size (copy_ended i) s = on_copied (remove_at i s.copies) s
step token size (queued_ping i ok) s = on_queued_ping i ok s
step token size (new_conn i ok) s = on_new_conn ok (remove_at i s.handlers) s
step token size (heartbeat i ok) s = on_heartbeat ok (remove_at i s.handlers) s
step token size (done i ok) s = on_done ok (remove_at i s.handlers) s
step token size (read i msg) s = on_read msg (remove_at i s.handlers) s
step token size (read_nil i) s = on_read_nil s.control_channel (remove_at i s.handlers) s
step token size (read_error i) s = on_read_error (remove_at i s.handlers) s
step token size (reader_done i) s = on_reader_done (remove_at i s.handlers) s
step token size (message i) s = on_message (remove_at i s.handlers) s
step token size stop s = on_stop s
step token size listener_done s = on_listener_done s
step token size restart s = on_restart s
step token size restarted s = on_restarted s

-- A panic ends the program.
unfoldable pub run : Bytes → ℕ → List Event → WsTransport → WsTransport
unfolding step
run token size [] s = s
run token size (e ∷ es) s = run token size es (if s.crashed then s else step token size e s)
