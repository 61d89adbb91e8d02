-- ===== src/Tests/Tunnels.antt =====
-- Control channels, sessions and pools at concrete inputs.
use backhaul_plus.Tunnels
use backhaul_plus.Tunnels.{Peer, TunnelSide, handshake}
use backhaul_plus.Prelude.{
  if◌then◌else◌, ltb, ℕ, ◌+◌, ◌≤◌, ◌≡◌, ◌≢◌, refl, arith, true, List, [], ◌∷◌, ◌++◌, none, some, ℤ,
}
use backhaul_plus.Client.{resolve_remote_addr}
use backhaul_plus.Control.{established, greet, await_response, send_hello, deadline_error}
use backhaul_plus.Control.Handshake.{IsRefused, handshake_lem}
use backhaul_plus.Dialing.{Attempt, connected, failed, second_ns, tcp_dialer}
use backhaul_plus.Dialing.Backoff.{doubling, tcp_dialer_lem}
use backhaul_plus.Pairing.{copying, handle_local, tunnel_dialer, dial_local}
use backhaul_plus.Pairing.Announced.{Carries, handle_local-Carries}
use backhaul_plus.Pool
use backhaul_plus.Pool.{Pool, filled, ticked_pool, ticked_load, sent_flow, message}
use backhaul_plus.Pool.Balance.{requests_in, pending, run-dials}
use backhaul_plus.Prefixed.{plain}
use backhaul_plus.Registry.{LocalTcpConn}
use backhaul_plus.Signals.{sg_chan}
use backhaul_plus.Stream.{Conn, stream, eof, connection_reset}
use backhaul_plus.Strings.{Bytes, codes}
use backhaul_plus.TcpMux.{
  ControlConn, Controls, probe, promoted, broadcast_heartbeat, send_new_conn_signal,
}
use backhaul_plus.TcpMux.Probe.{IsHandled, probe-IsHandled}
use backhaul_plus.TcpMux.RoundRobin.{Requested, send_new_conn_signal-Requested}
use backhaul_plus.TcpMux.Sessions.{
  Pipeline, Session, Action, World, for_slot, new_session, session_step, inbound, accepted,
  taken_up, session_at, acquired, received, carried,
}
use backhaul_plus.TcpMux.Sessions.Conservation
use backhaul_plus.TcpMux.Sessions.Exhausted.{
  failed_rounds, slots_taken, queued_alone, failed_rounds-exhausted,
}
use backhaul_plus.Tests.{conn_of}
use backhaul_plus.Wire.{AnyConn, net_conn, transport_frame}
use backhaul_plus.Wire.RoundTrip.{outgoing, incoming, IsKnown}

abbrev key : Bytes
key = codes "key"

-- A frame of the token and one byte more.
abbrev hello : Conn
hello = conn_of ((0 ∷ 3 ∷ []) ∷ (sg_chan ∷ codes "ke") ∷ (b'y' ∷ 9 ∷ []) ∷ [])

probe-IsHandled_example : IsHandled key (stream hello) [] (probe key hello)
probe-IsHandled_example = probe-IsHandled key hello refl

abbrev broken : Conn
broken = record (conn_of []) { write_error = some connection_reset }

abbrev control_of : Conn → ControlConn
control_of c = record { conn = c; ip = codes "10.0.0.1" }

abbrev sample_controls : Controls
sample_controls = record {
  control_channel = some (control_of (conn_of []));
  extra_ctrl_conns = control_of broken ∷ control_of hello ∷ [];
  rr_control_idx = 1;
}

send_new_conn_signal-Requested_example :
    Requested sample_controls (send_new_conn_signal sample_controls)
send_new_conn_signal-Requested_example = send_new_conn_signal-Requested sample_controls

abbrev visitor : LocalTcpConn
visitor = record {
  conn = plain (conn_of []);
  remote_addr = codes "8080";
  time_created = 100;
  report_port = 0;
}

abbrev sample_pipeline : Pipeline
sample_pipeline = record {
  ready = true;
  channel_size = 4;
  mux_con = 2;
  local_channel = [];
  req_new_conn_chan = 0;
  tunnel_channel = 0;
  stream_counter = 0;
  session_counter = 0;
}

abbrev idle_world : World
idle_world = record { sessions = []; pipeline = sample_pipeline }

abbrev sample_run : List backhaul_plus.TcpMux.Sessions.Event
sample_run =
    inbound visitor
    ∷ accepted
    ∷ taken_up
    ∷ session_at 0 acquired
    ∷ session_at 0 (received 150 carried)
    ∷ []

failed_rounds-exhausted_example :
    (failed_rounds 150 2 (some (new_session, queued_alone 150 visitor sample_pipeline))
      ≡ some (slots_taken 150 visitor sample_pipeline 2, queued_alone 150 visitor sample_pipeline))
    × ((a : Action)
        → session_step a for_slot
            (slots_taken 150 visitor sample_pipeline 2)
            (queued_alone 150 visitor sample_pipeline)
          ≡ none)
failed_rounds-exhausted_example =
    failed_rounds-exhausted 150 visitor sample_pipeline refl (omega arith)

abbrev hello_conn : AnyConn
hello_conn = net_conn hello

handshake_lem_example :
    (key ≡ key
      → (d : AnyConn) × (greet key hello_conn ≡ established d)
        × (incoming d ≡ 9 ∷ [])
        × ((later : Bytes) (waiting : AnyConn)
            → IsKnown waiting
            → deadline_error waiting ≡ none
            → incoming waiting ≡ outgoing d ++ later
            → (e : AnyConn) × (await_response key waiting ≡ established e) × (incoming e ≡ later)))
    × (key ≢ key → IsRefused (greet key hello_conn))
unfolding send_hello backhaul_plus.Wire.send_binary_transport_string backhaul_plus.Stream.write
handshake_lem_example =
    handshake_lem key key (9 ∷ []) (net_conn (conn_of [])) hello_conn (omega arith) (refl, refl)
      (refl, refl) refl refl

handle_local-Carries_example :
    Carries visitor []
      ((200, net_conn broken) ∷ [])
      (handle_local visitor ((200, net_conn broken) ∷ (300, net_conn (conn_of [])) ∷ []))
    × ((later : Bytes) (d client : AnyConn) (port : ℤ) (addr : Bytes)
        → (handle_local visitor
            ((200, net_conn broken) ∷ (300, net_conn (conn_of [])) ∷ [])).outcome
          ≡ copying d
        → IsKnown client
        → incoming client ≡ outgoing d ++ later
        → resolve_remote_addr visitor.remote_addr ≡ some (port, addr)
        → (e : AnyConn) × (tunnel_dialer client ≡ dial_local port addr e) × (incoming e ≡ later))
unfolding backhaul_plus.Wire.send_binary_transport_string backhaul_plus.Stream.write
handle_local-Carries_example =
    handle_local-Carries visitor ((200, net_conn broken) ∷ []) 300 (net_conn (conn_of [])) []
      ((_, refl), tt) (omega arith, tt) (omega arith) (refl, refl) (omega arith)

abbrev pool_events : List Pool.Event
pool_events = message sg_chan true ∷ ticked_pool ∷ ticked_load ∷ sent_flow ∷ []

run-dials_example :
    (2 ≤ (Pool.run pool_events (filled 2 true)).new_pool_size)
    × ((Pool.run pool_events (filled 2 true)).dials
        ≡ (Pool.run pool_events (filled 2 true)).new_pool_size
          + requests_in pool_events (filled 2 true)
          + ((Pool.run pool_events (filled 2 true)).control_flow
              + pending (Pool.run pool_events (filled 2 true))))
run-dials_example = run-dials pool_events 2 true

-- Two failures and then a connection.
abbrev sample_attempt : ℕ → Attempt ℕ ℕ
sample_attempt n = if ltb n 2 then failed n else connected n

tcp_dialer_lem_example :
    (sample_attempt 2 ≡ connected 2
      → tcp_dialer sample_attempt 3
        ≡ record { tcp_conn = some 2; err = none; slept = doubling 2 second_ns })
    × (sample_attempt 2 ≡ failed 0
        → 2 + 1 ≡ 3
        → tcp_dialer sample_attempt 3
          ≡ record { tcp_conn = none; err = some 0; slept = doubling 2 second_ns })
tcp_dialer_lem_example =
    tcp_dialer_lem sample_attempt 3 2 {c = 2} {e = 0} ((0, refl), ((1, refl), tt)) (omega arith)
      (omega arith)

abbrev peer_of : ℕ → List Bytes → Peer
peer_of ip segments = record { ip = ip ∷ []; conn = net_conn (conn_of segments) }

-- A control channel of the IP 1, and a connection of it that waits.
abbrev one_peer : TunnelSide
one_peer = record {
  tunnel_channel = peer_of 1 [] ∷ [];
  control_channel = some (peer_of 1 []);
  announced = [];
  closed = [];
  dropped = [];
}
