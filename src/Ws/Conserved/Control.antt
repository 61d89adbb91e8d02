-- ===== src/Ws/Conserved/Control.antt =====
-- The control channel and the restart of the WebSocket server keep each connection in one place.
use backhaul_plus.Signals.{sg_chan, sg_hb}
use backhaul_plus.Prelude.{
  ℕ, Bool, ◌&&◌, List, [], ◌∷◌, map, ltb, ◌==◌, if_cases, arith, ◌-◌, Option, none, some,
}
use backhaul_plus.Strings.{Bytes}
use backhaul_plus.Ws.Server.State.{Handler, WsTransport}
use backhaul_plus.Ws.Server.Requests.{control_ids}
use backhaul_plus.Ws.Server.Control.{
  control_written, on_new_conn, on_heartbeat, closing_written, on_done, can_read, sent_first,
  on_read, on_read_nil, on_read_error, on_reader_done, message_handled, on_message,
  on_listener_done, on_restart, on_restarted,
}
use backhaul_plus.Ws.Places.{occ-append, occ-map, inbound_id, queued_socket, itself, IsConserved}

module _ (i : ℕ) where
  pub restarted-IsConserved : (s : WsTransport) → IsConserved i s → IsConserved i (on_restarted s)
  unfolding on_restarted
  restarted-IsConserved s h =
      let x = h.of_inbound in
      let y = h.of_sockets in
      let ids = map inbound_id s.local_channel in
      let sockets = map queued_socket s.tunnel_channel in
      let control = control_ids s.control_channel in
      if_cases (IsConserved i) s.restarting
        (λ restarting. record {
          of_inbound =
              omega (arith, occ-append itself i s.lost ids, occ-map inbound_id i s.local_channel);
          of_sockets = omega (
            arith,
            occ-append itself i s.former_controls control,
            occ-append itself i s.former_tunnels sockets,
            occ-map queued_socket i s.tunnel_channel,
          );
        })
        (λ steady. h)

  written-IsConserved :
      (signal : ℕ) (ok : Bool) (c : Option ℕ) (x : Handler) (others : List Handler)
      (s : WsTransport)
      → IsConserved i s
      → IsConserved i (control_written signal ok c x others s)
  unfolding control_written
  written-IsConserved signal ok none x others s h = record {
    of_inbound = h.of_inbound;
    of_sockets = h.of_sockets;
  }
  written-IsConserved signal ok (some c) x others s h =
      if_cases (IsConserved i) (ok && s.control_open)
        (λ sent. record { of_inbound = h.of_inbound; of_sockets = h.of_sockets })
        (λ failed. record { of_inbound = h.of_inbound; of_sockets = h.of_sockets })

  module _ (s : WsTransport) (h : IsConserved i s) where
    pub new_conn-IsConserved :
        (ok : Bool) (r : Option (Handler × List Handler)) → IsConserved i (on_new_conn ok r s)
    unfolding on_new_conn
    new_conn-IsConserved ok none = h
    new_conn-IsConserved ok (some (x, others)) =
        if_cases (IsConserved i) (x.alive && ltb 0 s.req_new_conn_chan)
          (λ asked.
            written-IsConserved sg_chan ok s.control_channel x others
              (record s { req_new_conn_chan = s.req_new_conn_chan - 1 })
              record { of_inbound = h.of_inbound; of_sockets = h.of_sockets })
          (λ not_asked. h)

    pub heartbeat-IsConserved :
        (ok : Bool) (r : Option (Handler × List Handler)) → IsConserved i (on_heartbeat ok r s)
    unfolding on_heartbeat
    heartbeat-IsConserved ok none = h
    heartbeat-IsConserved ok (some (x, others)) =
        if_cases (IsConserved i) x.alive
          (λ beats. written-IsConserved sg_hb ok s.control_channel x others s h) (λ ended. h)

    closing-IsConserved :
        (ok : Bool) (c : Option ℕ) (x : Handler) (others : List Handler)
        → IsConserved i (closing_written ok c x others s)
    unfolding closing_written
    closing-IsConserved ok none x others = record {
      of_inbound = h.of_inbound;
      of_sockets = h.of_sockets;
    }
    closing-IsConserved ok (some c) x others =
        if_cases (IsConserved i) (ok && s.control_open)
          (λ sent. record { of_inbound = h.of_inbound; of_sockets = h.of_sockets })
          (λ failed. record { of_inbound = h.of_inbound; of_sockets = h.of_sockets })

    pub done-IsConserved :
        (ok : Bool) (r : Option (Handler × List Handler)) → IsConserved i (on_done ok r s)
    unfolding on_done
    done-IsConserved ok none = h
    done-IsConserved ok (some (x, others)) =
        if_cases (IsConserved i) (s.cancelled && x.alive)
          (λ ends. closing-IsConserved ok s.control_channel x others) (λ goes_on. h)

    first-IsConserved :
        (msg : Bytes) (x : Handler) (others : List Handler)
        → IsConserved i (sent_first msg x others s)
    unfolding sent_first
    first-IsConserved [] x others = record { of_inbound = h.of_inbound; of_sockets = h.of_sockets }
    first-IsConserved (b ∷ msg) x others = record {
      of_inbound = h.of_inbound;
      of_sockets = h.of_sockets;
    }

    pub read-IsConserved :
        (msg : Bytes) (r : Option (Handler × List Handler)) → IsConserved i (on_read msg r s)
    unfolding on_read
    read-IsConserved msg none = h
    read-IsConserved msg (some (x, others)) =
        if_cases (IsConserved i) (can_read x) (λ reads. first-IsConserved msg x others)
          (λ blocked. h)

    pub read_nil-IsConserved :
        (c : Option ℕ) (r : Option (Handler × List Handler)) → IsConserved i (on_read_nil c r s)
    unfolding on_read_nil
    read_nil-IsConserved none (some (x, others)) =
        if_cases (IsConserved i) (s.cancelled && can_read x)
          (λ reads. record { of_inbound = h.of_inbound; of_sockets = h.of_sockets }) (λ blocked. h)
    read_nil-IsConserved none none = h
    read_nil-IsConserved (some c) r = h

    pub reader-IsConserved :
        (r : Option (Handler × List Handler))
        → IsConserved i (on_read_error r s) × IsConserved i (on_reader_done r s)
    unfolding on_read_error on_reader_done
    reader-IsConserved none = (h, h)
    reader-IsConserved (some (x, others)) = (
      if_cases (IsConserved i) (can_read x)
          (λ reads. record { of_inbound = h.of_inbound; of_sockets = h.of_sockets }) (λ blocked. h),
      if_cases (IsConserved i) (s.cancelled && can_read x)
          (λ ends. record { of_inbound = h.of_inbound; of_sockets = h.of_sockets }) (λ goes_on. h),
    )

    handled-IsConserved :
        (msgs : List ℕ) (x : Handler) (others : List Handler)
        → IsConserved i (message_handled msgs x others s)
    unfolding message_handled
    handled-IsConserved [] x others = h
    handled-IsConserved (msg ∷ rest) x others =
        if_cases (IsConserved i) (msg == sg_hb)
          (λ beat. record { of_inbound = h.of_inbound; of_sockets = h.of_sockets })
          (λ other. record { of_inbound = h.of_inbound; of_sockets = h.of_sockets })

    pub message-IsConserved : (r : Option (Handler × List Handler)) → IsConserved i (on_message r s)
    unfolding on_message
    message-IsConserved none = h
    message-IsConserved (some (x, others)) =
        if_cases (IsConserved i) x.alive (λ alive. handled-IsConserved x.message_chan x others)
          (λ ended. h)

    pub restart-IsConserved : IsConserved i (on_listener_done s) × IsConserved i (on_restart s)
    unfolding on_listener_done on_restart
    restart-IsConserved = (
      if_cases (IsConserved i) s.cancelled
          (λ ends. record { of_inbound = h.of_inbound; of_sockets = h.of_sockets }) (λ goes_on. h),
      if_cases (IsConserved i) (s.restart_calls == 0) (λ uncalled. h)
          (λ called.
            if_cases (IsConserved i) s.restarting
              (λ skipped. record { of_inbound = h.of_inbound; of_sockets = h.of_sockets })
              (λ begun. record { of_inbound = h.of_inbound; of_sockets = h.of_sockets })),
    )
