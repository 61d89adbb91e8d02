-- ===== src/Ws/Conserved/Arrivals.antt =====
-- What comes in to the WebSocket server keeps each connection in one place.
use backhaul_plus.Prelude.{
  List, ltb, ◌==◌, ℕ, ◌+◌, ◌≡◌, [], ◌∷◌, Option, none, some, length, if_cases, arith, true,
}
use backhaul_plus.Registry.{has_room}
use backhaul_plus.Strings.{Bytes, codes, equal, has_prefix}
use backhaul_plus.Ws.Server.State.{Inbound, Looked, WsTransport}
use backhaul_plus.Ws.Server.Requests.{
  on_control, on_tunnel, on_path, inbound_queued, on_accept, is_none, control_ids, control_set,
  control_refused, on_looked,
}
use backhaul_plus.Ws.Places.{
  one, occ-append, Removed, inbound_id, looked_socket, queued_socket, itself, inbound_places,
  socket_places, IsConserved, below-suc,
}

module _ (i : ℕ) where
  refused-IsConserved :
      (id : ℕ) (c : Option ℕ) (s : WsTransport)
      → inbound_places i s ≡ one (ltb i s.next_inbound)
      → socket_places i s + one (id == i) ≡ one (ltb i s.next_socket)
      → IsConserved i (control_refused id c s)
  unfolding control_refused
  refused-IsConserved id none s x y = record {
    of_inbound = x;
    of_sockets = omega (arith, occ-append itself i s.stray (id ∷ []));
  }
  refused-IsConserved id (some c) s x y = record {
    of_inbound = x;
    of_sockets = omega (arith, occ-append itself i s.closed_sockets (id ∷ []));
  }

  pub looked-IsConserved :
      (r : Option (Looked × List Looked)) (s : WsTransport)
      → Removed looked_socket i s.looked r
      → IsConserved i s
      → IsConserved i (on_looked r s)
  unfolding on_looked control_set
  looked-IsConserved none s e h = h
  looked-IsConserved (some (l, others)) s e h =
      let x = h.of_inbound in
      let y = h.of_sockets in
      if_cases (IsConserved i) l.found_none
        (λ first. record {
          of_inbound = x;
          of_sockets =
              omega (arith, occ-append itself i s.former_controls (control_ids s.control_channel));
        })
        (λ second.
          refused-IsConserved l.socket s.control_channel (record s { looked = others }) x
            (omega arith))

  pub path-IsConserved :
      (size cpus : ℕ) (path : Bytes) (s : WsTransport)
      → IsConserved i s
      → IsConserved i (on_path size cpus path s)
  unfolding on_path on_tunnel on_control
  path-IsConserved size cpus path s h =
      let x = h.of_sockets in
      let id = s.next_socket in
      let s' = record s { next_socket = s.next_socket + 1 } in
      if_cases (IsConserved i) (equal path (codes "/channel"))
        (λ channel. record {
          of_inbound = h.of_inbound;
          of_sockets = omega (
            arith,
            below-suc i id,
            occ-append looked_socket i s.looked
                (record { socket = id; cpus = cpus; found_none = is_none s.control_channel } ∷ []),
          );
        })
        (λ other.
          if_cases (IsConserved i) (has_prefix path (codes "/tunnel"))
            (λ tunnel.
              if_cases (IsConserved i) (has_room size (length s.tunnel_channel))
                (λ room. record {
                  of_inbound = h.of_inbound;
                  of_sockets = omega (
                    arith,
                    below-suc i id,
                    occ-append queued_socket i s.tunnel_channel
                        (record { socket = id; is_open = true } ∷ []),
                  );
                })
                (λ full. record {
                  of_inbound = h.of_inbound;
                  of_sockets =
                      omega (arith, below-suc i id, occ-append itself i s.closed_sockets (id ∷ []));
                }))
            (λ strange. record {
              of_inbound = h.of_inbound;
              of_sockets = omega (arith, below-suc i id, occ-append itself i s.stray (id ∷ []));
            }))

  pub queued-IsConserved :
      (size now : ℕ) (target : Bytes) (port : ℕ) (s : WsTransport)
      → IsConserved i s
      → IsConserved i (inbound_queued size now target port s)
  unfolding inbound_queued
  queued-IsConserved size now target port s h =
      let x = h.of_inbound in
      let c : Inbound = record {
        id = s.next_inbound;
        remote_addr = target;
        time_created = now;
        report_port = port;
      } in
      record {
        of_inbound =
            omega
              (arith, below-suc i s.next_inbound, occ-append inbound_id i s.local_channel (c ∷ []));
        of_sockets = h.of_sockets;
      }

  pub accept-IsConserved :
      (size now : ℕ) (target : Bytes) (s : WsTransport)
      → IsConserved i s
      → IsConserved i (on_accept size now target s)
  unfolding on_accept
  accept-IsConserved size now target s h =
      let x = h.of_inbound in
      if_cases (IsConserved i) (has_room size (length s.local_channel))
        (λ room. queued-IsConserved size now target 0 s h)
        (λ full. record {
          of_inbound = omega (
            arith,
            below-suc i s.next_inbound,
            occ-append itself i s.closed_inbound (s.next_inbound ∷ []),
          );
          of_sockets = h.of_sockets;
        })
