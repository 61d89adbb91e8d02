-- ===== src/UdpListener/CutOff.antt =====
-- How the UDP listeners come to cut a client off, in handleLoop of udp.go and in udpListener of accept_udp.go.
use backhaul_plus.Prelude.{
  ℕ, ◌<◌, ◌≡◌, sym, ap, ◌∙◌, Bool, false, List, [], ◌∷◌, ◌++◌, some, if◌then◌else◌, length,
  length-append, All, arith, ◌+◌, none, true, ltb,
}
use mathlib.Core.Path.{subst}
use backhaul_plus.Maps.{lookup, insert, lookup-insert}
use backhaul_plus.Registry.{has_room}
use backhaul_plus.Strings.{Bytes}
use backhaul_plus.UdpListener.{
  plain_udp, over_tcp, Cell, LocalUdpConn, UdpListener, pushed, change_at, is_congested_at,
  new_conn, by_entry, on_datagram, take_up, Event, datagram, taken_up, step, run,
}
use backhaul_plus.Strings.Search.{equal_refl}
use backhaul_plus.UdpListener.Abandoned.{IsOther, IsAbandoned, last_congested}
use backhaul_plus.UdpListener.Run.{run-IsAbandoned}

-- When handleLoop of udp.go takes up a connection that has waited for more than three seconds, that
-- its client's entry points to, that is not congested, and beside which the client has none queued or
-- handled, the client has no connection from then on: in every run that goes on from there its entry
-- stays, and neither the connection of the entry nor another of the client is queued or handled.
pub run-late-IsAbandoned :
    (now : ℕ) (c : LocalUdpConn) (rest : List LocalUdpConn) (s : UdpListener) (es : List Event)
    → (s.udp_chan ≡ c ∷ rest)
    → (c.time_created + 3000 < now)
    → (lookup c.addr s.active_connections ≡ some c.id)
    → (is_congested_at c.id s.cells ≡ false)
    → (c.id < length s.cells)
    → All (IsOther c.addr c.id) rest
    → All (IsOther c.addr c.id) s.handled
    → IsAbandoned c.addr c.id (run plain_udp (taken_up now ∷ es) s)
unfolding run step take_up
run-late-IsAbandoned now c rest s es queue late entry uncongested exists others handled =
    run-IsAbandoned plain_udp c.addr c.id es (take_up plain_udp now s.udp_chan s) (
      subst (λ q. IsAbandoned c.addr c.id (take_up plain_udp now q s)) (sym queue)
        (subst
          (λ (b : Bool). IsAbandoned c.addr c.id (
            if b
            then record s { udp_chan = rest }
            else record s { udp_chan = rest; handled = c ∷ s.handled }))
          (let l : true ≡ ltb (c.time_created + 3000) now = (ground arith) in l)
          (record {
            entry = entry;
            uncongested = uncongested;
            exists = exists;
            not_queued = others;
            not_handled = handled;
          })))

-- When the datagram of a client of accept_udp.go that has no entry, and no connection queued or handled,
-- meets a full `udpChan`, the client has no connection from then on: in every run that goes on from
-- there its entry stays, and neither the connection of the entry nor another of the client is queued or
-- handled.
pub run-refused-IsAbandoned :
    (now : ℕ) (key packet : Bytes) (s : UdpListener) (es : List Event)
    → (lookup key s.active_connections ≡ none)
    → (has_room s.channel_size (length s.udp_chan) ≡ false)
    → All (IsOther key (length s.cells)) s.udp_chan
    → All (IsOther key (length s.cells)) s.handled
    → IsAbandoned key (length s.cells) (run over_tcp (datagram now key packet ∷ es) s)
unfolding run step on_datagram by_entry new_conn
run-refused-IsAbandoned now key packet s es entry full queue handled =
    let id = length s.cells in
    let cell : Cell = record { payload = []; is_congested = false } in
    let stored : UdpListener = record s {
      cells = s.cells ++ (cell ∷ []);
      active_connections = insert key id s.active_connections;
    } in
    let abandoned : IsAbandoned key id stored = (record {
      entry =
          lookup-insert key key id s.active_connections
          ∙ ap (λ (b : Bool). if b then some id else lookup key s.active_connections)
              (equal_refl key);
      uncongested = last_congested s.cells cell;
      exists = (let n = length-append s.cells (cell ∷ []) in omega arith);
      not_queued = queue;
      not_handled = handled;
    }) in
    run-IsAbandoned over_tcp key id es
      (by_entry over_tcp now key packet s (lookup key s.active_connections))
      (subst (λ e. IsAbandoned key id (by_entry over_tcp now key packet s e)) (sym entry)
        (subst
          (λ (b : Bool). IsAbandoned key id (
            if b
            then record stored {
              cells = change_at (pushed packet) id stored.cells;
              udp_chan = s.udp_chan ++ (record { id = id; addr = key; time_created = now } ∷ []);
              req_new_conn_chan =
                  if has_room s.channel_size s.req_new_conn_chan
                  then s.req_new_conn_chan + 1
                  else s.req_new_conn_chan;
            }
            else stored))
          (sym full) abandoned))
