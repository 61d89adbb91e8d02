-- ===== src/UdpListener.antt =====
-- The UDP listeners of the server: `localListener`, `handleLoop` and the end of `udpCopy` in
-- internal/server/transport/udp.go, and `udpListener`, `handleUDPLoop` and the end of
-- `UDPConnectionHandler` in accept_udp.go beside it.
pub mod Abandoned
pub mod CutOff
pub mod Run
use backhaul_plus.Prelude.{
  ℕ, zero, suc, ◌+◌, Bool, true, false, ◌&&◌, List, [], ◌∷◌, ◌++◌, Option, none, some, ltb, ◌==◌,
  if◌then◌else◌, length, drop,
}
use backhaul_plus.Maps.{Map, lookup, insert, delete}
use backhaul_plus.Registry.{has_room}
use backhaul_plus.Strings.{Bytes}

-- The two listeners.
pub data Kind : Type 0 where
  plain_udp over_tcp : Kind

-- What changes of a connection of a client, the channel `payload` and `IsCongested`.
pub record Cell : Type 0 where
  pub payload : List Bytes
  pub is_congested : Bool

-- A pointer to one, with the fields that do not change.
pub record LocalUdpConn : Type 0 where
  pub id : ℕ
  pub addr : Bytes
  pub time_created : ℕ

-- `handled` are the connections that the loop took out of `udpChan`, until their copy has ended.
pub record UdpListener : Type 0 where
  pub cells : List Cell
  pub active_connections : Map ℕ
  pub udp_chan : List LocalUdpConn
  pub handled : List LocalUdpConn
  pub channel_size : ℕ
  pub req_new_conn_chan : ℕ

-- A packet for a full payload channel is dropped.
abbrev pub pushed : Bytes → Cell → Cell
pushed packet c =
    if has_room 100000 (length c.payload)
    then record c { payload = c.payload ++ (packet ∷ []) }
    else c

abbrev pub change_at : (Cell → Cell) → ℕ → List Cell → List Cell
change_at f i [] = []
change_at f zero (c ∷ cs) = f c ∷ cs
change_at f (suc i) (c ∷ cs) = c ∷ change_at f i cs

abbrev pub is_congested_at : ℕ → List Cell → Bool
is_congested_at i [] = false
is_congested_at zero (c ∷ cs) = c.is_congested
is_congested_at (suc i) (c ∷ cs) = is_congested_at i cs

-- The new connection was not taken by the full `udpChan`.
abbrev pub rejected : Kind → Bytes → UdpListener → UdpListener
rejected plain_udp key s = record s { active_connections = delete key s.active_connections }
rejected over_tcp key s = s

unfoldable pub new_conn : Kind → ℕ → Bytes → Bytes → UdpListener → UdpListener
new_conn kind now key packet s =
    let id = length s.cells in
    let cell : Cell = record { payload = []; is_congested = false } in
    let s = record s {
      cells = s.cells ++ (cell ∷ []);
      active_connections = insert key id s.active_connections;
    } in
    if has_room s.channel_size (length s.udp_chan)
    then record s {
      cells = change_at (pushed packet) id s.cells;
      udp_chan = s.udp_chan ++ (record { id = id; addr = key; time_created = now } ∷ []);
      req_new_conn_chan =
          if has_room s.channel_size s.req_new_conn_chan
          then s.req_new_conn_chan + 1
          else s.req_new_conn_chan;
    }
    else rejected kind key s

-- The existing connection of a client gets the packet, unless it is congested.
unfoldable pub by_entry : Kind → ℕ → Bytes → Bytes → UdpListener → Option ℕ → UdpListener
unfolding new_conn
by_entry kind now key packet s none = new_conn kind now key packet s
by_entry plain_udp now key packet s (some i) = record s {
  cells = change_at (pushed packet) i s.cells;
}
by_entry over_tcp now key packet s (some i) =
    if is_congested_at i s.cells
    then new_conn over_tcp now key packet s
    else record s { cells = change_at (pushed packet) i s.cells }

-- A datagram of the client `key`.
unfoldable pub on_datagram : Kind → ℕ → Bytes → Bytes → UdpListener → UdpListener
unfolding by_entry
on_datagram kind now key packet s = by_entry kind now key packet s (lookup key s.active_connections)

-- The loop over `udpChan` takes a connection up for a tunnel; udp.go passes over one that has waited
-- for more than three seconds.
abbrev pub is_late_conn : Kind → ℕ → LocalUdpConn → Bool
is_late_conn plain_udp now c = ltb (c.time_created + 3000) now
is_late_conn over_tcp now c = false

unfoldable pub take_up : Kind → ℕ → List LocalUdpConn → UdpListener → UdpListener
take_up kind now [] s = s
take_up kind now (c ∷ rest) s =
    if is_late_conn kind now c
    then record s { udp_chan = rest }
    else record s { udp_chan = rest; handled = c ∷ s.handled }

abbrev pub deleted : Kind → LocalUdpConn → UdpListener → UdpListener
deleted plain_udp c s = record s { active_connections = delete c.addr s.active_connections }
deleted over_tcp c s =
    if is_congested_at c.id s.cells
    then s
    else record s { active_connections = delete c.addr s.active_connections }

-- The copy of the connection at a position of `handled` ends.
unfoldable pub finish_at :
    Kind → ℕ → List LocalUdpConn → List LocalUdpConn → UdpListener → UdpListener
finish_at kind i done [] s = s
finish_at kind zero done (c ∷ rest) s = deleted kind c (record s { handled = done ++ rest })
finish_at kind (suc i) done (c ∷ rest) s = finish_at kind i (done ++ (c ∷ [])) rest s

-- A change of the connection at a position of `handled`.
unfoldable pub at_handled : (Cell → Cell) → ℕ → List LocalUdpConn → UdpListener → UdpListener
at_handled f i [] s = s
at_handled f zero (c ∷ rest) s = record s { cells = change_at f c.id s.cells }
at_handled f (suc i) (c ∷ rest) s = at_handled f i rest s

-- The copy takes the next packet, if there is one, out of the payload channel.
abbrev pub copied : Cell → Cell
copied c = record c { payload = drop 1 c.payload }

-- `udp.IsCongested = true`
abbrev pub congested : Cell → Cell
congested c = record c { is_congested = true }

pub data Event : Type 0 where
  datagram : ℕ → Bytes → Bytes → Event
  taken_up read finished marked : ℕ → Event

unfoldable pub step : Kind → Event → UdpListener → UdpListener
unfolding on_datagram take_up finish_at at_handled
step kind (datagram now key packet) s = on_datagram kind now key packet s
step kind (taken_up now) s = take_up kind now s.udp_chan s
step kind (read i) s = at_handled copied i s.handled s
step kind (finished i) s = finish_at kind i [] s.handled s
step plain_udp (marked i) s = s
step over_tcp (marked i) s = at_handled congested i s.handled s

unfoldable pub run : Kind → List Event → UdpListener → UdpListener
unfolding step
run kind [] s = s
run kind (e ∷ es) s = run kind es (step kind e s)
