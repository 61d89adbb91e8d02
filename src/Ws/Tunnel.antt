-- ===== src/Ws/Tunnel.antt =====
-- One tunnel connection over a WebSocket: `keepAlive` and the hand-over by `handleLoop` of
-- internal/server/transport/ws.go, two goroutines that share the connection, its mutex and the channel
-- `ping`; `transferTCPToWebSocket` and `transferWebSocketToTCP` of internal/utils/wsConnHandler.go; and
-- `tunnelDialer` of internal/client/transport/ws.go at the other end.
pub mod Ordered
pub mod Delivered
use backhaul_plus.Prelude.{
  Bool, true, false, ◌&&◌, List, [], ◌∷◌, ◌++◌, Option, none, some, ℤ, if◌then◌else◌,
}
use backhaul_plus.Client.{resolve_remote_addr}
use backhaul_plus.Signals.{sg_ping}
use backhaul_plus.Strings.{Bytes, equal}
use backhaul_plus.Ws.{Message, text, binary, bytes_of, ping_message}

-- Where `keepAlive` stands: at its `select`, between `TryLock` and `Unlock`, behind the `Unlock` of a
-- ping that failed, or returned.
pub data Keeper : Type 0 where
  selecting pinging giving_up stopped : Keeper

-- Where `handleLoop` stands with the connection: it has not taken it, has closed `ping`, has locked the
-- mutex, copies, or has closed it for the announcement failed.
pub data HandOver : Type 0 where
  offered unpinged locking copying failed : HandOver

pub record Tunnel : Type 0 where
  pub keeper : Keeper
  pub handing : HandOver
  pub ping_closed : Bool
  pub mu : Bool
  pub is_open : Bool
  pub sent : List Message

-- As `tunnelListener` queues it.
abbrev pub fresh_tunnel : Tunnel
fresh_tunnel = record {
  keeper = selecting;
  handing = offered;
  ping_closed = false;
  mu = false;
  is_open = true;
  sent = [];
}

-- `WriteMessage`, whose outcome on an open connection is `ok`.
abbrev pub write_message : Message → Bool → Tunnel → Tunnel → Tunnel → Tunnel
write_message m ok t sent_to failed_at =
    if ok && t.is_open then record sent_to { sent = t.sent ++ (m ∷ []) } else failed_at

-- `case <-ticker.C` up to `TryLock`
abbrev pub on_tick : Keeper → Tunnel → Tunnel
on_tick selecting t =
    if t.mu then record t { keeper = stopped } else record t { keeper = pinging; mu = true }
on_tick k t = t

-- The ping, and `Unlock`.
abbrev pub on_ping : Bool → Keeper → Tunnel → Tunnel
on_ping ok pinging t =
    write_message ping_message ok t (record t { keeper = selecting; mu = false })
      (record t { keeper = giving_up; mu = false })
on_ping ok k t = t

-- `conn.conn.Close()` of a failed ping.
abbrev pub on_given_up : Keeper → Tunnel → Tunnel
on_given_up giving_up t = record t { keeper = stopped; is_open = false }
on_given_up k t = t

-- `case <-conn.ping`
abbrev pub on_ping_closed : Keeper → Tunnel → Tunnel
on_ping_closed selecting t = if t.ping_closed then record t { keeper = stopped } else t
on_ping_closed k t = t

-- `case <-s.ctx.Done()` of `keepAlive`
abbrev pub on_done : Keeper → Tunnel → Tunnel
on_done selecting t = record t { keeper = stopped; is_open = false }
on_done k t = t

-- `case tunnelConnection := <-s.tunnelChannel: close(tunnelConnection.ping)`
abbrev pub on_taken : HandOver → Tunnel → Tunnel
on_taken offered t = record t { handing = unpinged; ping_closed = true }
on_taken h t = t

-- `tunnelConnection.mu.Lock()` waits; the mutex is not unlocked any more.
abbrev pub on_lock : HandOver → Tunnel → Tunnel
on_lock unpinged t = if t.mu then t else record t { handing = locking; mu = true }
on_lock h t = t

-- The announcement of the inbound connection's target.
abbrev pub on_announce : Bytes → Bool → HandOver → Tunnel → Tunnel
on_announce remote_addr ok locking t =
    write_message (text remote_addr) ok t (record t { handing = copying })
      (record t { handing = failed; is_open = false })
on_announce remote_addr ok h t = t

-- A pass of `transferTCPToWebSocket`.
abbrev pub on_chunk : Bytes → Bool → HandOver → Tunnel → Tunnel
on_chunk bytes ok copying t = write_message (binary bytes) ok t t (record t { is_open = false })
on_chunk bytes ok h t = t

pub data Event : Type 0 where
  ticked gave_up saw_ping_closed done taken locked : Event
  pinged announced : Bool → Event
  chunk : Bytes → Bool → Event

-- An event whose goroutine does not stand before it is passed over.
unfoldable pub step : Bytes → Event → Tunnel → Tunnel
step remote_addr ticked t = on_tick t.keeper t
step remote_addr (pinged ok) t = on_ping ok t.keeper t
step remote_addr gave_up t = on_given_up t.keeper t
step remote_addr saw_ping_closed t = on_ping_closed t.keeper t
step remote_addr done t = on_done t.keeper t
step remote_addr taken t = on_taken t.handing t
step remote_addr locked t = on_lock t.handing t
step remote_addr (announced ok) t = on_announce remote_addr ok t.handing t
step remote_addr (chunk bytes ok) t = on_chunk bytes ok t.handing t

unfoldable pub run : Bytes → List Event → Tunnel → Tunnel
unfolding step
run remote_addr [] t = t
run remote_addr (e ∷ es) t = run remote_addr es (step remote_addr e t)

-- What the client's `tunnelDialer` does: it waits for the announcement, dials the local service, or
-- hangs up; with the messages that are left to the copy loop.
pub data Dialed : Type 0 where
  awaiting hung_up : Dialed
  dial_local : ℤ → Bytes → List Message → Dialed

abbrev pub by_addr : List Message → Option (ℤ × Bytes) → Dialed
by_addr rest none = hung_up
by_addr rest (some (port, addr)) = dial_local port addr rest

-- The loop of `tunnelDialer` over the messages read.
unfoldable pub tunnel_dialer : List Message → Dialed
tunnel_dialer [] = awaiting
tunnel_dialer (m ∷ rest) =
    if equal (bytes_of m) (sg_ping ∷ [])
    then tunnel_dialer rest
    else by_addr rest (resolve_remote_addr (bytes_of m))

-- What `transferWebSocketToTCP` writes of the messages; both kinds are copied.
unfoldable pub transferred : List Message → Bytes
transferred [] = []
transferred (m ∷ rest) = bytes_of m ++ transferred rest
