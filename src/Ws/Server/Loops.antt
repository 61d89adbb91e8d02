-- ===== src/Ws/Server/Loops.antt =====
-- `handleLoop` and `keepAlive` of internal/server/transport/ws.go.
use backhaul_plus.Prelude.{
  zero, suc, ◌&&◌, ℕ, ◌+◌, ◌-◌, Bool, true, false, List, [], ◌∷◌, ◌++◌, Option, none, some, ltb,
  ◌==◌, if◌then◌else◌,
}
use backhaul_plus.Ws.Server.State.{Inbound, Waiting, Copy, Queued, WsTransport}

-- `case localConn := <-s.localChannel`
unfoldable pub on_take : List Inbound → WsTransport → WsTransport
on_take [] s = s
on_take (c ∷ rest) s = if s.idle == 0 then s else record s {
  idle = s.idle - 1;
  local_channel = rest;
  waiting = s.waiting ++ (record { inbound = c; checked = false } ∷ []);
}

-- The check of the age, at the head of the inner loop.
unfoldable pub on_check : ℕ → Option (Waiting × List Waiting) → WsTransport → WsTransport
on_check now none s = s
on_check now (some (w, others)) s =
    if w.checked
    then s
    else if ltb (w.inbound.time_created + 3000) now
    then record s {
      waiting = others;
      idle = s.idle + 1;
      closed_inbound = s.closed_inbound ++ (w.inbound.id ∷ []);
    }
    else record s { waiting = others ++ (record { inbound = w.inbound; checked = true } ∷ []) }

-- `case tunnelConnection := <-s.tunnelChannel`, and the announcement on it.
unfoldable pub on_pair :
    Bool → Option (Waiting × List Waiting) → List Queued → WsTransport → WsTransport
on_pair ok none tunnels s = s
on_pair ok (some (w, others)) [] s = s
on_pair ok (some (w, others)) (t ∷ tunnels) s =
    if w.checked
    then if ok && t.is_open
      then record s {
        tunnel_channel = tunnels;
        waiting = others;
        idle = s.idle + 1;
        copies = s.copies ++ (record { inbound = w.inbound; socket = t.socket } ∷ []);
      }
      else record s {
        tunnel_channel = tunnels;
        waiting = others ++ (record { inbound = w.inbound; checked = false } ∷ []);
        closed_sockets = s.closed_sockets ++ (t.socket ∷ []);
      }
    else s

-- `case <-s.ctx.Done()` of a loop that waits for an inbound connection.
unfoldable pub on_loop_done : WsTransport → WsTransport
on_loop_done s = if s.cancelled then record s { idle = s.idle - 1 } else s

-- The same of one that has an inbound connection, which it neither closes nor puts back.
unfoldable pub on_waiting_done : Option (Waiting × List Waiting) → WsTransport → WsTransport
on_waiting_done none s = s
on_waiting_done (some (w, others)) s =
    if s.cancelled && w.checked
    then record s { waiting = others; lost = s.lost ++ (w.inbound.id ∷ []) }
    else s

-- `keepAlive` closes the tunnel connection at a position of the queue, where it stays.
unfoldable pub closed_at : ℕ → List Queued → List Queued
closed_at i [] = []
closed_at zero (t ∷ tunnels) = record t { is_open = false } ∷ tunnels
closed_at (suc i) (t ∷ tunnels) = t ∷ closed_at i tunnels

-- Its ping, which may fail.
unfoldable pub on_queued_ping : ℕ → Bool → WsTransport → WsTransport
unfolding closed_at
on_queued_ping i ok s = if ok then s else record s { tunnel_channel = closed_at i s.tunnel_channel }

-- Its `case <-s.ctx.Done()`.
unfoldable pub on_keeper_done : ℕ → WsTransport → WsTransport
unfolding closed_at
on_keeper_done i s =
    if s.cancelled then record s { tunnel_channel = closed_at i s.tunnel_channel } else s

-- A copy ends: both connections are closed.
unfoldable pub on_copied : Option (Copy × List Copy) → WsTransport → WsTransport
on_copied none s = s
on_copied (some (c, others)) s = record s {
  copies = others;
  closed_inbound = s.closed_inbound ++ (c.inbound.id ∷ []);
  closed_sockets = s.closed_sockets ++ (c.socket ∷ []);
}
