-- ===== src/Ws/Server/Control.antt =====
-- `channelHandler` and `Restart` of internal/server/transport/ws.go. A handler reads `s.controlChannel` anew
-- at each use; it panics where that is nil.
use backhaul_plus.Prelude.{
  ℕ, ◌+◌, ◌-◌, Bool, true, false, ◌&&◌, List, [], ◌∷◌, ◌++◌, map, Option, none, some, ltb, ◌==◌,
  if◌then◌else◌, length,
}
use backhaul_plus.Registry.{has_room}
use backhaul_plus.Signals.{sg_chan, sg_hb, sg_closed}
use backhaul_plus.Strings.{Bytes}
use backhaul_plus.Ws.{binary}
use backhaul_plus.Ws.Server.State.{Inbound, Queued, Handler, WsTransport}
use backhaul_plus.Ws.Server.Requests.{control_ids}

abbrev pub put_handler : Handler → List Handler → WsTransport → WsTransport
put_handler h others s = record s { handlers = others ++ (h ∷ []) }

-- The end of a handler with `go s.Restart()`.
abbrev pub handler_failed : Handler → List Handler → WsTransport → WsTransport
handler_failed h others s = record s {
  handlers = others ++ (record h { alive = false } ∷ []);
  restart_calls = s.restart_calls + 1;
}

-- `WriteMessage` of a signal, or the end of the handler.
unfoldable pub control_written :
    ℕ → Bool → Option ℕ → Handler → List Handler → WsTransport → WsTransport
control_written signal ok none h others s = record s { crashed = true }
control_written signal ok (some c) h others s =
    if ok && s.control_open
    then record s {
      handlers = others ++ (h ∷ []);
      control_sent = s.control_sent ++ (binary (signal ∷ []) ∷ []);
    }
    else handler_failed h others s

-- `case <-s.reqNewConnChan`
unfoldable pub on_new_conn : Bool → Option (Handler × List Handler) → WsTransport → WsTransport
unfolding control_written
on_new_conn ok none s = s
on_new_conn ok (some (h, others)) s =
    if h.alive && ltb 0 s.req_new_conn_chan
    then control_written sg_chan ok s.control_channel h others
        (record s { req_new_conn_chan = s.req_new_conn_chan - 1 })
    else s

-- `case <-ticker.C`
unfoldable pub on_heartbeat : Bool → Option (Handler × List Handler) → WsTransport → WsTransport
unfolding control_written
on_heartbeat ok none s = s
on_heartbeat ok (some (h, others)) s =
    if h.alive then control_written sg_hb ok s.control_channel h others s else s

-- The last message of a handler, whose error is ignored.
unfoldable pub closing_written :
    Bool → Option ℕ → Handler → List Handler → WsTransport → WsTransport
closing_written ok none h others s = record s { crashed = true }
closing_written ok (some c) h others s =
    if ok && s.control_open
    then record s {
      handlers = others ++ (record h { alive = false } ∷ []);
      control_sent = s.control_sent ++ (binary (sg_closed ∷ []) ∷ []);
    }
    else put_handler (record h { alive = false }) others s

-- `case <-s.ctx.Done()` of the handler.
unfoldable pub on_done : Bool → Option (Handler × List Handler) → WsTransport → WsTransport
unfolding closing_written
on_done ok none s = s
on_done ok (some (h, others)) s =
    if s.cancelled && h.alive then closing_written ok s.control_channel h others s else s

-- `messageChan <- msg[0]`, which panics for an empty message.
unfoldable pub sent_first : Bytes → Handler → List Handler → WsTransport → WsTransport
sent_first [] h others s = record s { crashed = true }
sent_first (b ∷ msg) h others s =
    put_handler (record h { message_chan = h.message_chan ++ (b ∷ []) }) others s

-- The reader is not at the send for which the channel of 10 has no room.
abbrev pub can_read : Handler → Bool
can_read h = h.reading && has_room 11 (length h.message_chan)

-- A message that the reader gets.
unfoldable pub on_read : Bytes → Option (Handler × List Handler) → WsTransport → WsTransport
unfolding sent_first
on_read msg none s = s
on_read msg (some (h, others)) s = if can_read h then sent_first msg h others s else s

-- `ReadMessage` where a restart has set `s.controlChannel` to nil.
unfoldable pub on_read_nil : Option ℕ → Option (Handler × List Handler) → WsTransport → WsTransport
on_read_nil none (some (h, others)) s =
    if s.cancelled && can_read h then record s { crashed = true } else s
on_read_nil c o s = s

-- An error of the reader.
unfoldable pub on_read_error : Option (Handler × List Handler) → WsTransport → WsTransport
on_read_error none s = s
on_read_error (some (h, others)) s =
    if can_read h
    then record s {
      handlers = others ++ (record h { reading = false } ∷ []);
      restart_calls = s.restart_calls + 1;
    }
    else s

-- `case <-s.ctx.Done()` of the reader, which it does not come to at a send that blocks.
unfoldable pub on_reader_done : Option (Handler × List Handler) → WsTransport → WsTransport
on_reader_done none s = s
on_reader_done (some (h, others)) s =
    if s.cancelled && can_read h then put_handler (record h { reading = false }) others s else s

-- `switch msg`
unfoldable pub message_handled : List ℕ → Handler → List Handler → WsTransport → WsTransport
message_handled [] h others s = s
message_handled (msg ∷ rest) h others s =
    let h = record h { message_chan = rest } in
    if msg == sg_hb then put_handler h others s else handler_failed h others s

-- `case msg, ok := <-messageChan`
unfoldable pub on_message : Option (Handler × List Handler) → WsTransport → WsTransport
unfolding message_handled
on_message none s = s
on_message (some (h, others)) s = if h.alive then message_handled h.message_chan h others s else s

-- `Restart` up to its sleep; it is skipped while another is on the way.
unfoldable pub on_restart : WsTransport → WsTransport
on_restart s =
    if s.restart_calls == 0
    then s
    else if s.restarting
    then record s { restart_calls = s.restart_calls - 1 }
    else record s {
      restart_calls = s.restart_calls - 1;
      restarting = true;
      cancelled = true;
      control_open = false;
    }

-- The program ends: the context that all others are made of is cancelled.
unfoldable pub on_stop : WsTransport → WsTransport
on_stop s = record s { cancelled = true }

-- The end of `tunnelListener`, when its server has shut down.
unfoldable pub on_listener_done : WsTransport → WsTransport
on_listener_done s = if s.cancelled then record s { control_open = false } else s

-- `Restart` behind its sleep. It ends no goroutine: those that have not seen the cancelled context go on.
unfoldable pub on_restarted : WsTransport → WsTransport
on_restarted s =
    if s.restarting
    then record s {
      restarting = false;
      ready = false;
      control_channel = none;
      control_open = false;
      former_controls = s.former_controls ++ control_ids s.control_channel;
      tunnel_channel = [];
      former_tunnels = s.former_tunnels ++ map (λ (t : Queued). t.socket) s.tunnel_channel;
      local_channel = [];
      lost = s.lost ++ map (λ (c : Inbound). c.id) s.local_channel;
      req_new_conn_chan = 0;
    }
    else s
