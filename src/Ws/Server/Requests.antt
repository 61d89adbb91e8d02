-- ===== src/Ws/Server/Requests.antt =====
-- What comes in: the HTTP handler of `tunnelListener`, `acceptLocalConn` and `EnqueueInbound` of
-- internal/server/transport/ws.go.
use backhaul_plus.Prelude.{
  ℕ, ◌+◌, min, Bool, true, false, ◌&&◌, [], ◌∷◌, ◌++◌, Option, none, some, if◌then◌else◌, length,
  List,
}
use backhaul_plus.Registry.{has_room}
use backhaul_plus.Strings.{Bytes, codes, equal, has_prefix}
use backhaul_plus.Ws.Server.State.{WsTransport, Looked}

-- An HTTP request; `upgrades` says whether `Upgrade` succeeds.
pub record Request : Type 0 where
  pub authorization : Bytes
  pub path : Bytes
  pub upgrades : Bool

-- The test of `s.controlChannel`, which no lock joins with what follows.
abbrev pub is_none : Option ℕ → Bool
is_none none = true
is_none (some c) = false

unfoldable pub on_control : ℕ → ℕ → WsTransport → WsTransport
on_control cpus id s = record s {
  looked =
      s.looked
      ++ (record { socket = id; cpus = cpus; found_none = is_none s.control_channel } ∷ []);
}

abbrev pub control_ids : Option ℕ → List ℕ
control_ids none = []
control_ids (some id) = id ∷ []

-- `s.controlChannel = conn` and what is started with it.
unfoldable pub control_set : Looked → WsTransport → WsTransport
control_set h s = record s {
  former_controls = s.former_controls ++ control_ids s.control_channel;
  control_channel = some h.socket;
  control_open = true;
  ready = true;
  handlers = s.handlers ++ (record { alive = true; reading = true; message_chan = [] } ∷ []);
  idle = s.idle + min 4 h.cpus;
}

-- `s.controlChannel.Close()` and the restart for a second control channel. If a restart has set nil
-- meanwhile, this panics, and net/http recovers.
unfoldable pub control_refused : ℕ → Option ℕ → WsTransport → WsTransport
control_refused id none s = record s { stray = s.stray ++ (id ∷ []) }
control_refused id (some c) s = record s {
  control_open = false;
  closed_sockets = s.closed_sockets ++ (id ∷ []);
  restart_calls = s.restart_calls + 1;
}

-- The rest of a handler of `/channel`.
unfoldable pub on_looked : Option (Looked × List Looked) → WsTransport → WsTransport
unfolding control_set control_refused
on_looked none s = s
on_looked (some (h, others)) s =
    let s = record s { looked = others } in
    if h.found_none then control_set h s else control_refused h.socket s.control_channel s

module _ (channel_size : ℕ) where
  unfoldable pub on_tunnel : ℕ → WsTransport → WsTransport
  on_tunnel id s =
      if has_room channel_size (length s.tunnel_channel)
      then record s {
        tunnel_channel = s.tunnel_channel ++ (record { socket = id; is_open = true } ∷ []);
      }
      else record s { closed_sockets = s.closed_sockets ++ (id ∷ []) }

  -- The upgraded connection, by `r.URL.Path`.
  unfoldable pub on_path : ℕ → Bytes → WsTransport → WsTransport
  unfolding on_control on_tunnel
  on_path cpus path s =
      let id = s.next_socket in
      let s = record s { next_socket = s.next_socket + 1 } in
      if equal path (codes "/channel")
      then on_control cpus id s
      else if has_prefix path (codes "/tunnel")
      then on_tunnel id s
      else record s { stray = s.stray ++ (id ∷ []) }

  -- The handler of `tunnelListener`.
  unfoldable pub on_request : Bytes → ℕ → Request → WsTransport → WsTransport
  unfolding on_path
  on_request token cpus r s =
      if equal r.authorization (codes "Bearer " ++ token) && r.upgrades
      then on_path cpus r.path s
      else s

  -- `enqueueInbound` where the channel has room.
  unfoldable pub inbound_queued : ℕ → Bytes → ℕ → WsTransport → WsTransport
  inbound_queued now target report_port s = record s {
    next_inbound = s.next_inbound + 1;
    local_channel =
        s.local_channel
        ++ (record {
          id = s.next_inbound;
          remote_addr = target;
          time_created = now;
          report_port = report_port;
        }
            ∷ []);
    req_new_conn_chan =
        if has_room channel_size s.req_new_conn_chan
        then s.req_new_conn_chan + 1
        else s.req_new_conn_chan;
  }

  -- `acceptLocalConn`: a connection for which there is no room is closed.
  unfoldable pub on_accept : ℕ → Bytes → WsTransport → WsTransport
  unfolding inbound_queued
  on_accept now remote_addr s =
      if has_room channel_size (length s.local_channel)
      then inbound_queued now remote_addr 0 s
      else record s {
        next_inbound = s.next_inbound + 1;
        closed_inbound = s.closed_inbound ++ (s.next_inbound ∷ []);
      }

  -- `EnqueueInbound`: a connection that is refused stays with the gateway.
  unfoldable pub on_inbound : ℕ → Bytes → ℕ → WsTransport → WsTransport
  unfolding inbound_queued
  on_inbound now target report_port s =
      if s.ready && has_room channel_size (length s.local_channel)
      then inbound_queued now target report_port s
      else s
