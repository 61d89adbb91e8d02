-- ===== src/Ws/Server/State.antt =====
-- The state of the server of internal/server/transport/ws.go, and its start.
use backhaul_plus.Prelude.{ℕ, Bool, false, List, [], Option, none}
use backhaul_plus.Strings.{Bytes}
use backhaul_plus.Ws.{Message}

-- `LocalTCPConn`
pub record Inbound : Type 0 where
  pub id : ℕ
  pub remote_addr : Bytes
  pub time_created : ℕ
  pub report_port : ℕ

-- An inbound connection in a `handleLoop`, that has passed the check of its age, and waits for a tunnel
-- connection, or has not.
pub record Waiting : Type 0 where
  pub inbound : Inbound
  pub checked : Bool

-- `WSConnectionHandler`
pub record Copy : Type 0 where
  pub inbound : Inbound
  pub socket : ℕ

-- A `TunnelChannel` in the queue, which its `keepAlive` may have closed.
pub record Queued : Type 0 where
  pub socket : ℕ
  pub is_open : Bool

-- A handler of `/channel` that has looked at `s.controlChannel` and not yet acted on it.
pub record Looked : Type 0 where
  pub socket : ℕ
  pub cpus : ℕ
  pub found_none : Bool

-- The goroutines of a `channelHandler`: the loop, the reader, and what the reader has read for it, the
-- message at the send included.
pub record Handler : Type 0 where
  pub alive : Bool
  pub reading : Bool
  pub message_chan : List ℕ

-- `cancelled` says that some context was cancelled, which a goroutine that has read it may see at any time
-- from then on; `idle` counts the loops that wait for an inbound connection, and `restart_calls` the calls
-- of `Restart` that have not begun. `former_controls` and `former_tunnels` are the WebSockets that were
-- the control channel or queued before another took the place or a restart replaced the queue, closed or
-- not; `stray` are those that a handler leaves alone; `lost` are the inbound connections that are
-- neither closed nor reachable.
pub record WsTransport : Type 0 where
  pub cancelled : Bool
  pub ready : Bool
  pub restarting : Bool
  pub crashed : Bool
  pub restart_calls : ℕ
  pub looked : List Looked
  pub control_channel : Option ℕ
  pub control_open : Bool
  pub control_sent : List Message
  pub handlers : List Handler
  pub tunnel_channel : List Queued
  pub local_channel : List Inbound
  pub req_new_conn_chan : ℕ
  pub idle : ℕ
  pub waiting : List Waiting
  pub copies : List Copy
  pub closed_sockets : List ℕ
  pub former_controls : List ℕ
  pub former_tunnels : List ℕ
  pub stray : List ℕ
  pub closed_inbound : List ℕ
  pub lost : List ℕ
  pub next_socket : ℕ
  pub next_inbound : ℕ

-- `NewWSServer`
abbrev pub new_ws_server : WsTransport
new_ws_server = record {
  cancelled = false;
  ready = false;
  restarting = false;
  crashed = false;
  restart_calls = 0;
  looked = [];
  control_channel = none;
  control_open = false;
  control_sent = [];
  handlers = [];
  tunnel_channel = [];
  local_channel = [];
  req_new_conn_chan = 0;
  idle = 0;
  waiting = [];
  copies = [];
  closed_sockets = [];
  former_controls = [];
  former_tunnels = [];
  stray = [];
  closed_inbound = [];
  lost = [];
  next_socket = 0;
  next_inbound = 0;
}
