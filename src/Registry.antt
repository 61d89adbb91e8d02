-- ===== src/Registry.antt =====
-- internal/server/transport/registry.go, and of tcp.go the hand-over of an inbound connection to a
-- running server (`InboundTarget`).
use backhaul_plus.Prelude.{
  ℕ, ◌+◌, Bool, true, false, List, [], ◌∷◌, ◌++◌, Option, ltb, if◌then◌else◌, length,
}
use backhaul_plus.Maps.{Map, lookup, insert}
use backhaul_plus.Prefixed.{NetConn}
use backhaul_plus.Strings.{Bytes}

pub record LocalTcpConn : Type 0 where
  pub conn : NetConn
  pub remote_addr : Bytes
  pub time_created : ℕ
  pub report_port : ℕ

-- The part of `TcpTransport` that takes connections: two bounded channels and the flag.
pub record TcpTransport : Type 0 where
  pub ready : Bool
  pub channel_size : ℕ
  pub local_channel : List LocalTcpConn
  pub req_new_conn_chan : ℕ

-- `select { case ch <- x: … default: }` on a channel with room for one more value.
abbrev pub has_room : ℕ → ℕ → Bool
has_room size queued = ltb queued size

abbrev pub local_conn : ℕ → NetConn → Bytes → ℕ → LocalTcpConn
local_conn now conn target report_port = record {
  conn = conn;
  remote_addr = target;
  time_created = now;
  report_port = report_port;
}

-- The value sent, and the request for a tunnel connection, dropped when its channel is full.
abbrev pub queued : LocalTcpConn → TcpTransport → TcpTransport
queued entry s = record s {
  local_channel = s.local_channel ++ (entry ∷ []);
  req_new_conn_chan =
      if has_room s.channel_size s.req_new_conn_chan
      then s.req_new_conn_chan + 1
      else s.req_new_conn_chan;
}

-- `enqueueInbound`
unfoldable pub enqueue_local : ℕ → NetConn → Bytes → ℕ → TcpTransport → TcpTransport × Bool
enqueue_local now conn target report_port s =
    if has_room s.channel_size (length s.local_channel)
    then (queued (local_conn now conn target report_port) s, true)
    else (s, false)

-- `EnqueueInbound`
unfoldable pub enqueue_inbound : ℕ → NetConn → Bytes → ℕ → TcpTransport → TcpTransport × Bool
unfolding enqueue_local
enqueue_inbound now conn target report_port s =
    if s.ready then enqueue_local now conn target report_port s else (s, false)

-- The runtimes by server name; an entry may hold no runtime (Go's nil).
abbrev pub Registry : Type 0
Registry = Map (Option TcpTransport)

abbrev pub new_registry : Registry
new_registry = []

abbrev pub register : Bytes → Option TcpTransport → Registry → Registry
register = insert

abbrev pub lookup_target : Bytes → Registry → Option (Option TcpTransport)
lookup_target = lookup
