-- ===== src/Ws.antt =====
-- The WebSocket transports: internal/server/transport/ws.go and internal/client/transport/ws.go. Of the
-- library gorilla/websocket the model has messages, which a connection sends and reads whole and in
-- order, and the outcome of a write, which is that of the event.
pub mod Tunnel
pub mod Server
pub mod Places
pub mod Conserved
pub mod Guarded
pub mod Kept
use backhaul_plus.Prelude.{List, [], ◌∷◌}
use backhaul_plus.Signals.{sg_ping}
use backhaul_plus.Strings.{Bytes}

-- A message: `websocket.TextMessage` or `websocket.BinaryMessage`, with its payload.
pub data Message : Type 0 where
  text binary : Bytes → Message

abbrev pub bytes_of : Message → Bytes
bytes_of (text bytes) = bytes
bytes_of (binary bytes) = bytes

-- The message of `keepAlive`.
abbrev pub ping_message : Message
ping_message = binary (sg_ping ∷ [])
