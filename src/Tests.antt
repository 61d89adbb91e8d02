-- ===== src/Tests.antt =====
-- Runs of the theorems at concrete inputs.
pub mod Gateways
pub mod Configs
pub mod Transports
pub mod Tunnels
pub mod WebSockets
use backhaul_plus.Prelude.{List, [], none, false}
use backhaul_plus.Stream.{Conn, eof}
use backhaul_plus.Strings.{Bytes}

-- A connection on which these segments arrive and then an end of file.
abbrev pub conn_of : List Bytes → Conn
conn_of segments = record {
  segments = segments;
  final = eof;
  deadline_error = none;
  read_deadline = none;
  closed = false;
  written = [];
  write_error = none;
}
