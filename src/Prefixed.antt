-- ===== src/Prefixed.antt =====
-- internal/server/transport/prefixed_conn.go: a connection that first replays the bytes that were
-- read while it was inspected.
pub mod Replay
pub mod Fuel
use backhaul_plus.Prelude.{
  ℕ, ◌+◌, List, [], ◌∷◌, ◌++◌, Option, none, ltb, leb, ◌==◌, if◌then◌else◌, length, take, drop,
}
use backhaul_plus.Stream
use backhaul_plus.Stream.{Conn, IoError, stream}
use backhaul_plus.Strings.{Bytes}

pub record PrefixedConn : Type 0 where
  pub conn : Conn
  pub prefix : Bytes
  pub off : ℕ

-- The interface `net.Conn`, by the two types that the gateways hand on.
pub data NetConn : Type 0 where
  plain : Conn → NetConn
  prefixed : PrefixedConn → NetConn

unfoldable pub new_prefixed_conn : Conn → Bytes → NetConn
new_prefixed_conn conn prefix =
    if length prefix == 0
    then plain conn
    else prefixed (record { conn = conn; prefix = prefix; off = 0 })

-- `copy(b, p.prefix[p.off:])` for a buffer of `size` bytes.
replay : ℕ → PrefixedConn → Bytes × Option IoError × NetConn
replay size p =
    let bytes = take size (drop p.off p.prefix) in
    let off = p.off + length bytes in
    if leb (length p.prefix) off
    then (bytes, none, prefixed (record p { prefix = []; off = 0 }))
    else (bytes, none, prefixed (record p { off = off }))

delegate : ℕ → PrefixedConn → Bytes × Option IoError × NetConn
delegate size p =
    let (bytes, e, conn) = Stream.read size p.conn in
    (bytes, e, prefixed (record p { conn = conn }))

unfoldable pub read : ℕ → NetConn → Bytes × Option IoError × NetConn
unfolding replay delegate
read size (plain c) = let (bytes, e, c') = Stream.read size c in (bytes, e, plain c')
read size (prefixed p) = if ltb 0 (length p.prefix) then replay size p else delegate size p

abbrev pub embedded : NetConn → Conn
embedded (plain c) = c
embedded (prefixed p) = p.conn

-- `Close` is the embedded connection's.
abbrev pub close : NetConn → NetConn
close (plain c) = plain (Stream.close c)
close (prefixed p) = prefixed (record p { conn = Stream.close p.conn })

-- What a reader of the connection is still to get.
abbrev pub unread : NetConn → Bytes
unread (plain c) = stream c
unread (prefixed p) = drop p.off p.prefix ++ stream p.conn
