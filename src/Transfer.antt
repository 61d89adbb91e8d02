-- ===== src/Transfer.antt =====
-- internal/utils/tcpConnHandler.go: the copy loop between an inbound connection and a tunnel.
pub mod Complete
use backhaul_plus.Prelude.{
  ℕ, zero, suc, ◌==◌, Bool, Option, none, some, ℤ, pos, negsuc, if◌then◌else◌, length,
}
use backhaul_plus.Prefixed
use backhaul_plus.Prefixed.{NetConn, plain, prefixed, close}
use backhaul_plus.Stream
use backhaul_plus.Stream.{Conn, IoError}
use backhaul_plus.Strings.{Bytes}
use backhaul_plus.UdpOverTcp.{counted}
use backhaul_plus.Usage.{UsageMap}

-- `Write` is the embedded connection's.
abbrev pub write_embedded : Bytes → NetConn → Option IoError × NetConn
write_embedded bytes (plain c) = let (e, c') = Stream.write bytes c in (e, plain c')
write_embedded bytes (prefixed p) =
    let (e, c') = Stream.write bytes p.conn in (e, prefixed (record p { conn = c' }))

-- `for totalWritten < r`
abbrev pub write_all : Bytes → NetConn → Option IoError × NetConn
write_all bytes to = if length bytes == 0 then (none, to) else write_embedded bytes to

pub record Link : Type 0 where
  pub from : NetConn
  pub to : NetConn
  pub usage : UsageMap

abbrev pub both_closed : Link → Link
both_closed l = record l { from = close l.from; to = close l.to }

-- 16 KiB, where no size is given.
abbrev pub copy_buffer_size : ℤ → ℕ
copy_buffer_size (pos zero) = 16384
copy_buffer_size (pos (suc n)) = suc n
copy_buffer_size (negsuc n) = 16384

module _ (sniffer : Bool) (port size : ℕ) where
  unfoldable pub chunk_written :
      (Link → Option Link) → ℕ → Link → Option IoError × NetConn → Option Link
  chunk_written next n l (none, to) =
      next (record l { to = to; usage = counted sniffer port n l.usage })
  chunk_written next n l (some e, to) = some (both_closed (record l { to = to }))

  unfoldable pub chunk_read :
      (Link → Option Link) → Link → Bytes × Option IoError × NetConn → Option Link
  unfolding chunk_written
  chunk_read next l (bytes, none, from) =
      chunk_written next (length bytes) (record l { from = from }) (write_all bytes l.to)
  chunk_read next l (bytes, some e, from) = some (both_closed (record l { from = from }))

  -- The loop of `transferData`; `none` is the end of the fuel.
  unfoldable pub transfer_loop : ℕ → Link → Option Link
  unfolding chunk_read
  transfer_loop zero l = none
  transfer_loop (suc fuel) l = chunk_read (transfer_loop fuel) l (Prefixed.read size l.from)

-- `transferData`
unfoldable pub transfer_data : Bool → ℕ → ℤ → ℕ → Link → Option Link
transfer_data sniffer port size fuel l = transfer_loop sniffer port (copy_buffer_size size) fuel l
