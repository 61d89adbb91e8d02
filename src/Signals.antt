-- ===== src/Signals.antt =====
-- internal/utils/signals.go: the bytes of the control channel.
use backhaul_plus.Prelude.{ℕ}

abbrev pub sg_hb : ℕ
sg_hb = 0

abbrev pub sg_chan : ℕ
sg_chan = 1

abbrev pub sg_ping : ℕ
sg_ping = 2

abbrev pub sg_closed : ℕ
sg_closed = 3

abbrev pub sg_tcp : ℕ
sg_tcp = 4

abbrev pub sg_udp : ℕ
sg_udp = 5

abbrev pub sg_rtt : ℕ
sg_rtt = 6
