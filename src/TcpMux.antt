-- ===== src/TcpMux.antt =====
-- internal/server/transport/tcpmux.go: the control channels of the server, the first one and those of
-- further clients.
pub mod Probe
pub mod Signalled
pub mod RoundRobin
pub mod Heartbeat
pub mod Sessions
use backhaul_plus.Prelude.{
  ℕ, zero, suc, ◌+◌, ◌%◌, Bool, true, false, not, ◌||◌, List, [], ◌∷◌, ◌++◌, Option, none, some,
  ltb, ◌==◌, if◌then◌else◌, length, take, get_or,
}
use backhaul_plus.Prefixed.{NetConn, plain, new_prefixed_conn}
use backhaul_plus.Result.{Result, ok, err, panic, stuck}
use backhaul_plus.Signals.{sg_hb, sg_chan}
use backhaul_plus.Stream.{IoError, Conn, stream, read_full, write, close}
use backhaul_plus.Strings.{Bytes, equal}
use backhaul_plus.Wire.{uint16, transport_frame}

-- A connection and the IP address of its peer.
pub record ControlConn : Type 0 where
  pub conn : Conn
  pub ip : Bytes

-- `controlChannel`, `extraCtrlConns` and `rrControlIdx`.
pub record Controls : Type 0 where
  pub control_channel : Option ControlConn
  pub extra_ctrl_conns : List ControlConn
  pub rr_control_idx : ℕ

abbrev pub has_ip : Bytes → List ControlConn → Bool
has_ip ip [] = false
has_ip ip (c ∷ cs) = equal c.ip ip || has_ip ip cs

-- `shouldProbeForExtraControl`
unfoldable pub should_probe : Bytes → Controls → Bool
should_probe ip s = elim s.control_channel [
  | none ↦ true
  | some c ↦ if equal c.ip ip then false else not (has_ip ip s.extra_ctrl_conns)
]

-- What `tryPromoteExtraControlChannel` does with a connection: it is handed back for a tunnel, closed,
-- or kept as a control channel.
pub data Probed : Type 0 where
  tunnel : NetConn → Probed
  discarded : Conn → Probed
  promoted : Conn → Probed

-- `SetReadDeadline(time.Time{})`
abbrev pub without_deadline : Conn → Conn
without_deadline c = record c { read_deadline = none }

-- A connection handed back with the bytes that were read.
abbrev pub with_prefix : Bytes → Conn → Probed
with_prefix bytes c = tunnel (new_prefixed_conn (without_deadline c) bytes)

abbrev pub acknowledged : Option IoError × Conn → Probed
acknowledged (none, c) = promoted c
acknowledged (some e, c) = discarded (close c)

-- The body behind the header; `got` is what `io.ReadFull` left in its buffer: all that came, as far as
-- it was asked for.
unfoldable pub probe_body : Bytes → Bytes → Bytes → Result IoError Bytes × Conn → Probed
probe_body token header got (ok body, c) =
    if equal body token
    then acknowledged (write (transport_frame token sg_chan) (without_deadline c))
    else discarded (close (without_deadline c))
probe_body token header got (err e, c) = with_prefix (header ++ got) c
probe_body token header got (panic, c) = with_prefix (header ++ got) c
probe_body token header got (stuck, c) = with_prefix (header ++ got) c

-- `transport != SG_Chan || msgLen < 1 || msgLen > maxTokenLen`
unfoldable pub no_token : Bytes → Bool
no_token header =
    not (get_or header 2 0 == sg_chan) || (ltb (uint16 header) 1 || ltb 512 (uint16 header))

unfoldable pub probe_header : Bytes → Bytes → Result IoError Bytes × Conn → Probed
unfolding probe_body no_token
probe_header token got (ok header, c) =
    if no_token header
    then with_prefix header c
    else probe_body token header (take (uint16 header) (stream c)) (read_full (uint16 header) c)
probe_header token got (err e, c) = with_prefix got c
probe_header token got (panic, c) = with_prefix got c
probe_header token got (stuck, c) = with_prefix got c

-- 1500 milliseconds.
abbrev pub probe_timeout : ℕ
probe_timeout = 1500000000

-- From the answer of `SetReadDeadline` on.
unfoldable pub probe_set : Bytes → Conn → Option IoError → Probed
unfolding probe_header
probe_set token c (some e) = tunnel (plain c)
probe_set token c none =
    let c = record c { read_deadline = some probe_timeout } in
    probe_header token (take 3 (stream c)) (read_full 3 c)

-- `tryPromoteExtraControlChannel`, up to the list of the extra channels.
unfoldable pub probe : Bytes → Conn → Probed
probe token c = probe_set token c c.deadline_error

abbrev pub kept_control : Bytes → Probed → Controls → Controls
kept_control ip (promoted c) s = record s {
  extra_ctrl_conns = s.extra_ctrl_conns ++ (record { conn = c; ip = ip } ∷ []);
}
kept_control ip (tunnel c) s = s
kept_control ip (discarded c) s = s

unfoldable pub try_promote : Bytes → Conn → Bytes → Controls → Probed × Controls
try_promote token c ip s = let p = probe token c in (p, kept_control ip p s)

-- `channels`: the control channel and the extra ones.
abbrev pub in_order : Option ControlConn → List ControlConn → List ControlConn
in_order none extras = extras
in_order (some c) extras = c ∷ extras

abbrev pub channels : Controls → List ControlConn
channels s = in_order s.control_channel s.extra_ctrl_conns

-- The channels back in their places.
abbrev pub placed : Option ControlConn → List ControlConn → Controls → Controls
placed none cs s = record s { extra_ctrl_conns = cs }
placed (some old) [] s = s
placed (some old) (c ∷ cs) s = record s { control_channel = some c; extra_ctrl_conns = cs }

abbrev pub with_channels : List ControlConn → Controls → Controls
with_channels cs s = placed s.control_channel cs s

-- `SendBinaryByte`, and `Close` when it fails.
abbrev pub signalled : ControlConn → Option IoError × Conn → Bool × ControlConn
signalled c (none, conn) = (true, record c { conn = conn })
signalled c (some e, conn) = (false, record c { conn = close conn })

unfoldable pub signal : ℕ → ControlConn → Bool × ControlConn
signal sg c = signalled c (write (sg ∷ []) c.conn)

-- The channel at a position is sent a signal; `none` beyond the end.
abbrev pub cons_result :
    ControlConn → Option (Bool × List ControlConn) → Option (Bool × List ControlConn)
cons_result c none = none
cons_result c (some (sent, cs)) = some (sent, c ∷ cs)

unfoldable pub signal_at : ℕ → ℕ → List ControlConn → Option (Bool × List ControlConn)
unfolding signal
signal_at sg i [] = none
signal_at sg zero (c ∷ cs) = let (sent, c') = signal sg c in some (sent, c' ∷ cs)
signal_at sg (suc i) (c ∷ cs) = cons_result c (signal_at sg i cs)

-- A pass of the loop at position `idx`: it ends when the signal was sent, with the index behind it.
abbrev pub next_channel :
    (List ControlConn → Result (Unit {0}) ℕ × List ControlConn)
    → ℕ
    → ℕ
    → Option (Bool × List ControlConn)
    → Result (Unit {0}) ℕ × List ControlConn
next_channel next idx n none = (panic, [])
next_channel next idx n (some (true, cs)) = (ok ((idx + 1) % n), cs)
next_channel next idx n (some (false, cs)) = next cs

-- `for i := 0; i < len(channels); i++`, with `left` passes to go.
unfoldable pub round_robin : ℕ → ℕ → ℕ → List ControlConn → Result (Unit {0}) ℕ × List ControlConn
round_robin zero i start cs = (err tt, cs)
round_robin (suc left) i start cs =
    next_channel (round_robin left (suc i) start) ((start + i) % length cs) (length cs)
      (signal_at sg_chan ((start + i) % length cs) cs)

abbrev pub rotated :
    Result (Unit {0}) ℕ × List ControlConn → Controls → Result (Unit {0}) (Unit {0}) × Controls
rotated (ok idx, cs) s = (ok tt, with_channels cs (record s { rr_control_idx = idx }))
rotated (err e, cs) s = (err e, with_channels cs s)
rotated (panic, cs) s = (panic, s)
rotated (stuck, cs) s = (stuck, s)

-- `sendNewConnSignalRoundRobin`
unfoldable pub send_new_conn_signal : Controls → Result (Unit {0}) (Unit {0}) × Controls
send_new_conn_signal s =
    if length (channels s) == 0
    then (err tt, s)
    else rotated
        (round_robin (length (channels s)) 0 (s.rr_control_idx % length (channels s)) (channels s))
        s

-- The extra channels after a heartbeat: one whose signal fails is closed and left out.
unfoldable pub alive_extras : List ControlConn → List ControlConn
unfolding signal
alive_extras [] = []
alive_extras (c ∷ cs) =
    let (sent, c') = signal sg_hb c in if sent then c' ∷ alive_extras cs else alive_extras cs

abbrev pub all_told :
    List ControlConn → Bool × ControlConn → Controls → Result (Unit {0}) (Unit {0}) × Controls
all_told extras (sent, c') s = (
  (if sent then ok tt else err tt),
  record s { control_channel = some c'; extra_ctrl_conns = extras },
)

unfoldable pub heartbeat_to :
    Option ControlConn → Controls → Result (Unit {0}) (Unit {0}) × Controls
unfolding alive_extras signal
heartbeat_to none s =
    if length s.extra_ctrl_conns == 0
    then (err tt, s)
    else (ok tt, record s { extra_ctrl_conns = alive_extras s.extra_ctrl_conns })
heartbeat_to (some c) s = all_told (alive_extras s.extra_ctrl_conns) (signal sg_hb c) s

-- `broadcastHeartbeat`
unfoldable pub broadcast_heartbeat : Controls → Result (Unit {0}) (Unit {0}) × Controls
unfolding heartbeat_to
broadcast_heartbeat s = heartbeat_to s.control_channel s
