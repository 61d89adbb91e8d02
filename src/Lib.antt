-- ===== src/Lib.antt =====
-- BackhaulPlus, a reverse tunnel: what decides where an inbound connection goes, and whether a
-- configuration is fit to start.
--
-- A public gateway accepts a connection, reads its first bytes without answering them, finds the host
-- that the client wants, and hands the connection with these bytes to the server of the route. The
-- server queues it for a tunnel connection. Before that the configuration is filled with defaults and
-- checked, and the check builds the route tables of the gateways.
--
-- Parts:
--   Prelude, Result, Maps: numbers, lists, Go's integers, (value, error) pairs and string maps.
--   Strings, Net: what the program uses of Go's strings, bytes, strconv and net, on ASCII.
--   Stream: net.Conn as its reader sees it, the segments to arrive and a last error. A deadline that
--     passes is such an error; the deadline that was set is a field.
--   Wire: internal/utils/binary.go, every function (send_binary_string is SendBinaryString, and so
--     on). RoundTrip holds senders against receivers.
--   Prefixed: internal/server/transport/prefixed_conn.go.
--   Sni: internal/server/transport/sni.go. Parse is parseSNIFromClientHello, Inspect is
--     ReadTLSClientHelloSNI, whose local variables are the record Inspection. Hello describes the
--     message that a client writes, independently of the parser.
--   Http: internal/server/transport/http_preread.go. Host has the parsers, Preread is ReadHTTPHost;
--     a pass of its loop is a Round. RequestLine and Headers describe the texts that it reads.
--   Registry: internal/server/transport/registry.go and the inbound queue of tcp.go.
--   Control: channelHandshake of internal/server/transport/tcp.go and tcpmux.go, and channelDialer of
--     internal/client/transport/tcp.go. Signals: internal/utils/signals.go.
--   Pairing: handleLoop of internal/server/transport/tcp.go and tunnelDialer of
--     internal/client/transport/tcp.go, the two ends of an announcement.
--   TcpMux: internal/server/transport/tcpmux.go, the control channels; Sessions has the queue,
--     handleLoop, handleSession and Restart, whose goroutines are cut where they may block.
--   UdpOverTcp: accept_udp.go of internal/server/transport and internal/client/transport.
--   UdpListener: the listeners of accept_udp.go and udp.go of internal/server/transport.
--   Tunnels: acceptTunnelConn of internal/server/transport/tcp.go, with Start and Restart: whose
--     connections become tunnels. Peers tells them apart by IP.
--   Ws: internal/server/transport/ws.go. Tunnel is one tunnel connection, with keepAlive, the copy loops
--     of internal/utils/wsConnHandler.go and tunnelDialer of internal/client/transport/ws.go. Server is
--     the transport with its HTTP handlers, its restart and the goroutines that outlive it, Places where
--     its connections are.
--   Pool: poolMaintainer and channelHandler of internal/client/transport/tcp.go. Dialing: TcpDialer of
--     internal/client/transport/shared.go.
--   Usage: internal/web/sniffer.go, the counters, the log file and the saves, which may overlap.
--   Transfer: transferData of internal/utils/tcpConnHandler.go.
--   Start: internal/server/server.go, and the registration of the servers in cmd/cmd.go.
--   Ports: parsePortMappings of internal/server/transport/tcp.go.
--   Client: ResolveRemoteAddr of internal/client/transport/shared.go, and clientLogLabel; Workers is
--     Start of internal/client/client.go, and Launch the choice of cmd/cmd.go what to run.
--   Gateway: handleConn of gateway.go and http_gateway.go, with PortFromTarget.
--   Config: internal/config/config.go; Defaults is cmd/defaults.go, the others are cmd/validate.go,
--     and Runtime is the translation in cmd/cmd.go.
--   Tests: the theorems at concrete inputs.
--
-- Outcomes: an index out of bounds is `panic` and a loop out of fuel is `stuck`; neither is an answer
-- of the code, and IsSafe says that a result is neither. A loop over a buffer has one more unit of
-- fuel than the buffer has bytes, as each pass takes at least one; the loops over records need as much
-- fuel as bytes are wanted, as no record is empty; the HTTP loop needs fuel_for the segments, as a
-- read takes a whole segment or 4096 bytes.
--
-- Widths: a duration in seconds is multiplied on an int64, a dialer doubles its wait on 64 bits, counters
-- are 32 or 64 bits wide; the times of a packet are taken modulo ten minutes.
--
-- Parameters: time.ParseDuration, logrus.ParseLevel (whether a level is known), the order in which a
-- range loop sees a map, which Go leaves open, the attempts of a dialer, and the clock of a copy.
--
-- Goroutines that share state are the events of a run in any order (TcpMux.Sessions, Pool,
-- UdpListener, Tunnels, Ws, Usage.Saved); the handlers of the gateways and the two ends of a
-- connection each run alone. The loops over packets need one more unit of fuel than there are
-- packets, the copy loop reads_left of its connection.
--
-- Not modelled: sockets, timers, logging and the texts of messages; the transports over QUIC and
-- over multiplexed WebSockets, and the tunnels of the plain UDP one, whose control channels and
-- queues are those of the others on other connections; smux, whose OpenStream is an outcome of the
-- model's; the web page and the system statistics of the usage monitor; the maintenance of the
-- process.
pub mod Prelude
pub mod Result
pub mod Strings
pub mod Stream
pub mod Prefixed
pub mod Wire
pub mod Net
pub mod Sni
pub mod Http
pub mod Maps
pub mod Config
pub mod Registry
pub mod Ports
pub mod Client
pub mod Signals
pub mod Control
pub mod Start
pub mod Transfer
pub mod Dialing
pub mod Pool
pub mod Pairing
pub mod Tunnels
pub mod TcpMux
pub mod UdpListener
pub mod Ws
pub mod UdpOverTcp
pub mod Usage
pub mod Gateway
pub mod Tests
