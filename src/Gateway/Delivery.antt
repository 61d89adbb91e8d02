-- ===== src/Gateway/Delivery.antt =====
-- internal/server/transport/gateway.go and http_gateway.go: what becomes of a connection.
use backhaul_plus.Prelude.{
  ℕ, ◌≤◌, ◌<◌, ◌≡◌, refl, ◌∙◌, ◌⊎◌, inl, inr, Bool, true, false, [], ◌∷◌, ◌++◌, Option, none, some,
  arith, length, length-append, ltb, ltb→lt, if◌then◌else◌, Bool-cases, ◌&&◌,
}
use backhaul_plus.Maps.{Map, lookup, lookup-insert}
use backhaul_plus.Prefixed
use backhaul_plus.Prefixed.{NetConn, plain, prefixed, new_prefixed_conn, unread, embedded}
use backhaul_plus.Prefixed.Replay.{unread-new_prefixed_conn}
use backhaul_plus.Registry.{
  queued, local_conn, TcpTransport, LocalTcpConn, Registry, register, lookup_target,
  enqueue_inbound,
}
use backhaul_plus.Stream
use backhaul_plus.Stream.{Conn, stream}
use backhaul_plus.Strings.{Bytes}
use backhaul_plus.Strings.Search.{equal_iff}
use backhaul_plus.Gateway.{
  GatewayRoute, Handled, handed_over, dropped, enqueued, hand_over, dispatch, port_from_target,
  Result, handle_conn, handle_http_conn, ok, GatewayConfig, HttpGatewayConfig, err, inspected,
  read_tls_client_hello_sni, read_http_host,
}
use backhaul_plus.Result.{panic, stuck}
use mathlib.Core.Path.{subst}
use backhaul_plus.Sni.Inspect.Replay.{read_tls_client_hello_sni-replays}
use backhaul_plus.Http.Preread.Replay.{read_http_host_lem}

-- The queue of a server that took a connection: one more entry, at the end, with the whole stream of
-- the client to read and the target and port of the route.
pub record Took (sent : Bytes) (route : GatewayRoute) (t t' : TcpTransport) : Type 0 where
  pub entry : LocalTcpConn
  pub was_ready : t.ready ≡ true
  pub queue : t'.local_channel ≡ t.local_channel ++ (entry ∷ [])
  pub within : length t'.local_channel ≤ t'.channel_size
  pub whole : unread entry.conn ≡ sent
  pub to_target : entry.remote_addr ≡ route.target
  pub to_port : entry.report_port ≡ port_from_target route.target

-- Whether a server can take the connection: a host was found, it has a route, the route's server runs
-- and is ready, and its queue has room.
abbrev pub can_take : Option (Option TcpTransport) → Bool
can_take none = false
can_take (some none) = false
can_take (some (some t)) = t.ready && ltb (length t.local_channel) t.channel_size

abbrev pub routed : Registry → Option GatewayRoute → Bool
routed reg none = false
routed reg (some route) = can_take (lookup_target route.server reg)

abbrev pub has_taker : Map GatewayRoute → Registry → Option Bytes → Bool
has_taker routes reg none = false
has_taker routes reg (some host) = routed reg (lookup host routes)

-- What becomes of a connection on which the peer sent `sent`.
pub data Delivers (sent : Bytes) (routes : Map GatewayRoute) (reg : Registry)
    : Option Bytes → Handled → Type 0 where
  taken :
      {host : Bytes} (route : GatewayRoute) (t t' : TcpTransport)
      → lookup host routes ≡ some route
      → lookup_target route.server reg ≡ some (some t)
      → Took sent route t t'
      → Delivers sent routes reg (some host) (handed_over (register route.server (some t') reg))
  refused :
      {found : Option Bytes} (reg' : Registry) (conn : NetConn)
      → has_taker routes reg found ≡ false
      → ((name : Bytes) → lookup_target name reg' ≡ lookup_target name reg)
      → (embedded conn).closed ≡ true
      → Delivers sent routes reg found (dropped reg' conn)

-- The two answers of `EnqueueInbound`.
enqueue_inbound-cases :
    (now : ℕ) (conn : NetConn) (target : Bytes) (port : ℕ) (t : TcpTransport)
    → t.ready ≡ true
    → ((enqueue_inbound now conn target port t ≡ (queued (local_conn now conn target port) t, true))
        × (length t.local_channel < t.channel_size))
      ⊎ ((enqueue_inbound now conn target port t ≡ (t, false)) × (can_take (some (some t)) ≡ false))
unfolding enqueue_inbound
enqueue_inbound-cases now conn target port t r =
    elim (Bool-cases (ltb (length t.local_channel) t.channel_size)) [
      | inl room ↦ inl (ground arith, ltb→lt _ _ room)
      | inr full ↦ inr (ground arith, ground arith)
    ]

module _ (now : ℕ) (routes : Map GatewayRoute) (reg : Registry) (host : Bytes) where
  hand_over-Delivers :
      (route : GatewayRoute) (conn : Conn) (first_bytes : Bytes) (o : Option (Option TcpTransport))
      → lookup host routes ≡ some route
      → lookup_target route.server reg ≡ o
      → Delivers
          (first_bytes ++ stream conn)
          routes
          reg
          (some host)
          (hand_over now reg route conn first_bytes o)
  unfolding hand_over
  hand_over-Delivers route conn first_bytes none r e =
      refused reg _ (rw (r, e) refl) (λ name. refl) refl
  hand_over-Delivers route conn first_bytes (some none) r e =
      refused reg _ (rw (r, e) refl) (λ name. refl) refl
  hand_over-Delivers route conn first_bytes (some (some t)) r e = by_ready t.ready refl
    where
      wrapped : NetConn
      wrapped = new_prefixed_conn conn first_bytes

      port : ℕ
      port = port_from_target route.target

      same_targets :
          (name : Bytes)
          → lookup_target name (register route.server (some t) reg) ≡ lookup_target name reg
      same_targets name =
          lookup-insert route.server name (some t) reg
          ∙ ground (arith, equal_iff route.server name, e)

      closed_wrapped : (n : NetConn) → (embedded (Prefixed.close n)).closed ≡ true
      closed_wrapped (plain c) = refl
      closed_wrapped (prefixed p) = refl

      answered :
          t.ready ≡ true
          → Delivers
              (first_bytes ++ stream conn)
              routes
              reg
              (some host)
              (enqueued route.server reg wrapped (enqueue_inbound now wrapped route.target port t))
      answered ready = elim (enqueue_inbound-cases now wrapped route.target port t ready) [
        | inl (put, room) ↦ rw put (
            taken route t (queued (local_conn now wrapped route.target port) t) r e (record {
              entry = local_conn now wrapped route.target port;
              was_ready = ready;
              queue = refl;
              within = omega (
                arith,
                room,
                length-append t.local_channel (local_conn now wrapped route.target port ∷ []),
              );
              whole = unread-new_prefixed_conn conn first_bytes;
              to_target = refl;
              to_port = refl;
            }))
        | inr (full, no_room) ↦
            rw full (refused _ _ (rw (r, e) no_room) same_targets (closed_wrapped wrapped))
      ]

      by_ready :
          (b : Bool)
          → t.ready ≡ b
          → Delivers (first_bytes ++ stream conn) routes reg (some host) (
              if b
              then enqueued route.server reg wrapped
                  (enqueue_inbound now wrapped route.target port t)
              else dropped reg (plain (Stream.close conn)))
      by_ready true ready = answered ready
      by_ready false ready = refused reg _ (rw (r, e) (ground arith)) (λ name. refl) refl

  dispatch-Delivers :
      (conn : Conn) (first_bytes : Bytes) (o : Option GatewayRoute)
      → lookup host routes ≡ o
      → Delivers
          (first_bytes ++ stream conn)
          routes
          reg
          (some host)
          (dispatch now reg conn first_bytes o)
  unfolding dispatch
  dispatch-Delivers conn first_bytes none r = refused reg _ (rw r refl) (λ name. refl) refl
  dispatch-Delivers conn first_bytes (some route) r =
      hand_over-Delivers route conn first_bytes _ r refl

-- The host that an inspection found, if any.
abbrev pub found_host {ℓ} : {E : Type ℓ} → Result E Bytes → Option Bytes
found_host (ok host) = some host
found_host (err e) = none
found_host panic = none
found_host stuck = none

inspected-Delivers {ℓ} :
    {E : Type ℓ} (sent : Bytes) (now : ℕ) (routes : Map GatewayRoute) (reg : Registry)
    (p : Result E Bytes × Bytes × Conn)
    → ((host : Bytes) → p.0 ≡ ok host → p.1 ++ stream p.2 ≡ sent)
    → Delivers sent routes reg (found_host p.0) (inspected now routes reg p)
inspected-Delivers sent now routes reg (ok host, first_bytes, conn) h =
    subst
      (λ t.
        Delivers t routes reg (some host) (dispatch now reg conn first_bytes (lookup host routes)))
      (h host refl)
      (dispatch-Delivers now routes reg host conn first_bytes (lookup host routes) refl)
inspected-Delivers sent now routes reg (err e, first_bytes, conn) h =
    refused reg _ refl (λ name. refl) refl
inspected-Delivers sent now routes reg (panic, first_bytes, conn) h =
    refused reg _ refl (λ name. refl) refl
inspected-Delivers sent now routes reg (stuck, first_bytes, conn) h =
    refused reg _ refl (λ name. refl) refl

-- Every connection on the SNI gateway is either handed, as a new last entry of the queue that still has
-- the whole stream of the client to read, to the ready server that the route of its SNI names, or it is
-- closed, and then no server changes and no server could take it: no name was found, or it has no
-- route, or the server is missing, not ready or full.
pub handle_conn-Delivers :
    (now : ℕ) (cfg : GatewayConfig) (reg : Registry) (conn : Conn)
    → Delivers
        (stream conn)
        cfg.routes
        reg
        (found_host (read_tls_client_hello_sni conn cfg.inspect_timeout).0)
        (handle_conn now cfg reg conn)
unfolding handle_conn
handle_conn-Delivers now cfg reg conn =
    inspected-Delivers (stream conn) now cfg.routes reg
      (read_tls_client_hello_sni conn cfg.inspect_timeout)
      (λ host e. read_tls_client_hello_sni-replays conn cfg.inspect_timeout e)

-- Every connection on the HTTP gateway is either handed, as a new last entry of the queue that still has
-- the whole stream of the client to read, to the ready server that the route of its Host names, or it is
-- closed, and then no server changes and no server could take it.
pub handle_http_conn-Delivers :
    (now : ℕ) (cfg : HttpGatewayConfig) (reg : Registry) (conn : Conn)
    → Delivers
        (stream conn)
        cfg.routes
        reg
        (found_host (read_http_host conn cfg.inspect_timeout cfg.max_header_bytes).0)
        (handle_http_conn now cfg reg conn)
unfolding handle_http_conn
handle_http_conn-Delivers now cfg reg conn =
    inspected-Delivers (stream conn) now cfg.routes reg
      (read_http_host conn cfg.inspect_timeout cfg.max_header_bytes)
      (λ host e. (read_http_host_lem conn cfg.inspect_timeout cfg.max_header_bytes).1)
