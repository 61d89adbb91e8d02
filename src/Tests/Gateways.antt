-- ===== src/Tests/Gateways.antt =====
-- The gateways, the inspections and the framing at concrete inputs.
use backhaul_plus.Http.Host.{check_method, check_target, check_version}
use backhaul_plus.Strings.{contains, equal, index_byte}
use backhaul_plus.Stream.{write}
use backhaul_plus.Prelude.{
  ℕ, ◌≡◌, refl, ◌++◌, List, [], ◌∷◌, some, pos, length, arith, true, suc, ◌+◌, ◌≤◌, zero,
}
use backhaul_plus.Gateway.{
  GatewayConfig, HttpGatewayConfig, GatewayRoute, handle_conn, handle_http_conn,
}
use backhaul_plus.Gateway.Delivery.{
  Delivers, found_host, handle_conn-Delivers, handle_http_conn-Delivers,
}
use backhaul_plus.Http.Headers.{
  Line, field, header_bytes, hosts, decide_host, parse_http_host_from_header-decide_host,
}
use backhaul_plus.Http.Host.{parse_http_host_from_header, validate_request_line_bytes}
use backhaul_plus.Http.Preread.{read_http_host, effective_max, preread_chunk_size}
use backhaul_plus.Http.Preread.Replay.{read_http_host_lem}
use backhaul_plus.Http.RequestLine.{IsRequestLine, validate_request_line_bytes_iff}
use backhaul_plus.Maps.{Map}
use backhaul_plus.Prefixed.{NetConn, new_prefixed_conn}
use backhaul_plus.Registry.{Registry, TcpTransport}
use backhaul_plus.Result.{ok, IsSafe}
use backhaul_plus.Sni.Hello.{ClientHello, IsWellFormed, client_hello}
use backhaul_plus.Sni.Hello.RoundTrip.{parse_sni_from_client_hello-client_hello}
use backhaul_plus.Sni.Inspect.{read_tls_client_hello_sni}
use backhaul_plus.Sni.Inspect.Replay.{
  read_tls_client_hello_sni-IsSafe, read_tls_client_hello_sni-replays,
  read_tls_client_hello_sni-bounded,
}
use backhaul_plus.Sni.Parse.{parse_sni_from_client_hello}
use backhaul_plus.Sni.Safety.{parse_sni_from_client_hello-IsSafe}
use backhaul_plus.Stream.{Conn, stream, eof}
use backhaul_plus.Strings.{Bytes, codes}
use backhaul_plus.Tests.{conn_of}
use backhaul_plus.Wire.{net_conn, send_binary_transport_string, receive_binary_transport_string}
use backhaul_plus.Wire.RoundTrip.{incoming, receive_binary_transport_string-send}

abbrev zeros : ℕ → Bytes
zeros zero = []
zeros (suc n) = 0 ∷ zeros n

abbrev sample_hello : ClientHello
sample_hello = record {
  version_and_random = zeros 34;
  session_id = [];
  cipher_suites = 19 ∷ 1 ∷ [];
  compression_methods = 0 ∷ [];
  extensions_before = [];
  names_before = [];
  host = codes "a.b";
  names_after = [];
  extensions_after = [];
}

sample_hello-IsWellFormed : IsWellFormed sample_hello
sample_hello-IsWellFormed = record {
  version_and_random_size = refl;
  session_id_size = omega arith;
  compression_methods_size = omega arith;
  total_size = omega arith;
  other_extensions = tt;
  other_names = tt;
  host_given = λ e. cc;
}

abbrev sample_body : Bytes
sample_body = client_hello sample_hello

abbrev sample_record : Bytes
sample_record =
    22 ∷ 3 ∷ 1 ∷ 0 ∷ (length sample_body + 4) ∷ 1 ∷ 0 ∷ 0 ∷ length sample_body ∷ sample_body

abbrev sample_runtime : TcpTransport
sample_runtime = record {
  ready = true;
  channel_size = 4;
  local_channel = [];
  req_new_conn_chan = 0;
}

abbrev sample_registry : Registry
sample_registry = (codes "TR1", some sample_runtime) ∷ []

abbrev sample_routes : Map GatewayRoute
sample_routes = (codes "a.b", record { server = codes "TR1"; target = codes "443" }) ∷ []

abbrev sample_gateway : GatewayConfig
sample_gateway = record {
  name = codes "g";
  listen_addr = codes ":443";
  inspect_timeout = pos 1_000_000_000;
  default_action = codes "reject";
  routes = sample_routes;
}

abbrev sample_http_gateway : HttpGatewayConfig
sample_http_gateway = record {
  name = codes "h";
  listen_addr = codes ":80";
  inspect_timeout = pos 1_000_000_000;
  max_header_bytes = pos 256;
  default_action = codes "reject";
  routes = sample_routes;
}

abbrev sample_tls : Conn
sample_tls = conn_of (sample_record ∷ codes "more" ∷ [])

abbrev request_line : Bytes
request_line = codes "GET / HTTP/1.1"

abbrev request_lines : List Line
request_lines = field (codes "Host") (codes " A.b:80") ∷ []

abbrev sample_request : Bytes
sample_request = request_line ++ (b'\r' ∷ b'\n' ∷ header_bytes request_lines)

abbrev sample_http : Conn
sample_http = conn_of (sample_request ∷ [])

handle_conn-Delivers_example :
    Delivers
      (stream sample_tls)
      sample_gateway.routes
      sample_registry
      (found_host (read_tls_client_hello_sni sample_tls sample_gateway.inspect_timeout).0)
      (handle_conn 7 sample_gateway sample_registry sample_tls)
handle_conn-Delivers_example = handle_conn-Delivers 7 sample_gateway sample_registry sample_tls

handle_http_conn-Delivers_example :
    Delivers
      (stream sample_http)
      sample_http_gateway.routes
      sample_registry
      (found_host
        (read_http_host sample_http sample_http_gateway.inspect_timeout
          sample_http_gateway.max_header_bytes).0)
      (handle_http_conn 7 sample_http_gateway sample_registry sample_http)
handle_http_conn-Delivers_example =
    handle_http_conn-Delivers 7 sample_http_gateway sample_registry sample_http

parse_sni_from_client_hello-client_hello_example :
    parse_sni_from_client_hello (client_hello sample_hello) ≡ ok (codes "a.b")
parse_sni_from_client_hello-client_hello_example =
    parse_sni_from_client_hello-client_hello sample_hello sample_hello-IsWellFormed

parse_http_host_from_header-decide_host_example :
    parse_http_host_from_header sample_request ≡ decide_host (hosts request_lines)
unfolding validate_request_line_bytes check_method index_byte check_target check_version equal
    contains
parse_http_host_from_header-decide_host_example =
    parse_http_host_from_header-decide_host request_line request_lines refl (λ e. cc) refl
      ((refl, refl), tt)

receive_binary_transport_string-send_example :
    ((receive_binary_transport_string
        (net_conn (conn_of ((0 ∷ 2 ∷ 1 ∷ []) ∷ codes "hi" ∷ codes "!" ∷ [])))).0
      ≡ ok (codes "hi", 1))
    × (incoming
          (receive_binary_transport_string
            (net_conn (conn_of ((0 ∷ 2 ∷ 1 ∷ []) ∷ codes "hi" ∷ codes "!" ∷ [])))).1
        ≡ codes "!")
unfolding send_binary_transport_string write
receive_binary_transport_string-send_example =
    receive_binary_transport_string-send (codes "hi") (codes "!") (net_conn (conn_of []))
      (net_conn (conn_of ((0 ∷ 2 ∷ 1 ∷ []) ∷ codes "hi" ∷ codes "!" ∷ []))) 1 (refl, refl) tt refl

read_tls_client_hello_sni-replays_example :
    (read_tls_client_hello_sni sample_tls (pos 0)).1
      ++ stream (read_tls_client_hello_sni sample_tls (pos 0)).2
    ≡ stream sample_tls
unfolding read_tls_client_hello_sni backhaul_plus.Sni.Inspect.read_client_hello
    backhaul_plus.Sni.Inspect.read_record backhaul_plus.Sni.Inspect.read_block
    backhaul_plus.Sni.Inspect.read_until backhaul_plus.Sni.Inspect.host_of_message
    backhaul_plus.Sni.Inspect.with_deadline backhaul_plus.Stream.read_full
    backhaul_plus.Stream.read_full_segments backhaul_plus.Sni.Parse.at backhaul_plus.Sni.Parse.slice
    backhaul_plus.Sni.Parse.uint16_at backhaul_plus.Sni.Parse.parse_extensions
    backhaul_plus.Sni.Parse.extension_loop backhaul_plus.Sni.Parse.extension_entry
    backhaul_plus.Sni.Parse.parse_server_name_extension backhaul_plus.Sni.Parse.name_loop
    backhaul_plus.Sni.Parse.name_entry backhaul_plus.Sni.Parse.normalize_sni_host
    parse_sni_from_client_hello backhaul_plus.Strings.equal backhaul_plus.Strings.has_suffix
    backhaul_plus.Strings.to_lower backhaul_plus.Strings.trim_space
    backhaul_plus.Strings.trim_suffix
read_tls_client_hello_sni-replays_example =
    read_tls_client_hello_sni-replays sample_tls (pos 0) {host = codes "a.b"} refl

read_tls_client_hello_sni-IsSafe_example : IsSafe (read_tls_client_hello_sni sample_tls (pos 0)).0
read_tls_client_hello_sni-IsSafe_example = read_tls_client_hello_sni-IsSafe sample_tls (pos 0)

read_tls_client_hello_sni-bounded_example :
    length (read_tls_client_hello_sni sample_tls (pos 0)).1 ≤ 65536
read_tls_client_hello_sni-bounded_example = read_tls_client_hello_sni-bounded sample_tls (pos 0)

read_http_host_lem_example :
    IsSafe (read_http_host sample_http (pos 0) (pos 256)).0
    × ((read_http_host sample_http (pos 0) (pos 256)).1
          ++ stream (read_http_host sample_http (pos 0) (pos 256)).2
        ≡ stream sample_http)
    × (length (read_http_host sample_http (pos 0) (pos 256)).1
        ≤ effective_max (pos 256) + preread_chunk_size)
read_http_host_lem_example = read_http_host_lem sample_http (pos 0) (pos 256)

parse_sni_from_client_hello-IsSafe_example : IsSafe (parse_sni_from_client_hello (1 ∷ 2 ∷ 3 ∷ []))
parse_sni_from_client_hello-IsSafe_example = parse_sni_from_client_hello-IsSafe (1 ∷ 2 ∷ 3 ∷ [])

validate_request_line_bytes_iff_example :
    (validate_request_line_bytes request_line ≡ ok tt → IsRequestLine request_line)
    × (IsRequestLine request_line → validate_request_line_bytes request_line ≡ ok tt)
validate_request_line_bytes_iff_example = validate_request_line_bytes_iff request_line

abbrev sample_wrapped : NetConn
sample_wrapped = new_prefixed_conn (conn_of (codes "cd" ∷ [])) (codes "ab")
