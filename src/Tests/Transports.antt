-- ===== src/Tests/Transports.antt =====
-- The usage monitor and the transports at concrete inputs.
use backhaul_plus.Strings.{equal}
use backhaul_plus.Maps.{lookup}
use backhaul_plus.UdpListener.CutOff.{run-late-IsAbandoned, run-refused-IsAbandoned}
use backhaul_plus.UdpListener.Abandoned.{IsAbandoned}
use backhaul_plus.UdpListener.{
  UdpListener, plain_udp, over_tcp, taken_up, datagram, finished, run as run_listener,
}
use mathlib.Core.List.{Permᴰ}
use mathlib.Core.List.Permᴰ
use backhaul_plus.Prelude.{pos, some, ◌≡◌, List, [], ◌∷◌, false, true, some, arith, refl, ◌||◌}
use backhaul_plus.Tests.{conn_of, Bytes}
use backhaul_plus.Prefixed.{plain, new_prefixed_conn}
use backhaul_plus.Prefixed.Replay.{new_prefixed_conn-IsHeld}
use backhaul_plus.Stream.Read.{fuel_for}
use backhaul_plus.Transfer.{Link, transfer_data}
use backhaul_plus.Transfer.Complete.{Copied, transfer_data-Copied}
use backhaul_plus.Usage.{PortUsage, Usage, holds, Event, adds, opens, save_at, Sniffer, run, whole}
use backhaul_plus.Usage.Saved.{Saved}
use backhaul_plus.UdpOverTcp.{
  server_udp_to_tcp, client_udp_to_tcp, Relay, client_tcp_to_udp, server_tcp_to_udp,
}
use backhaul_plus.UdpOverTcp.Stamped.{Stamped, datagrams}
use backhaul_plus.Stream.{write}
use backhaul_plus.UdpOverTcp.Delivery.{Delivered}
use backhaul_plus.UdpOverTcp.EndToEnd.{server_to_client, cut_to_buffer, client_to_server}
use backhaul_plus.UdpOverTcp.Age.{AllPrompt, any_old}

-- A map that is ranged over in its own order.
abbrev in_order : List PortUsage → List PortUsage
in_order m = m

abbrev web_port : PortUsage
web_port = record { port = 443; usage = 1000 }

abbrev counting : Usage
counting = record { data_store = record { port = 443; usage = 24 } ∷ []; total = 1000 }

-- Traffic is counted before the save has read the file, before it collects, and before it writes.
abbrev sample_events : List Event
sample_events =
    adds 443 8 ∷ opens ∷ adds 443 16 ∷ save_at 0 whole ∷ adds 53 1 ∷ save_at 0 whole ∷ opens ∷ []

abbrev sample_sniffer : Sniffer
sample_sniffer = record { file = holds (web_port ∷ []); usage = counting; saving = [] }

abbrev queries : List Bytes
queries = (1 ∷ 2 ∷ []) ∷ [] ∷ (3 ∷ []) ∷ []

abbrev arriving : List Bytes → Relay
arriving segments = record {
  tcp = conn_of segments;
  udp = record { sent = []; failing = false };
  usage = [];
  is_congested = false;
}

-- The last byte of the second datagram has not arrived.
server_to_client_example :
    (r' : Relay) × (client_tcp_to_udp true 53 9
        (arriving ((0 ∷ 2 ∷ 1 ∷ 2 ∷ 0 ∷ []) ∷ (0 ∷ 0 ∷ 1 ∷ []) ∷ []))
      ≡ some r')
    × Delivered queries (3 ∷ []) (arriving ((0 ∷ 2 ∷ 1 ∷ 2 ∷ 0 ∷ []) ∷ (0 ∷ 0 ∷ 1 ∷ []) ∷ [])) r'
unfolding server_udp_to_tcp write
server_to_client_example =
    server_to_client false true 5353 53 (conn_of []) []
      (arriving ((0 ∷ 2 ∷ 1 ∷ 2 ∷ 0 ∷ []) ∷ (0 ∷ 0 ∷ 1 ∷ []) ∷ [])) (3 ∷ []) queries 9 refl refl
      refl (omega arith, (omega arith, (omega arith, tt))) refl (omega arith)

abbrev answers : List Stamped
answers = (600001, 7 ∷ 8 ∷ []) ∷ (600255, []) ∷ []

client_to_server_example :
    (r' : Relay) × (server_tcp_to_udp true 53 100
        (λ k. 600300)
        0
        9
        (arriving ((0 ∷ 0 ∷ 0 ∷ 1 ∷ 0 ∷ 2 ∷ 7 ∷ 8 ∷ []) ∷ (0 ∷ 0 ∷ 0 ∷ 255 ∷ 0 ∷ 0 ∷ []) ∷ []))
      ≡ some r')
    × Delivered
        (datagrams (cut_to_buffer answers))
        []
        (arriving ((0 ∷ 0 ∷ 0 ∷ 1 ∷ 0 ∷ 2 ∷ 7 ∷ 8 ∷ []) ∷ (0 ∷ 0 ∷ 0 ∷ 255 ∷ 0 ∷ 0 ∷ []) ∷ []))
        r'
    × (◌≡◌ {A = Bytes} [] []
        → AllPrompt (λ k. 600300) 0 (cut_to_buffer answers)
        → r'.is_congested ≡ (false || any_old 100 (λ k. 600300) 0 (cut_to_buffer answers)))
unfolding client_udp_to_tcp write
client_to_server_example =
    client_to_server false true 5353 53 (conn_of []) []
      (arriving ((0 ∷ 0 ∷ 0 ∷ 1 ∷ 0 ∷ 2 ∷ 7 ∷ 8 ∷ []) ∷ (0 ∷ 0 ∷ 0 ∷ 255 ∷ 0 ∷ 0 ∷ []) ∷ [])) []
      answers 0 (λ k. 600300) 9 refl refl refl refl (omega arith)

-- A gateway's connection with four inspected bytes, towards a tunnel.
abbrev sample_link : Link
sample_link = record {
  from = new_prefixed_conn (conn_of ((5 ∷ 6 ∷ []) ∷ [])) (1 ∷ 2 ∷ 3 ∷ 4 ∷ []);
  to = plain (conn_of []);
  usage = [];
}

transfer_data-Copied_example :
    (l' : Link) × (transfer_data true 443 (pos 0) 20 sample_link ≡ some l')
    × Copied true 443 sample_link l'
unfolding new_prefixed_conn fuel_for
transfer_data-Copied_example =
    transfer_data-Copied true 443 (pos 0) 20 sample_link
      (new_prefixed_conn-IsHeld (conn_of ((5 ∷ 6 ∷ []) ∷ [])) (1 ∷ 2 ∷ 3 ∷ 4 ∷ [])) refl
      (omega arith)

-- A client whose connection waits since 1000 ms, behind which one of another client waits.
abbrev waiting : UdpListener
waiting = record {
  cells =
      (record { payload = (1 ∷ []) ∷ []; is_congested = false })
      ∷ (record { payload = (2 ∷ []) ∷ []; is_congested = false })
      ∷ [];
  active_connections = (65 ∷ [], 0) ∷ (66 ∷ [], 1) ∷ [];
  udp_chan =
      (record { id = 0; addr = 65 ∷ []; time_created = 1000 })
      ∷ (record { id = 1; addr = 66 ∷ []; time_created = 3900 })
      ∷ [];
  handled = [];
  channel_size = 2;
  req_new_conn_chan = 0;
}

run-late-IsAbandoned_example : IsAbandoned (65 ∷ []) 0 (
    run_listener plain_udp
      (taken_up 4001 ∷ datagram 4002 (65 ∷ []) (9 ∷ []) ∷ taken_up 4003 ∷ finished 0 ∷ [])
      waiting)
unfolding lookup equal
run-late-IsAbandoned_example =
    run-late-IsAbandoned 4001 (record { id = 0; addr = 65 ∷ []; time_created = 1000 })
      ((record { id = 1; addr = 66 ∷ []; time_created = 3900 }) ∷ []) waiting
      (datagram 4002 (65 ∷ []) (9 ∷ []) ∷ taken_up 4003 ∷ finished 0 ∷ []) refl (omega arith) refl
      refl (omega arith) ((refl, refl), tt) tt

run-refused-IsAbandoned_example : IsAbandoned (67 ∷ []) 2 (
    run_listener over_tcp
      (datagram 5000 (67 ∷ []) (9 ∷ []) ∷ taken_up 5001 ∷ datagram 5002 (67 ∷ []) (8 ∷ []) ∷ [])
      waiting)
unfolding lookup equal
run-refused-IsAbandoned_example =
    run-refused-IsAbandoned 5000 (67 ∷ []) (9 ∷ []) waiting
      (taken_up 5001 ∷ datagram 5002 (67 ∷ []) (8 ∷ []) ∷ []) refl refl
      ((refl, refl), ((refl, refl), tt)) tt
