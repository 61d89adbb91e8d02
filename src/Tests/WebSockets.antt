-- ===== src/Tests/WebSockets.antt =====
-- The WebSocket transports at concrete inputs.
use backhaul_plus.Ws.Tunnel.Ordered.{all_accepted}
use backhaul_plus.Prelude.{◌≡◌, ◌+◌, refl, List, [], ◌∷◌, ◌++◌, true, false, pos, ltb, arith}
use backhaul_plus.Client.{resolve_remote_addr}
use backhaul_plus.Net.{atoi, itoa, digits}
use backhaul_plus.Strings.{codes, split}
use backhaul_plus.Ws.Tunnel
use backhaul_plus.Ws.Tunnel.{
  Event, ticked, saw_ping_closed, taken, locked, pinged, announced, chunk, fresh_tunnel,
}
use backhaul_plus.Ws.Tunnel.Delivered.{Dials, run-Dials, hand_over_events, run-hands_over}
use backhaul_plus.Ws.Server
use backhaul_plus.Ws.Server.{
  run, step, http_request, looked_on, accept, take_inbound, check, pair, read_error, queued_ping,
  waiting_done, restart, restarted,
}
use backhaul_plus.Ws.Server.State.{new_ws_server}
use backhaul_plus.Ws.Server.Requests.{Request}
use backhaul_plus.Ws.Places.{IsConserved, occ, one, inbound_id, waiting_id, copy_id, itself}
use backhaul_plus.Ws.Conserved.{ws_run-IsConserved}
use backhaul_plus.Ws.Guarded.{let_in, run-let_in}
use backhaul_plus.Ws.Kept.{ws_run-kept}

-- A ping, the hand-over with the keeper at its `select` and then two chunks, the second of which fails.
abbrev pinged_once : List Tunnel.Event
pinged_once =
    ticked
    ∷ pinged true
    ∷ ticked
    ∷ taken
    ∷ pinged true
    ∷ locked
    ∷ announced true
    ∷ ticked
    ∷ chunk (7 ∷ 8 ∷ []) true
    ∷ chunk (9 ∷ []) false
    ∷ []

run-Dials_example :
    Dials
      (pos 22)
      (codes "127.0.0.1:22")
      (all_accepted (codes "22") pinged_once fresh_tunnel [])
      (Tunnel.run (codes "22") pinged_once fresh_tunnel).sent
unfolding Tunnel.run resolve_remote_addr split atoi itoa digits
run-Dials_example = run-Dials (codes "22") (codes "127.0.0.1:22") (pos 22) pinged_once refl refl

run-hands_over_example :
    (Tunnel.run
      (codes "22")
      hand_over_events
      (Tunnel.run (codes "22") (ticked ∷ taken ∷ []) fresh_tunnel)).handing
    ≡ Tunnel.copying
unfolding Tunnel.run
run-hands_over_example = run-hands_over (codes "22") (ticked ∷ taken ∷ []) refl refl

abbrev control_request : Request
control_request = record {
  authorization = codes "Bearer t";
  path = codes "/channel";
  upgrades = true;
}

abbrev tunnel_request : Request
tunnel_request = record {
  authorization = codes "Bearer t";
  path = codes "/tunnel";
  upgrades = true;
}

-- Two inbound connections, of which one is copied behind a tunnel connection that a ping found closed,
-- and a request without the token.
abbrev served : List Server.Event
served =
    http_request 8 control_request
    ∷ looked_on 0
    ∷ accept 0 (codes "22")
    ∷ accept 1 (codes "80")
    ∷ http_request 8 tunnel_request
    ∷ http_request 8 tunnel_request
    ∷ http_request 8 (record tunnel_request { authorization = codes "Bearer u" })
    ∷ queued_ping 0 false
    ∷ take_inbound
    ∷ check 0 5
    ∷ pair 0 true
    ∷ check 0 6
    ∷ pair 0 true
    ∷ []

-- A restart in which a loop gives up its connection, and a second control channel that was looked at
-- before the first was set.
abbrev restarted_run : List Server.Event
restarted_run =
    http_request 8 control_request ∷ served
    ++ (looked_on 0
        ∷ take_inbound
        ∷ check 0 7
        ∷ read_error 0
        ∷ restart
        ∷ waiting_done 0
        ∷ restarted
        ∷ [])

ws_run-IsConserved_example : IsConserved 1 (run (codes "t") 4 restarted_run new_ws_server)
ws_run-IsConserved_example = ws_run-IsConserved (codes "t") 4 restarted_run 1

ws_run-kept_example :
    let s = run (codes "t") 4 served new_ws_server in
    occ inbound_id 1 s.local_channel
      + occ waiting_id 1 s.waiting
      + occ copy_id 1 s.copies
      + occ itself 1 s.closed_inbound
    ≡ one (ltb 1 s.next_inbound)
ws_run-kept_example = ws_run-kept (codes "t") 4 served 1 (ground arith)

run-let_in_example :
    run (codes "t") 4 served new_ws_server
    ≡ run (codes "t") 4 (let_in (codes "t") served) new_ws_server
run-let_in_example = run-let_in (codes "t") 4 served new_ws_server
