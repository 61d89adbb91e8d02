-- ===== src/Ws/Kept.antt =====
-- When the WebSocket server loses an inbound connection.
mod Steps
use backhaul_plus.Prelude.{
  ◌&&◌, ◌-◌, ℕ, ◌+◌, ◌≡◌, refl, ap, ◌∙◌, Bool, true, false, List, [], ◌∷◌, Option, none, some, ltb,
  if◌then◌else◌, if_cases, arith, remove_at,
}
use backhaul_plus.Strings.{Bytes}
use backhaul_plus.Ws.Conserved.{ws_run-IsConserved}
use backhaul_plus.Ws.Places.{occ, one, inbound_id, waiting_id, copy_id, itself}
use backhaul_plus.Ws.Server.{
  Event, http_request, looked_on, accept, inbound, take_inbound, loop_done, check, pair,
  waiting_done, keeper_done, copy_ended, queued_ping, new_conn, heartbeat, done, read, read_nil,
  read_error, reader_done, message, stop, listener_done, restart, restarted, step, run,
}
use backhaul_plus.Ws.Server.State.{
  Inbound, Waiting, Copy, Queued, Looked, Handler, WsTransport, new_ws_server,
}
use backhaul_plus.Ws.Server.Requests.{
  on_control, on_tunnel, on_path, on_request, inbound_queued, on_accept, on_inbound, on_looked,
  control_set, control_refused,
}
use backhaul_plus.Ws.Server.Loops.{
  on_take, on_check, on_pair, on_loop_done, on_waiting_done, on_queued_ping, on_keeper_done,
  on_copied,
}
use backhaul_plus.Signals.{sg_chan, sg_hb}
use backhaul_plus.Ws.Server.Control.{
  control_written, on_new_conn, on_heartbeat, closing_written, on_done, can_read, sent_first,
  on_read, on_read_nil, on_read_error, on_reader_done, message_handled, on_message,
  on_listener_done, on_restarted,
}
use backhaul_plus.Ws.Kept.Steps.{
  Same, looked-Same, take-Same, check-Same, pair-Same, copied-Same, waiting_done-Same,
  heartbeat-Same, read-Same, read_nil-Same, reader-Same, done-Same, message-Same, new_conn-Same,
}

-- A call of `Restart` begins, or the program ends.
abbrev pub is_cancel : Event → Bool
is_cancel restart = true
is_cancel stop = true
is_cancel e = false

abbrev pub NoCancel : List Event → Type 0
NoCancel [] = Unit
NoCancel (e ∷ es) = (is_cancel e ≡ false) × NoCancel es

-- No context was cancelled, no restart sleeps, and nothing was lost.
record Steady (s : WsTransport) : Type 0 where
  uncancelled : s.cancelled ≡ false
  awake : s.restarting ≡ false
  kept : s.lost ≡ []

Steady-Same : (s t : WsTransport) → Same s t → Steady t → Steady s
unfolding Same
Steady-Same s t same h = record {
  uncancelled = same.0 ∙ h.uncancelled;
  awake = same.1 ∙ h.awake;
  kept = same.2 ∙ h.kept;
}

module _ (token : Bytes) (size : ℕ) where
  step-Same :
      (e : Event) (s : WsTransport) → is_cancel e ≡ false → Steady s → Same (step token size e s) s
  unfolding step Same on_request on_path on_tunnel on_control on_accept on_inbound inbound_queued
      on_loop_done on_queued_ping on_keeper_done on_listener_done on_restarted
  step-Same (http_request cpus r) s n h = ground arith
  step-Same (looked_on i) s n h = looked-Same s (remove_at i s.looked)
  step-Same (accept now target) s n h = ground arith
  step-Same (inbound now target port) s n h = ground arith
  step-Same take_inbound s n h = take-Same s s.local_channel
  step-Same loop_done s n h = ground arith
  step-Same (check i now) s n h = check-Same s now (remove_at i s.waiting)
  step-Same (pair i ok) s n h = pair-Same s ok (remove_at i s.waiting) s.tunnel_channel
  step-Same (waiting_done i) s n h = waiting_done-Same s (remove_at i s.waiting) h.uncancelled
  step-Same (keeper_done i) s n h = ground arith
  step-Same (copy_ended i) s n h = copied-Same s (remove_at i s.copies)
  step-Same (queued_ping i ok) s n h = ground arith
  step-Same (new_conn i ok) s n h = new_conn-Same ok (remove_at i s.handlers) s
  step-Same (heartbeat i ok) s n h = heartbeat-Same s ok (remove_at i s.handlers)
  step-Same (done i ok) s n h = done-Same s ok (remove_at i s.handlers)
  step-Same (read i msg) s n h = read-Same s msg (remove_at i s.handlers)
  step-Same (read_nil i) s n h = read_nil-Same s s.control_channel (remove_at i s.handlers)
  step-Same (read_error i) s n h = (reader-Same s (remove_at i s.handlers)).0
  step-Same (reader_done i) s n h = (reader-Same s (remove_at i s.handlers)).1
  step-Same (message i) s n h = message-Same s (remove_at i s.handlers)
  step-Same stop s n h = cc
  step-Same listener_done s n h = ground arith
  step-Same restart s n h = cc
  step-Same restarted s n h =
      if_cases (λ t. Same t s) s.restarting (λ asleep. absurd (ground (arith, asleep, h.awake)))
        (λ steady. (refl, refl, refl))

  run-Steady :
      (es : List Event) (s : WsTransport) → NoCancel es → Steady s → Steady (run token size es s)
  unfolding run
  run-Steady [] s n h = h
  run-Steady (e ∷ es) s n h = run-Steady es (if s.crashed then s else step token size e s) n.1 (
      if_cases Steady s.crashed (λ crashed. h)
        (λ alive. Steady-Same (step token size e s) s (step-Same e s n.0 h) h))

-- In a run of the WebSocket server in which no restart begins and the program does not end, each
-- inbound connection that it took is queued, in a loop that waits for a tunnel connection, copied or
-- closed, and in one place.
pub ws_run-kept :
    (token : Bytes) (size : ℕ) (es : List Event) (i : ℕ)
    → NoCancel es
    → let s = run token size es new_ws_server in
      occ inbound_id i s.local_channel
        + occ waiting_id i s.waiting
        + occ copy_id i s.copies
        + occ itself i s.closed_inbound
      ≡ one (ltb i s.next_inbound)
ws_run-kept token size es i h =
    let x = (ws_run-IsConserved token size es i).of_inbound in
    let steady =
      run-Steady token size es new_ws_server h
        (record { uncancelled = refl; awake = refl; kept = refl }) in
    let y = ap (occ itself i) steady.kept in omega arith
