-- ===== src/Ws/Kept/Steps.antt =====
-- The steps of the WebSocket server that neither cancel nor lose anything.
use backhaul_plus.Prelude.{
  ◌&&◌, ◌-◌, ℕ, ◌≡◌, refl, Bool, false, List, [], ◌∷◌, Option, none, some, ltb, if_cases, arith,
}
use backhaul_plus.Strings.{Bytes}
use backhaul_plus.Ws.Server.State.{Inbound, Waiting, Copy, Queued, Looked, Handler, WsTransport}
use backhaul_plus.Ws.Server.Requests.{on_looked, control_set, control_refused}
use backhaul_plus.Ws.Server.Loops.{on_take, on_check, on_pair, on_waiting_done, on_copied}
use backhaul_plus.Signals.{sg_chan, sg_hb}
use backhaul_plus.Ws.Server.Control.{
  control_written, on_new_conn, on_heartbeat, closing_written, on_done, can_read, sent_first,
  on_read, on_read_nil, on_read_error, on_reader_done, message_handled, on_message,
}

-- Two states agree in what was cancelled, what restarts and what is lost.
unfoldable pub Same : WsTransport → WsTransport → Type 0
Same s t = (s.cancelled ≡ t.cancelled) × (s.restarting ≡ t.restarting) × (s.lost ≡ t.lost)

module _ (s : WsTransport) where
  pub looked-Same : (r : Option (Looked × List Looked)) → Same (on_looked r s) s
  unfolding Same on_looked control_set control_refused
  looked-Same none = (refl, refl, refl)
  looked-Same (some (h, others)) =
      if_cases (λ t. Same t s) h.found_none (λ first. (refl, refl, refl))
        (λ second. refused s.control_channel)
    where
      refused : (c : Option ℕ) → Same (control_refused h.socket c (record s { looked = others })) s
      refused none = (refl, refl, refl)
      refused (some c) = (refl, refl, refl)

  pub take-Same : (q : List Inbound) → Same (on_take q s) s
  unfolding Same on_take
  take-Same [] = (refl, refl, refl)
  take-Same (c ∷ rest) = ground arith

  pub check-Same : (now : ℕ) (r : Option (Waiting × List Waiting)) → Same (on_check now r s) s
  unfolding Same on_check
  check-Same now none = (refl, refl, refl)
  check-Same now (some (w, others)) = ground arith

  pub pair-Same :
      (ok : Bool) (r : Option (Waiting × List Waiting)) (tunnels : List Queued)
      → Same (on_pair ok r tunnels s) s
  unfolding Same on_pair
  pair-Same ok none tunnels = (refl, refl, refl)
  pair-Same ok (some (w, others)) [] = (refl, refl, refl)
  pair-Same ok (some (w, others)) (t ∷ tunnels) = ground arith

  pub copied-Same : (r : Option (Copy × List Copy)) → Same (on_copied r s) s
  unfolding Same on_copied
  copied-Same none = (refl, refl, refl)
  copied-Same (some (c, others)) = (refl, refl, refl)

  -- A loop that has a connection ends only by a cancelled context.
  pub waiting_done-Same :
      (r : Option (Waiting × List Waiting)) → s.cancelled ≡ false → Same (on_waiting_done r s) s
  unfolding Same on_waiting_done
  waiting_done-Same none h = (refl, refl, refl)
  waiting_done-Same (some (w, others)) h =
      if_cases (λ t. Same t s) (s.cancelled && w.checked) (λ ends. absurd (ground (arith, ends, h)))
        (λ goes_on. (refl, refl, refl))

  written-Same :
      (signal : ℕ) (ok : Bool) (c : Option ℕ) (x : Handler) (others : List Handler)
      → Same (control_written signal ok c x others s) s
  unfolding Same control_written
  written-Same signal ok none x others = (refl, refl, refl)
  written-Same signal ok (some c) x others = ground arith

  pub heartbeat-Same :
      (ok : Bool) (r : Option (Handler × List Handler)) → Same (on_heartbeat ok r s) s
  unfolding on_heartbeat Same
  heartbeat-Same ok none = (refl, refl, refl)
  heartbeat-Same ok (some (x, others)) =
      if_cases (λ t. Same t s) x.alive (λ beats. written-Same sg_hb ok s.control_channel x others)
        (λ ended. (refl, refl, refl))

  first-Same :
      (msg : Bytes) (x : Handler) (others : List Handler) → Same (sent_first msg x others s) s
  unfolding Same sent_first
  first-Same [] x others = (refl, refl, refl)
  first-Same (b ∷ msg) x others = (refl, refl, refl)

  pub read-Same : (msg : Bytes) (r : Option (Handler × List Handler)) → Same (on_read msg r s) s
  unfolding Same on_read
  read-Same msg none = (refl, refl, refl)
  read-Same msg (some (x, others)) =
      if_cases (λ t. Same t s) (can_read x) (λ reads. first-Same msg x others)
        (λ blocked. (refl, refl, refl))

  pub read_nil-Same :
      (c : Option ℕ) (r : Option (Handler × List Handler)) → Same (on_read_nil c r s) s
  unfolding Same on_read_nil
  read_nil-Same none (some (x, others)) = ground arith
  read_nil-Same none none = (refl, refl, refl)
  read_nil-Same (some c) r = (refl, refl, refl)

  pub reader-Same :
      (r : Option (Handler × List Handler))
      → Same (on_read_error r s) s × Same (on_reader_done r s) s
  unfolding Same on_read_error on_reader_done
  reader-Same none = ((refl, refl, refl), (refl, refl, refl))
  reader-Same (some (x, others)) = (ground arith, ground arith)

  closing-Same :
      (ok : Bool) (c : Option ℕ) (x : Handler) (others : List Handler)
      → Same (closing_written ok c x others s) s
  unfolding Same closing_written
  closing-Same ok none x others = (refl, refl, refl)
  closing-Same ok (some c) x others = ground arith

  pub done-Same : (ok : Bool) (r : Option (Handler × List Handler)) → Same (on_done ok r s) s
  unfolding Same on_done
  done-Same ok none = (refl, refl, refl)
  done-Same ok (some (x, others)) =
      if_cases (λ t. Same t s) (s.cancelled && x.alive)
        (λ ends. closing-Same ok s.control_channel x others) (λ goes_on. (refl, refl, refl))

  handled-Same :
      (msgs : List ℕ) (x : Handler) (others : List Handler)
      → Same (message_handled msgs x others s) s
  unfolding Same message_handled
  handled-Same [] x others = (refl, refl, refl)
  handled-Same (msg ∷ rest) x others = ground arith

  pub message-Same : (r : Option (Handler × List Handler)) → Same (on_message r s) s
  unfolding Same on_message
  message-Same none = (refl, refl, refl)
  message-Same (some (x, others)) =
      if_cases (λ t. Same t s) x.alive (λ alive. handled-Same x.message_chan x others)
        (λ ended. (refl, refl, refl))

pub new_conn-Same :
    (ok : Bool) (r : Option (Handler × List Handler)) (s : WsTransport)
    → Same (on_new_conn ok r s) s
unfolding on_new_conn Same
new_conn-Same ok none s = (refl, refl, refl)
new_conn-Same ok (some (x, others)) s =
    if_cases (λ t. Same t s) (x.alive && ltb 0 s.req_new_conn_chan)
      (λ asked.
        written-Same (record s { req_new_conn_chan = s.req_new_conn_chan - 1 }) sg_chan ok
          s.control_channel x others)
      (λ not_asked. (refl, refl, refl))
