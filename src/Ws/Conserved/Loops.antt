-- ===== src/Ws/Conserved/Loops.antt =====
-- The loops of the WebSocket server keep each connection in one place.
use backhaul_plus.Prelude.{
  zero, suc, refl, ◌&&◌, ℕ, ◌+◌, ◌≡◌, ap, Bool, true, false, List, [], ◌∷◌, Option, none, some, ltb,
  ◌==◌, if_cases, arith,
}
use backhaul_plus.Ws.Server.State.{Inbound, Waiting, Copy, Queued, WsTransport}
use backhaul_plus.Ws.Server.Loops.{
  on_take, on_check, on_pair, on_loop_done, on_waiting_done, closed_at, on_queued_ping,
  on_keeper_done, on_copied,
}
use backhaul_plus.Ws.Places.{
  occ, occ-append, Removed, inbound_id, waiting_id, copy_id, copy_socket, queued_socket, itself,
  IsConserved,
}

module _ (i : ℕ) where
  pub take-IsConserved :
      (q : List Inbound) (s : WsTransport)
      → s.local_channel ≡ q
      → IsConserved i s
      → IsConserved i (on_take q s)
  unfolding on_take
  take-IsConserved [] s e h = h
  take-IsConserved (c ∷ rest) s e h =
      let x = h.of_inbound in
      let y = ap (occ inbound_id i) e in
      if_cases (IsConserved i) (s.idle == 0) (λ busy. h)
        (λ idle. record {
          of_inbound = omega (
            arith,
            occ-append waiting_id i s.waiting (record { inbound = c; checked = false } ∷ []),
          );
          of_sockets = h.of_sockets;
        })

  pub check-IsConserved :
      (now : ℕ) (r : Option (Waiting × List Waiting)) (s : WsTransport)
      → Removed waiting_id i s.waiting r
      → IsConserved i s
      → IsConserved i (on_check now r s)
  unfolding on_check
  check-IsConserved now none s e h = h
  check-IsConserved now (some (w, others)) s e h =
      let x = h.of_inbound in
      if_cases (IsConserved i) w.checked (λ checked. h)
        (λ unchecked.
          if_cases (IsConserved i) (ltb (w.inbound.time_created + 3000) now)
            (λ late. record {
              of_inbound = omega (arith, occ-append itself i s.closed_inbound (w.inbound.id ∷ []));
              of_sockets = h.of_sockets;
            })
            (λ soon. record {
              of_inbound = omega (
                arith,
                occ-append waiting_id i others
                    (record { inbound = w.inbound; checked = true } ∷ []),
              );
              of_sockets = h.of_sockets;
            }))

  pub pair-IsConserved :
      (ok : Bool) (r : Option (Waiting × List Waiting)) (tunnels : List Queued) (s : WsTransport)
      → Removed waiting_id i s.waiting r
      → s.tunnel_channel ≡ tunnels
      → IsConserved i s
      → IsConserved i (on_pair ok r tunnels s)
  unfolding on_pair
  pair-IsConserved ok none tunnels s e q h = h
  pair-IsConserved ok (some (w, others)) [] s e q h = h
  pair-IsConserved ok (some (w, others)) (t ∷ tunnels) s e q h =
      let x = h.of_inbound in
      let y = h.of_sockets in
      let z = ap (occ queued_socket i) q in
      let c : Copy = record { inbound = w.inbound; socket = t.socket } in
      if_cases (IsConserved i) w.checked
        (λ checked.
          if_cases (IsConserved i) (ok && t.is_open)
            (λ sent. record {
              of_inbound = omega (arith, occ-append copy_id i s.copies (c ∷ []));
              of_sockets = omega (arith, occ-append copy_socket i s.copies (c ∷ []));
            })
            (λ lost. record {
              of_inbound = omega (
                arith,
                occ-append waiting_id i others
                    (record { inbound = w.inbound; checked = false } ∷ []),
              );
              of_sockets = omega (arith, occ-append itself i s.closed_sockets (t.socket ∷ []));
            }))
        (λ unchecked. h)

  pub loop_done-IsConserved : (s : WsTransport) → IsConserved i s → IsConserved i (on_loop_done s)
  unfolding on_loop_done
  loop_done-IsConserved s h =
      if_cases (IsConserved i) s.cancelled
        (λ ends. record { of_inbound = h.of_inbound; of_sockets = h.of_sockets }) (λ goes_on. h)

  pub waiting_done-IsConserved :
      (r : Option (Waiting × List Waiting)) (s : WsTransport)
      → Removed waiting_id i s.waiting r
      → IsConserved i s
      → IsConserved i (on_waiting_done r s)
  unfolding on_waiting_done
  waiting_done-IsConserved none s e h = h
  waiting_done-IsConserved (some (w, others)) s e h =
      let x = h.of_inbound in
      if_cases (IsConserved i) (s.cancelled && w.checked)
        (λ ends. record {
          of_inbound = omega (arith, occ-append itself i s.lost (w.inbound.id ∷ []));
          of_sockets = h.of_sockets;
        })
        (λ goes_on. h)

  closed_at-occ :
      (n : ℕ) (tunnels : List Queued)
      → occ queued_socket i (closed_at n tunnels) ≡ occ queued_socket i tunnels
  unfolding closed_at
  closed_at-occ n [] = refl
  closed_at-occ zero (t ∷ tunnels) = refl
  closed_at-occ (suc n) (t ∷ tunnels) = omega (arith, closed_at-occ n tunnels)

  closed-IsConserved :
      (n : ℕ) (s : WsTransport)
      → IsConserved i s
      → IsConserved i (record s { tunnel_channel = closed_at n s.tunnel_channel })
  closed-IsConserved n s h = record {
    of_inbound = h.of_inbound;
    of_sockets = let y = h.of_sockets in omega (arith, closed_at-occ n s.tunnel_channel);
  }

  pub keeper-IsConserved :
      (n : ℕ) (ok : Bool) (s : WsTransport)
      → IsConserved i s
      → IsConserved i (on_queued_ping n ok s) × IsConserved i (on_keeper_done n s)
  unfolding on_queued_ping on_keeper_done
  keeper-IsConserved n ok s h = (
    if_cases (IsConserved i) ok (λ sent. h) (λ failed. closed-IsConserved n s h),
    if_cases (IsConserved i) s.cancelled (λ ends. closed-IsConserved n s h) (λ goes_on. h),
  )

  pub copied-IsConserved :
      (r : Option (Copy × List Copy)) (s : WsTransport)
      → Removed copy_id i s.copies r
      → Removed copy_socket i s.copies r
      → IsConserved i s
      → IsConserved i (on_copied r s)
  unfolding on_copied
  copied-IsConserved none s a b h = h
  copied-IsConserved (some (c, others)) s a b h =
      let x = h.of_inbound in
      let y = h.of_sockets in
      record {
        of_inbound = omega (arith, occ-append itself i s.closed_inbound (c.inbound.id ∷ []));
        of_sockets = omega (arith, occ-append itself i s.closed_sockets (c.socket ∷ []));
      }
