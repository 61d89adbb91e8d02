-- ===== src/Ws/Tunnel/Delivered.antt =====
-- The client's end of a WebSocket tunnel connection, and the way of a connection to its announcement.
use backhaul_plus.Prelude.{
  ℕ, zero, suc, ◌≡◌, refl, ap, ◌∙◌, Bool, true, false, Bool-cases, inl, inr, List, [], ◌∷◌, ◌++◌,
  map, none, some, ℤ, if◌then◌else◌, arith,
}
use mathlib.Core.Path.{subst}
use backhaul_plus.Client.{resolve_remote_addr}
use backhaul_plus.Signals.{sg_ping}
use backhaul_plus.Strings.{Bytes, equal, split}
use backhaul_plus.Net.{atoi}
use backhaul_plus.Strings.Search.{equal_iff}
use backhaul_plus.Ws.{Message, text, binary}
use backhaul_plus.Ws.Tunnel.{
  Keeper, selecting, pinging, giving_up, stopped, unpinged, copying, Tunnel, fresh_tunnel, Event,
  locked, pinged, announced, run, dial_local, by_addr, tunnel_dialer, transferred,
}
use backhaul_plus.Ws.Tunnel.Ordered.{
  pings, joined, InOrder, IsSound, fresh_tunnel-IsSound, run-IsSound, all_accepted,
}

tunnel_dialer-pings :
    (n : ℕ) (rest : List Message) → tunnel_dialer (pings n ++ rest) ≡ tunnel_dialer rest
unfolding tunnel_dialer equal
tunnel_dialer-pings zero rest = refl
tunnel_dialer-pings (suc n) rest = tunnel_dialer-pings n rest

ping-unresolved : resolve_remote_addr (sg_ping ∷ []) ≡ none
unfolding resolve_remote_addr split atoi
ping-unresolved = refl

no_ping :
    (remote_addr addr : Bytes) (port : ℤ)
    → resolve_remote_addr remote_addr ≡ some (port, addr)
    → equal remote_addr (sg_ping ∷ []) ≡ false
no_ping remote_addr addr port e = elim (Bool-cases (equal remote_addr (sg_ping ∷ []))) [
  | inl same ↦
      let of_ping : resolve_remote_addr remote_addr ≡ none =
        ap resolve_remote_addr ((equal_iff remote_addr (sg_ping ∷ [])).0 same) ∙ ping-unresolved in
      cc
  | inr other ↦ other
]

tunnel_dialer-announcement :
    (remote_addr addr : Bytes) (port : ℤ) (rest : List Message)
    → resolve_remote_addr remote_addr ≡ some (port, addr)
    → tunnel_dialer (text remote_addr ∷ rest) ≡ dial_local port addr rest
unfolding tunnel_dialer
tunnel_dialer-announcement remote_addr addr port rest e =
    ap
      (λ (b : Bool).
        if b then tunnel_dialer rest else by_addr rest (resolve_remote_addr remote_addr))
      (no_ping remote_addr addr port e)
    ∙ ap (by_addr rest) e

transferred-chunks : (chunks : List Bytes) → transferred (map binary chunks) ≡ joined chunks
unfolding transferred
transferred-chunks [] = refl
transferred-chunks (c ∷ chunks) = ap (λ s. c ++ s) (transferred-chunks chunks)

-- The client dials the target of the announcement, and copies the bytes `acc`.
abbrev pub Dials : ℤ → Bytes → Bytes → List Message → Type 0
Dials port addr acc sent =
    (rest : List Message) × (tunnel_dialer sent ≡ dial_local port addr rest)
    × (transferred rest ≡ acc)

InOrder-Dials :
    (remote_addr addr acc : Bytes) (port : ℤ) (sent : List Message)
    → resolve_remote_addr remote_addr ≡ some (port, addr)
    → InOrder remote_addr copying acc sent
    → Dials port addr acc sent
InOrder-Dials remote_addr addr acc port sent e (n, chunks, in_order, j) = (
  map binary chunks,
  ap tunnel_dialer in_order
      ∙ (tunnel_dialer-pings n (text remote_addr ∷ map binary chunks)
          ∙ tunnel_dialer-announcement remote_addr addr port (map binary chunks) e),
  transferred-chunks chunks ∙ j,
)

-- However the pings of keepAlive and the hand-over of handleLoop are interleaved and whatever writes
-- fail, when the server copies to the connection, the client passes over the pings, dials what
-- ResolveRemoteAddr makes of the announced target, and copies to it the bytes of the chunks whose write
-- succeeded, in order and no ping among them.
pub run-Dials :
    (remote_addr addr : Bytes) (port : ℤ) (es : List Event)
    → resolve_remote_addr remote_addr ≡ some (port, addr)
    → (run remote_addr es fresh_tunnel).handing ≡ copying
    → Dials port addr
        (all_accepted remote_addr es fresh_tunnel [])
        (run remote_addr es fresh_tunnel).sent
run-Dials remote_addr addr port es e c =
    let t = run remote_addr es fresh_tunnel in
    let acc = all_accepted remote_addr es fresh_tunnel [] in
    let s = run-IsSound remote_addr [] es fresh_tunnel (fresh_tunnel-IsSound remote_addr) in
    InOrder-Dials remote_addr addr acc port t.sent e
      (subst (λ h. InOrder remote_addr h acc t.sent) c s.in_order)

-- The writes that are left, in the order in which the mutex lets them happen.
abbrev pub hand_over_events : List Event
hand_over_events = pinged true ∷ locked ∷ announced true ∷ []

hands_over :
    (remote_addr acc : Bytes) (k : Keeper) (t : Tunnel)
    → t.keeper ≡ k
    → t.handing ≡ unpinged
    → t.is_open ≡ true
    → IsSound remote_addr acc t
    → (run remote_addr hand_over_events t).handing ≡ copying
unfolding run
hands_over remote_addr acc selecting t e h o s = ground arith
hands_over remote_addr acc pinging t e h o s = ground arith
hands_over remote_addr acc giving_up t e h o s = ground arith
hands_over remote_addr acc stopped t e h o s = ground arith

-- The hand-over is not blocked: in every run, once the loop has taken a connection that is open, a ping
-- on the way, the lock and the announcement can happen, and if they succeed the connection is copied to.
pub run-hands_over :
    (remote_addr : Bytes) (es : List Event)
    → (run remote_addr es fresh_tunnel).handing ≡ unpinged
    → (run remote_addr es fresh_tunnel).is_open ≡ true
    → (run remote_addr hand_over_events (run remote_addr es fresh_tunnel)).handing ≡ copying
run-hands_over remote_addr es h o =
    let t = run remote_addr es fresh_tunnel in
    hands_over remote_addr (all_accepted remote_addr es fresh_tunnel []) t.keeper t refl h o
      (run-IsSound remote_addr [] es fresh_tunnel (fresh_tunnel-IsSound remote_addr))
