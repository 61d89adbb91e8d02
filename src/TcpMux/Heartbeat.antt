-- ===== src/TcpMux/Heartbeat.antt =====
-- `broadcastHeartbeat` of tcpmux.go: which control channels are left.
use backhaul_plus.Prelude.{
  ◌≡◌, refl, ap, ◌∙◌, Bool, inl, inr, List, [], ◌∷◌, Option, none, some, Option-cases, All, ◌⊎◌,
}
use backhaul_plus.Result.{ok, err}
use backhaul_plus.Signals.{sg_hb}
use backhaul_plus.Stream.{IoError, write}
use backhaul_plus.TcpMux.{
  ControlConn, Controls, signal, alive_extras, all_told, heartbeat_to, broadcast_heartbeat,
}
use backhaul_plus.TcpMux.Signalled.{IsAlive, told, hung_up, signal-alive, signal-dead}

-- The extra channels that took a signal, each with it.
abbrev pub if_alive : Option IoError → ControlConn → List ControlConn → List ControlConn
if_alive none c cs = told sg_hb c ∷ cs
if_alive (some e) c cs = cs

abbrev pub told_alive : List ControlConn → List ControlConn
told_alive [] = []
told_alive (c ∷ cs) = if_alive c.conn.write_error c (told_alive cs)

alive_extras_lem : (cs : List ControlConn) → alive_extras cs ≡ told_alive cs
unfolding alive_extras signal write
alive_extras_lem [] = refl
alive_extras_lem (c ∷ cs) = elim (Option-cases c.conn.write_error) [
  | inl works ↦ rw (works, alive_extras_lem cs) refl
  | inr (e, fails) ↦ rw (fails, alive_extras_lem cs) refl
]

All-IsAlive : (cs : List ControlConn) → All IsAlive (told_alive cs)
All-IsAlive [] = tt
All-IsAlive (c ∷ cs) = first c.conn.write_error refl (All-IsAlive cs)
  where
    first :
        (o : Option IoError)
        → c.conn.write_error ≡ o
        → All IsAlive (told_alive cs)
        → All IsAlive (if_alive o c (told_alive cs))
    first none works rest = (works, rest)
    first (some e) fails rest = rest

-- With a control channel, the heartbeat succeeds exactly if that one can be written to. It then has the
-- signal, else it is closed. In either case just the extra channels that took the signal are left, in
-- their order, and nothing else changes.
pub broadcast_heartbeat-control :
    (s : Controls) (c : ControlConn)
    → s.control_channel ≡ some c
    → All IsAlive (told_alive s.extra_ctrl_conns)
      × ((IsAlive c
            × (broadcast_heartbeat s ≡ (
              ok tt,
              record s {
                control_channel = some (told sg_hb c);
                extra_ctrl_conns = told_alive s.extra_ctrl_conns;
              },
            )))
          ⊎ ((IsAlive c → ⊥)
              × (broadcast_heartbeat s ≡ (
                err tt,
                record s {
                  control_channel = some (hung_up c);
                  extra_ctrl_conns = told_alive s.extra_ctrl_conns;
                },
              ))))
unfolding broadcast_heartbeat heartbeat_to
broadcast_heartbeat-control s c h = (
  All-IsAlive s.extra_ctrl_conns,
  elim (Option-cases c.conn.write_error) [
    | inl works ↦ inl (works, told_by (signal-alive sg_hb c works))
    | inr (e, fails) ↦ inr ((λ a. cc), told_by (signal-dead sg_hb c fails))
  ],
)
  where
    told_by :
        {p : Bool × ControlConn}
        → signal sg_hb c ≡ p
        → broadcast_heartbeat s ≡ all_told (told_alive s.extra_ctrl_conns) p s
    told_by e =
        ap (λ (o : Option ControlConn). heartbeat_to o s) h
        ∙ ap (λ (cs : List ControlConn). all_told cs (signal sg_hb c) s)
            (alive_extras_lem s.extra_ctrl_conns)
        ∙ ap (λ (p : Bool × ControlConn). all_told (told_alive s.extra_ctrl_conns) p s) e
