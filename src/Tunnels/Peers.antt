-- ===== src/Tunnels/Peers.antt =====
-- Which peers the tunnels of the TCP transport lead to.
use backhaul_plus.Prelude.{◌≡◌, Bool, true, false, List, [], ◌∷◌, All, some}
use backhaul_plus.Result.{Result}
use backhaul_plus.Strings.{Bytes}
use backhaul_plus.Tunnels.{Peer, Announced, TunnelSide, Event, restart}

abbrev pub IsFrom : Bytes → Peer → Type 0
IsFrom ip p = p.ip ≡ ip

abbrev pub LeadsTo : Bytes → Announced → Type 0
LeadsTo ip a = a.peer.ip ≡ ip

-- With this control channel, each tunnel connection that waits or is used is of its IP.
pub record IsGuarded (control : Peer) (s : TunnelSide) : Type 0 where
  pub controlled : s.control_channel ≡ some control
  pub waiting : All (IsFrom control.ip) s.tunnel_channel
  pub used : All (LeadsTo control.ip) s.announced

abbrev pub is_restart : Event → Bool
is_restart restart = true
is_restart e = false

abbrev pub NoRestart : List Event → Type 0
NoRestart [] = Unit
NoRestart (e ∷ es) = (is_restart e ≡ false) × NoRestart es
