-- ===== src/TcpMux/Sessions/Conservation.antt =====
-- `streamCounter`, `sessionCounter` and `counter` of tcpmux.go against what they count, between two
-- restarts.
use backhaul_plus.Registry.{LocalTcpConn, has_room}
use backhaul_plus.Prelude.{
  ◌+◌, ◌%◌, ◌≤◌, ◌≡◌, List, [], ◌∷◌, length, Bool, some, none, true, false, Option,
}
use backhaul_plus.TcpMux.Sessions.{
  Pipeline, Session, LocalTcpConn, has_room, World, restarted, Event, step,
}
use mathlib.Core.Path.{subst}
use mathlib.Core.Path.{subst}
use backhaul_plus.TcpMux.Sessions.Counts.{two_32, streams, live, Bounded, Conserved}

-- What a step of some session keeps of all of them.
record Moved (xs : List Session) (s : Pipeline) (xs' : List Session) (s' : Pipeline) : Type 0 where
  stream_change :
      (s'.stream_counter + (length s.local_channel + streams xs)) % two_32
      ≡ (s.stream_counter + (length s'.local_channel + streams xs')) % two_32
  session_change : (s'.session_counter + live xs) % two_32 ≡ (s.session_counter + live xs') % two_32
  bounded : Bounded s.mux_con xs'
  queue : length s'.local_channel ≤ s.channel_size
  same_mux : s'.mux_con ≡ s.mux_con
  same_size : s'.channel_size ≡ s.channel_size

abbrev pub IsConserved : World → Type 0
IsConserved w = Conserved w.sessions w.pipeline

abbrev pub is_restarted : Event → Bool
is_restarted restarted = true
is_restarted e = false

-- No restart comes to its end.
abbrev pub NoRestart : List Event → Type 0
NoRestart [] = Unit
NoRestart (e ∷ es) = (is_restarted e ≡ false) × NoRestart es

-- A run, in which an event that cannot happen is passed over.
abbrev pub or_stay : World → Option World → World
or_stay w none = w
or_stay w (some w') = w'

unfoldable pub run : List Event → World → World
run [] w = w
run (e ∷ es) w = run es (or_stay w (step e w))
