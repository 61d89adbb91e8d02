-- ===== src/TcpMux/Sessions.antt =====
-- internal/server/transport/tcpmux.go: the queue of inbound connections and the sessions that carry
-- them, `enqueueInbound`, `handleLoop` and `handleSession`. A goroutine's pass is cut where it may block:
-- at a channel operation. The `int32` counters hold their value modulo 2^32.
pub mod Counts
pub mod Balance
pub mod Conservation
pub mod Exhausted
use backhaul_plus.Prelude.{
  ℕ, zero, suc, ◌+◌, ◌-◌, ◌*◌, ◌%◌, Bool, true, false, not, List, [], ◌∷◌, ◌++◌, Option, none, some,
  ltb, ◌==◌, if◌then◌else◌, length,
}
use backhaul_plus.Prefixed.{NetConn}
use backhaul_plus.Registry.{LocalTcpConn, local_conn, has_room}
use backhaul_plus.Strings.{Bytes}

-- The channels and counters of `TcpMuxTransport`, with `ChannelSize` and `MuxCon` of its configuration;
-- `tunnel_channel` is the number of sessions that wait in it.
pub record Pipeline : Type 0 where
  pub ready : Bool
  pub channel_size : ℕ
  pub mux_con : ℕ
  pub local_channel : List LocalTcpConn
  pub req_new_conn_chan : ℕ
  pub tunnel_channel : ℕ
  pub stream_counter : ℕ
  pub session_counter : ℕ

-- `atomic.AddInt32(&n, 1)` and `atomic.AddInt32(&n, -1)`.
abbrev pub incremented : ℕ → ℕ
incremented n = (n + 1) % 4294967296

abbrev pub decremented : ℕ → ℕ
decremented n = (n + 4294967295) % 4294967296

-- `a < b` of two `int32`.
abbrev pub less_int32 : ℕ → ℕ → Bool
less_int32 a b = ltb ((a + 2147483648) % 4294967296) ((b + 2147483648) % 4294967296)

-- A request for a tunnel connection, dropped when its channel is full.
abbrev pub request : Pipeline → Pipeline
request s = record s {
  req_new_conn_chan =
      if has_room s.channel_size s.req_new_conn_chan
      then s.req_new_conn_chan + 1
      else s.req_new_conn_chan;
}

abbrev pub appended : LocalTcpConn → Pipeline → Pipeline
appended entry s = record s { local_channel = s.local_channel ++ (entry ∷ []) }

-- The sessions are full: `streamCounter >= sessionCounter*MuxCon`.
abbrev pub is_full : Pipeline → Bool
is_full s = not (less_int32 s.stream_counter (s.session_counter * s.mux_con % 4294967296))

unfoldable pub mux_queued : LocalTcpConn → Pipeline → Pipeline
mux_queued entry s =
    let s = record (appended entry s) { stream_counter = incremented s.stream_counter } in
    if is_full s then request s else s

-- `enqueueInbound`
unfoldable pub mux_enqueue : LocalTcpConn → Pipeline → Pipeline × Bool
unfolding mux_queued
mux_enqueue entry s =
    if has_room s.channel_size (length s.local_channel)
    then (mux_queued entry s, true)
    else (s, false)

-- `EnqueueInbound`
unfoldable pub mux_enqueue_inbound : ℕ → NetConn → Bytes → ℕ → Pipeline → Pipeline × Bool
unfolding mux_enqueue
mux_enqueue_inbound now conn target report_port s =
    if s.ready then mux_enqueue (local_conn now conn target report_port) s else (s, false)

-- Where `handleSession` waits: for a slot of `counter`, for a connection, with a connection that is to be
-- put back before it goes on or ends; its two ends, by an error and by the context; and for good at a
-- queue that a restart has replaced.
pub data Phase : Type 0 where
  for_slot for_conn ended cancelled stranded : Phase
  putting_back giving_up : LocalTcpConn → Phase

-- `taken` is the number of values in `counter`, `handlers` that of the goroutines that copy.
pub record Session : Type 0 where
  pub phase : Phase
  pub taken : ℕ
  pub handlers : ℕ

abbrev pub new_session : Session
new_session = record { phase = for_slot; taken = 0; handlers = 0 }

-- How `OpenStream` and the writing of the target end.
pub data Opened : Type 0 where
  open_failed send_failed carried : Opened

-- What a goroutine of a session does next; `received` has the time at which it happens.
pub data Action : Type 0 where
  acquired put_back done_handler context_done : Action
  received : ℕ → Opened → Action

unfoldable pub carry : Opened → LocalTcpConn → Session → Pipeline → Session × Pipeline
carry open_failed entry x s = (
  record x { phase = giving_up entry },
  record s { session_counter = decremented s.session_counter },
)
carry send_failed entry x s = (record x { phase = putting_back entry }, s)
carry carried entry x s = (record x { phase = for_slot; handlers = x.handlers + 1 }, s)

-- A connection that has waited for more than three seconds is closed.
abbrev pub is_stale : ℕ → LocalTcpConn → Bool
is_stale now entry = ltb (entry.time_created + 3000) now

unfoldable pub receive :
    ℕ → Opened → List LocalTcpConn → Session → Pipeline → Option (Session × Pipeline)
unfolding carry
receive now opened [] x s = none
receive now opened (entry ∷ rest) x s =
    let s = record s { local_channel = rest } in
    if is_stale now entry
    then some (
      record x { phase = for_slot; taken = x.taken - 1 },
      record s { stream_counter = decremented s.stream_counter },
    )
    else some (carry opened entry x s)

-- `none`: the goroutine is not there, or is blocked.
unfoldable pub session_step : Action → Phase → Session → Pipeline → Option (Session × Pipeline)
unfolding receive
session_step acquired for_slot x s =
    if ltb x.taken s.mux_con
    then some (record x { phase = for_conn; taken = x.taken + 1 }, s)
    else none
session_step (received now opened) for_conn x s = receive now opened s.local_channel x s
session_step context_done for_conn x s = some (record x { phase = cancelled }, s)
session_step put_back (putting_back entry) x s =
    if has_room s.channel_size (length s.local_channel)
    then some (record x { phase = for_slot }, appended entry s)
    else none
session_step put_back (giving_up entry) x s =
    if has_room s.channel_size (length s.local_channel)
    then some (record x { phase = ended }, request (appended entry s))
    else none
session_step done_handler phase x s =
    if x.handlers == 0
    then none
    else some (
      record x { handlers = x.handlers - 1; taken = x.taken - 1 },
      record s { stream_counter = decremented s.stream_counter },
    )
session_step _ _ x s = none

pub record World : Type 0 where
  pub sessions : List Session
  pub pipeline : Pipeline

-- What happens next: an inbound connection, a tunnel session that is accepted or taken up by
-- `handleLoop`, a restart that comes to its end, or a step of the session at a position.
pub data Event : Type 0 where
  inbound : LocalTcpConn → Event
  accepted taken_up restarted : Event
  session_at : ℕ → Action → Event

abbrev pub put_first : Session → Option (List Session × Pipeline) → Option (List Session × Pipeline)
put_first x none = none
put_first x (some (xs, s)) = some (x ∷ xs, s)

abbrev pub put_changed :
    List Session → Option (Session × Pipeline) → Option (List Session × Pipeline)
put_changed xs none = none
put_changed xs (some (x, s)) = some (x ∷ xs, s)

unfoldable pub step_at : Action → ℕ → List Session → Pipeline → Option (List Session × Pipeline)
unfolding session_step
step_at a i [] s = none
step_at a zero (x ∷ xs) s = put_changed xs (session_step a x.phase x s)
step_at a (suc i) (x ∷ xs) s = put_first x (step_at a i xs s)

abbrev pub as_world : Option (List Session × Pipeline) → Option World
as_world none = none
as_world (some (xs, s)) = some (record { sessions = xs; pipeline = s })

-- In the two seconds of `Restart` a goroutine that waits for a connection sees the cancelled context, and
-- one that waits at the full queue is left there. One that waits for a slot goes on, with the new
-- channels and the new context, and so do the goroutines that copy.
abbrev pub left_by_restart : Phase → Phase
left_by_restart for_conn = cancelled
left_by_restart (putting_back entry) = stranded
left_by_restart (giving_up entry) = stranded
left_by_restart for_slot = for_slot
left_by_restart ended = ended
left_by_restart cancelled = cancelled
left_by_restart stranded = stranded

abbrev pub left_sessions : List Session → List Session
left_sessions [] = []
left_sessions (x ∷ xs) = record x { phase = left_by_restart x.phase } ∷ left_sessions xs

-- What `Restart` makes of the channels and counters.
abbrev pub reset_pipeline : Pipeline → Pipeline
reset_pipeline s = record s {
  ready = false;
  local_channel = [];
  req_new_conn_chan = 0;
  tunnel_channel = 0;
  stream_counter = 0;
  session_counter = 0;
}

-- `handleLoop` adds a session, with a free `counter`.
unfoldable pub step : Event → World → Option World
unfolding mux_enqueue step_at
step (inbound entry) w = some (record w { pipeline = (mux_enqueue entry w.pipeline).0 })
step accepted w =
    if has_room w.pipeline.channel_size w.pipeline.tunnel_channel
    then some (record w {
      pipeline = record w.pipeline { tunnel_channel = w.pipeline.tunnel_channel + 1 };
    })
    else some w
step taken_up w =
    if w.pipeline.tunnel_channel == 0
    then none
    else some (record {
      sessions = new_session ∷ w.sessions;
      pipeline = record w.pipeline {
        tunnel_channel = w.pipeline.tunnel_channel - 1;
        session_counter = incremented w.pipeline.session_counter;
      };
    })
step (session_at i a) w = as_world (step_at a i w.sessions w.pipeline)
step restarted w =
    some (record { sessions = left_sessions w.sessions; pipeline = reset_pipeline w.pipeline })
