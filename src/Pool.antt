-- ===== src/Pool.antt =====
-- internal/client/transport/tcp.go: `poolMaintainer`, and what `channelHandler` does with the server's
-- signals. The `int32` counters, of the connections of ten seconds, stay below 2^31.
pub mod Balance
use backhaul_plus.Prelude.{
  ℕ, ◌+◌, ◌-◌, ◌*◌, ◌/◌, Bool, true, false, not, ◌&&◌, List, [], ◌∷◌, Option, none, some, ltb, leb,
  ◌==◌, if◌then◌else◌,
}
use backhaul_plus.Signals.{sg_chan, sg_hb, sg_closed, sg_rtt}

-- `conn_pool_size` and `aggressive_pool` are the configuration's; `dials` counts the calls of
-- `tunnelDialer`, `sending` says that the maintainer is at the send to `controlFlow`, and `running`
-- that no restart was called for.
pub record Pool : Type 0 where
  pub conn_pool_size : ℕ
  pub aggressive_pool : Bool
  pub new_pool_size : ℕ
  pub load_connections : ℕ
  pub pool_connections : ℕ
  pub pool_connections_sum : ℕ
  pub control_flow : ℕ
  pub sending : Bool
  pub dials : ℕ
  pub running : Bool

-- The initial filling.
abbrev pub filled : ℕ → Bool → Pool
filled size aggressive = record {
  conn_pool_size = size;
  aggressive_pool = aggressive;
  new_pool_size = size;
  load_connections = 0;
  pool_connections = 0;
  pool_connections_sum = 0;
  control_flow = 0;
  sending = false;
  dials = size;
  running = true;
}

-- `(loadConnections + a) > poolConnectionsAvg*b`
abbrev pub is_short : Bool → ℕ → ℕ → Bool
is_short true load avg = ltb (avg * 2) (load + 1)
is_short false load avg = ltb (avg * 5) (load + 4)

-- `float64(loadConnections+x) < float64(poolConnectionsAvg)*y`, for y = 0.75 and y = 4: both sides are
-- exact, and are compared in quarters.
abbrev pub is_idle : Bool → ℕ → ℕ → Bool
is_idle true load avg = ltb (4 * load) (3 * avg)
is_idle false load avg = ltb (4 * (load + 3)) (16 * avg)

-- The average of ten seconds, rounded up.
abbrev pub tenth : ℕ → ℕ
tenth n = (n + 9) / 10

unfoldable pub adjusted : ℕ → ℕ → Pool → Pool
adjusted load avg p =
    if is_short p.aggressive_pool load avg
    then record p { new_pool_size = p.new_pool_size + 1; dials = p.dials + 1 }
    else if is_idle p.aggressive_pool load avg && ltb p.conn_pool_size p.new_pool_size
    then record p { new_pool_size = p.new_pool_size - 1; sending = true }
    else p

-- `case <-tickerLoad.C`
unfoldable pub load_tick : Pool → Pool
unfolding adjusted
load_tick p =
    adjusted (tenth p.load_connections) (tenth p.pool_connections_sum)
      (record p { load_connections = 0; pool_connections_sum = 0 })

-- `case <-tickerPool.C`
unfoldable pub pool_tick : Pool → Pool
pool_tick p = record p { pool_connections_sum = p.pool_connections_sum + p.pool_connections }

-- `case utils.SG_Chan`: a request is answered by a dial, or uses up a value of `controlFlow`.
unfoldable pub requested : Pool → Pool
requested p =
    let p = record p { load_connections = p.load_connections + 1 } in
    if p.control_flow == 0
    then record p { dials = p.dials + 1 }
    else record p { control_flow = p.control_flow - 1 }

-- `switch msg`; `sent` says whether the answer to a measurement could be sent.
unfoldable pub on_message : ℕ → Bool → Pool → Pool
unfolding requested
on_message msg sent p =
    if msg == sg_chan
    then requested p
    else if msg == sg_hb
    then p
    else if msg == sg_closed
    then record p { running = false }
    else if msg == sg_rtt
    then record p { running = sent }
    else record p { running = false }

pub data Event : Type 0 where
  ticked_pool ticked_load sent_flow dialed taken : Event
  message : ℕ → Bool → Event

-- An event that cannot happen is passed over: a tick while the maintainer is at a send, a send to a
-- full channel, a signal after a restart was called for. `tunnelDialer` counts a connection from its
-- dial to its announcement.
unfoldable pub step : Event → Pool → Pool
unfolding load_tick pool_tick on_message
step ticked_pool p = if p.sending then p else pool_tick p
step ticked_load p = if p.sending then p else load_tick p
step sent_flow p =
    if p.sending && ltb p.control_flow 100
    then record p { sending = false; control_flow = p.control_flow + 1 }
    else p
step dialed p = record p { pool_connections = p.pool_connections + 1 }
step taken p = record p { pool_connections = p.pool_connections - 1 }
step (message msg sent) p = if p.running then on_message msg sent p else p

unfoldable pub run : List Event → Pool → Pool
run [] p = p
run (e ∷ es) p = run es (step e p)
