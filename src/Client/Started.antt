-- ===== src/Client/Started.antt =====
-- What a client that internal/client/client.go starts dials with, behind the defaults of cmd/defaults.go.
-- The check of the configuration, which comes between, is left out here.
mod Times
use backhaul_plus.Prelude.{
  ◌≤ℤ◌, true, false, ◌≡◌, ℤ, pos, negsuc, List, [], ◌∷◌, Option, none, some, ltb_ℤ, if◌then◌else◌,
}
use backhaul_plus.Config.{Config, ClientConfig, TransportType, tcp, tcp_mux, udp, quic}
use backhaul_plus.Config.Defaults.{if_not_positive, if_below_one}
use backhaul_plus.Config.Runtime.{seconds}
use backhaul_plus.Start.Routed.{is_known}
use backhaul_plus.Strings.{Bytes, equal}
use backhaul_plus.Client.Workers.{
  Worker, tcp_client, tcp_mux_client, ws_client, ws_mux_client, quic_client, udp_client,
  invalid_transport,
}
use backhaul_plus.Client.Started.Times.{longest}

-- The parameters that every dialer has.
pub record Dialing : Type 0 where
  pub remote_addr : Bytes
  pub token : Bytes
  pub retry_interval : ℤ
  pub dial_time_out : ℤ
  pub pool_size : ℤ

abbrev pub dialing : Worker → Option Dialing
dialing (tcp_client t) = some (record {
  remote_addr = t.remote_addr;
  token = t.token;
  retry_interval = t.retry_interval;
  dial_time_out = t.dial_time_out;
  pool_size = t.conn_pool_size;
})
dialing (tcp_mux_client t) = some (record {
  remote_addr = t.remote_addr;
  token = t.token;
  retry_interval = t.retry_interval;
  dial_time_out = t.dial_time_out;
  pool_size = t.conn_pool_size;
})
dialing (ws_client t) = some (record {
  remote_addr = t.remote_addr;
  token = t.token;
  retry_interval = t.retry_interval;
  dial_time_out = t.dial_time_out;
  pool_size = t.conn_pool_size;
})
dialing (ws_mux_client t) = some (record {
  remote_addr = t.remote_addr;
  token = t.token;
  retry_interval = t.retry_interval;
  dial_time_out = t.dial_time_out;
  pool_size = t.conn_pool_size;
})
dialing (quic_client t) = some (record {
  remote_addr = t.remote_addr;
  token = t.token;
  retry_interval = t.retry_interval;
  dial_time_out = t.dial_time_out;
  pool_size = t.connection_pool;
})
dialing (udp_client t) = some (record {
  remote_addr = t.remote_addr;
  token = t.token;
  retry_interval = t.retry_interval;
  dial_time_out = t.dial_time_out;
  pool_size = t.conn_pool_size;
})
dialing (invalid_transport t) = none

abbrev pub transport_of : Worker → TransportType
transport_of (tcp_client t) = tcp
transport_of (tcp_mux_client t) = tcp_mux
transport_of (ws_client t) = t.mode
transport_of (ws_mux_client t) = t.mode
transport_of (quic_client t) = quic
transport_of (udp_client t) = udp
transport_of (invalid_transport t) = t

-- The transport is one that the program knows, and the two times are at most 9223372036 seconds.
abbrev pub IsStartable : ClientConfig → Type 0
IsStartable c =
    (is_known c.transport ≡ true) × (c.retry_interval ≤ℤ longest) × (c.dial_timeout ≤ℤ longest)

-- The clients that have an address.
abbrev pub addressed : List ClientConfig → List ClientConfig
addressed [] = []
addressed (c ∷ cs) = let rest = addressed cs in if equal c.remote_addr [] then rest else c ∷ rest

-- It dials the address, with a token, a wait and a timeout of at least a second, and a pool of at least
-- one connection.
pub record IsDialing (addr : Bytes) (d : Dialing) : Type 0 where
  pub address : d.remote_addr ≡ addr
  pub with_token : equal d.token [] ≡ false
  pub waits : ltb_ℤ (pos 999_999_999) d.retry_interval ≡ true
  pub times_out : ltb_ℤ (pos 999_999_999) d.dial_time_out ≡ true
  pub pooled : ltb_ℤ (pos 0) d.pool_size ≡ true

-- The worker is that of the transport, and dials.
abbrev pub IsWorking : Bytes → TransportType → Worker → Type 0
IsWorking addr transport w =
    (transport_of w ≡ transport) × (d : Dialing) × (dialing w ≡ some d) × IsDialing addr d

abbrev pub AllWorking : List ClientConfig → List Worker → Type 0
AllWorking [] [] = Unit
AllWorking (c ∷ cs) (w ∷ workers) = IsWorking c.remote_addr c.transport w × AllWorking cs workers
AllWorking _ _ = ⊥

abbrev dialed_by : ClientConfig → Dialing
dialed_by c = record {
  remote_addr = c.remote_addr;
  token = c.token;
  retry_interval = seconds c.retry_interval;
  dial_time_out = seconds c.dial_timeout;
  pool_size = c.connection_pool;
}
