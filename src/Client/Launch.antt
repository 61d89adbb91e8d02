-- ===== src/Client/Launch.antt =====
-- cmd/cmd.go: what `Run` starts of a configuration that passed the checks.
use backhaul_plus.Prelude.{List, [], ◌∷◌, if◌then◌else◌}
use backhaul_plus.Config.{Config, ClientConfig, ServerConfig}
use backhaul_plus.Strings.{equal}
use backhaul_plus.Client.Workers.{Worker, start}

-- `Run` runs the servers and gateways, or the clients, or ends the program.
pub data Launched : Type 0 where
  servers_run : List ServerConfig → Launched
  clients_run : List Worker → Launched
  no_valid_client not_set : Launched

-- The loop over the clients, which skips those without an address.
unfoldable pub start_clients : List ClientConfig → List Worker
start_clients [] = []
start_clients (c ∷ cs) =
    let rest = start_clients cs in if equal c.remote_addr [] then rest else start c ∷ rest

abbrev pub any_client : List Worker → Launched
any_client [] = no_valid_client
any_client (w ∷ workers) = clients_run (w ∷ workers)

abbrev pub launch_clients : List ClientConfig → Launched
launch_clients [] = not_set
launch_clients (c ∷ cs) = any_client (start_clients (c ∷ cs))

abbrev pub launch_sides : List ServerConfig → List ClientConfig → Launched
launch_sides (s ∷ ss) clients = servers_run (s ∷ ss)
launch_sides [] clients = launch_clients clients

-- The `switch` of `Run`.
unfoldable pub launch : Config → Launched
launch cfg = launch_sides cfg.servers cfg.clients
