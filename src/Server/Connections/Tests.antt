-- ===== src/Server/Connections/Tests.antt =====
-- Connections at concrete values.
use tonutils_liteserver_prox.Base.{ℕ, ◌≡◌, refl, List, [], ◌∷◌}
use tonutils_liteserver_prox.Server.Connections.{Connections, ServerClient, idle, idle_of}
use tonutils_liteserver_prox.Server.Connections.Limit.{
  IsLimited, Event, connects, disconnects, requests, run, run-IsLimited,
}

abbrev client : ℕ → ServerClient
client n = record { ip = "10.0.0.1"; port = n; handle = n; server_key = [] }

abbrev nobody : Connections
nobody = record { ips = []; max_connections_per_ip = 1; opened = 0; closed = 0 }

-- two connections from one address, where one is allowed, then the first closes
abbrev session : List Event
session =
    connects (client 1) 10
    ∷ connects (client 2) 11
    ∷ requests (client 1) 12
    ∷ disconnects (client 2)
    ∷ disconnects (client 1)
    ∷ []

run-IsLimited_example : IsLimited (run nobody session)
run-IsLimited_example = run-IsLimited nobody session (record { each = tt })

abbrev one_idle : Connections
one_idle = record nobody {
  ips =
      (
        "10.0.0.1",
        (1, record { client = client 1; last_request = 10 })
            ∷ (2, record { client = client 2; last_request = 90 })
            ∷ [],
      )
      ∷ [];
}

idle_closes : idle 50 one_idle.ips ≡ client 1 ∷ []
unfolding idle idle_of
idle_closes = refl
