-- ===== src/Core/Registry/Tests.antt =====
-- Runs of the two registries, and their theorems at concrete states.
use model_lib.Base.Bytes.{codes}
use model_lib.Base.Map.{lookup, insert}
use model_lib.Base.{◌≡◌, refl, true, [], ◌∷◌, some, arith, length, All, min, nat_eq, map}
use model_lib.Core.Registry.{enlist, emplace_at, remove}
use model_lib.Core.Registry.Order.{Sorted, sort, place, before}
use model_lib.Core.Registry.Listing.{listing, list_one}
use model_lib.Core.Registry.Keys.{WellFormed}
use model_lib.Core.Registry.Connections.{
  ConnectionRegistry, ConnectionFit, ConnectionStep, ConnectionStep-WellFormed, added,
  StoredConnection, new_connection,
}
use model_lib.Core.Registry.Connections
use model_lib.Core.Registry.Requests.{
  HttpRequestRegistry, RequestFit, RequestStep, RequestStep-WellFormed, StoredRequest, of_site,
  Arrival, new_request,
}
use model_lib.Core.Registry.Requests
use model_lib.Core.Registry.Snapshot.{snapshot_connections, snapshot_requests}
use model_lib.Core.Registry.Life.{remove-add, apply_updates, site, status}

abbrev no_connections : ConnectionRegistry
no_connections = record { rows = []; next_id = 1 }

no_connections-WellFormed : WellFormed ConnectionFit no_connections
no_connections-WellFormed = record { distinct = tt; below = tt; right = tt }

abbrev one_connection : ConnectionRegistry
one_connection =
    (Connections.add 2000 10 (codes "HTTP") (codes "10.0.0.1") (codes "open") no_connections).0

abbrev two_connections : ConnectionRegistry
two_connections =
    (Connections.add 1000 20 (codes "HTTPS") (codes "10.0.0.2") (codes "open") one_connection).0

ConnectionStep-WellFormed_example : WellFormed ConnectionFit one_connection
ConnectionStep-WellFormed_example =
    ConnectionStep-WellFormed
      (added {r = no_connections} (omega arith) 2000 10 (codes "HTTP") (codes "10.0.0.1")
        (codes "open"))
      no_connections-WellFormed

connections_shown :
    Sorted
      (λ i. i.connected_at_unix_ms)
      (λ i. i.id)
      (Connections.snapshot 5000000000 10 one_connection)
    × (length (Connections.snapshot 5000000000 10 one_connection)
        ≡ min 10 (Connections.size one_connection))
    × All
        (λ i.
          (stored : StoredConnection) × (lookup i.id one_connection.rows ≡ some stored)
          × (i ≡ Connections.displayed 5000000000 stored))
        (Connections.snapshot 5000000000 10 one_connection)
connections_shown =
    snapshot_connections 5000000000 10 one_connection ConnectionStep-WellFormed_example

abbrev no_requests : HttpRequestRegistry
no_requests = record { rows = []; next_id = 1 }

no_requests-WellFormed : WellFormed RequestFit no_requests
no_requests-WellFormed = record { distinct = tt; below = tt; right = tt }

abbrev arrival : Arrival
arrival = record {
  protocol = codes "HTTP/1.1";
  client_ip = codes "10.0.0.9";
  method = codes "GET";
  url = codes "/";
  referer = [];
  host = codes "example.com";
  status = codes "received";
}

abbrev one_request : HttpRequestRegistry
one_request = (Requests.add 2000 10 arrival no_requests).0

RequestStep-WellFormed_example : WellFormed RequestFit one_request
RequestStep-WellFormed_example =
    RequestStep-WellFormed (Requests.added {r = no_requests} (omega arith) 2000 10 arrival)
      no_requests-WellFormed

snapshot_requests_example :
    Sorted
      (λ i. i.connected_at_unix_ms)
      (λ i. i.id)
      (Requests.snapshot 7000000000 (some 0) 10 one_request)
    × (length (Requests.snapshot 7000000000 (some 0) 10 one_request)
        ≡ min 10 (Requests.size (some 0) one_request))
    × All
        (λ i.
          (stored : StoredRequest) × (lookup i.id one_request.rows ≡ some stored)
          × (of_site (some 0) stored ≡ true)
          × (i ≡ Requests.displayed 7000000000 stored))
        (Requests.snapshot 7000000000 (some 0) 10 one_request)
snapshot_requests_example =
    snapshot_requests 7000000000 10 (some 0) one_request RequestStep-WellFormed_example

remove-add_example :
    (remove (Requests.add 3000 20 arrival one_request).1 (
      apply_updates
        (Requests.add 3000 20 arrival one_request).1
        (site 7 (codes "main") (codes "example.com") (codes "routed") ∷ status (codes "done") ∷ [])
        (Requests.add 3000 20 arrival one_request).0)).rows
    ≡ one_request.rows
remove-add_example =
    remove-add 3000 20 arrival
      (site 7 (codes "main") (codes "example.com") (codes "routed") ∷ status (codes "done") ∷ [])
      one_request RequestStep-WellFormed_example

-- The later id arrived at the earlier time of day, and comes first.
order : map (λ i. i.id) (Connections.snapshot 0 10 two_connections) ≡ 2 ∷ 1 ∷ []
unfolding Connections.snapshot Connections.add Connections.displayed Connections.new_connection
    enlist emplace_at lookup insert listing list_one sort place before
order = refl
