-- ===== src/Core/Registry/Connections.antt =====
-- src/core/ConnectionRegistry.cpp: `ConnectionRegistry`, the open connections. The two clocks are
-- read by the caller of the model: milliseconds since 1970, and nanoseconds of the steady clock.
use model_lib.Base.Bytes.{Bytes}
use model_lib.Base.{
  ℕ, ◌+◌, ◌≡◌, ◌≤◌, ◌<◌, ◌^◌, refl, true, List, [], arith, length, length-take, nat_eq,
}
use model_lib.Core.Registry.{Registry, bounded, elapsed_seconds, enlist, alter, remove, clear}
use model_lib.Core.Registry.Order.{sort}
use model_lib.Core.Registry.Listing.{listing}
use model_lib.Core.Registry.Keys.{
  WellFormed, enlist-WellFormed, alter-WellFormed, remove-WellFormed, clear-WellFormed,
}

pub record ConnectionInfo : Type 0 where
  pub id : ℕ
  pub protocol : Bytes
  pub source_address : Bytes
  pub connected_at_unix_ms : ℕ
  pub connected_seconds : ℕ
  pub status : Bytes
  pub method : Bytes
  pub url : Bytes
  pub referer : Bytes

pub record StoredConnection : Type 0 where
  pub info : ConnectionInfo
  pub connected_at : ℕ

abbrev pub ConnectionRegistry : Type 0
ConnectionRegistry = Registry StoredConnection

unfoldable pub new_connection : ℕ → ℕ → Bytes → Bytes → Bytes → ℕ → StoredConnection
new_connection system_now steady_now protocol source_address status id = record {
  info = record {
    id = id;
    protocol = bounded protocol 16;
    source_address = bounded source_address 128;
    connected_at_unix_ms = system_now;
    connected_seconds = 0;
    status = bounded status 64;
    method = [];
    url = [];
    referer = [];
  };
  connected_at = steady_now;
}

unfoldable pub add : ℕ → ℕ → Bytes → Bytes → Bytes → ConnectionRegistry → ConnectionRegistry × ℕ
add system_now steady_now protocol source_address status r =
    enlist (new_connection system_now steady_now protocol source_address status) r

unfoldable pub with_request : Bytes → Bytes → Bytes → Bytes → StoredConnection → StoredConnection
with_request method url referer status stored = record stored {
  info = record stored.info {
    method = bounded method 32;
    url = bounded url 8192;
    referer = bounded referer 4096;
    status = bounded status 64;
  };
}

unfoldable pub update_request :
    ℕ → Bytes → Bytes → Bytes → Bytes → ConnectionRegistry → ConnectionRegistry
update_request id method url referer status r = alter id (with_request method url referer status) r

unfoldable pub with_status : Bytes → StoredConnection → StoredConnection
with_status status stored = record stored {
  info = record stored.info { status = bounded status 64 };
}

unfoldable pub update_status : ℕ → Bytes → ConnectionRegistry → ConnectionRegistry
update_status id status r = alter id (with_status status) r

unfoldable pub displayed : ℕ → StoredConnection → ConnectionInfo
displayed now stored = record stored.info {
  connected_seconds = elapsed_seconds now stored.connected_at;
}

unfoldable pub snapshot : ℕ → ℕ → ConnectionRegistry → List ConnectionInfo
snapshot now limit r =
    sort (λ i. i.connected_at_unix_ms) (λ i. i.id)
      (listing (λ stored. true) (displayed now) limit r.rows)

unfoldable pub size : ConnectionRegistry → ℕ
size r = length r.rows

-- A row shows the id that it is stored under and no more text than the source keeps.
pub record ConnectionFit (id : ℕ) (stored : StoredConnection) : Type 0 where
  pub tagged : stored.info.id ≡ id
  pub protocol_fits : length stored.info.protocol ≤ 16
  pub address_fits : length stored.info.source_address ≤ 128
  pub status_fits : length stored.info.status ≤ 64
  pub method_fits : length stored.info.method ≤ 32
  pub url_fits : length stored.info.url ≤ 8192
  pub referer_fits : length stored.info.referer ≤ 4096

-- One call. The id of a new row is below the last value of a `std::uint64_t`.
pub data ConnectionStep : ConnectionRegistry → ConnectionRegistry → Type 0 where
  added :
      {r : ConnectionRegistry}
      → r.next_id + 1 < 2 ^ 64
      → (system_now steady_now : ℕ) (protocol source_address status : Bytes)
      → ConnectionStep r (add system_now steady_now protocol source_address status r).0
  requested :
      {r : ConnectionRegistry} (id : ℕ) (method url referer status : Bytes)
      → ConnectionStep r (update_request id method url referer status r)
  stated :
      {r : ConnectionRegistry} (id : ℕ) (status : Bytes)
      → ConnectionStep r (update_status id status r)
  removed : {r : ConnectionRegistry} (id : ℕ) → ConnectionStep r (remove id r)
  cleared : {r : ConnectionRegistry} → ConnectionStep r (clear r)

new_connection-Fit :
    (system_now steady_now : ℕ) (protocol source_address status : Bytes) (id : ℕ)
    → ConnectionFit id (new_connection system_now steady_now protocol source_address status id)
unfolding new_connection bounded
new_connection-Fit system_now steady_now protocol source_address status id = record {
  tagged = refl;
  protocol_fits = length-take 16 protocol;
  address_fits = length-take 128 source_address;
  status_fits = length-take 64 status;
  method_fits = omega arith;
  url_fits = omega arith;
  referer_fits = omega arith;
}

with_request-Fit :
    (method url referer status : Bytes) (id : ℕ) (stored : StoredConnection)
    → ConnectionFit id stored
    → ConnectionFit id (with_request method url referer status stored)
unfolding with_request bounded
with_request-Fit method url referer status id stored f = record {
  tagged = f.tagged;
  protocol_fits = f.protocol_fits;
  address_fits = f.address_fits;
  status_fits = length-take 64 status;
  method_fits = length-take 32 method;
  url_fits = length-take 8192 url;
  referer_fits = length-take 4096 referer;
}

with_status-Fit :
    (status : Bytes) (id : ℕ) (stored : StoredConnection)
    → ConnectionFit id stored
    → ConnectionFit id (with_status status stored)
unfolding with_status bounded
with_status-Fit status id stored f = record {
  tagged = f.tagged;
  protocol_fits = f.protocol_fits;
  address_fits = f.address_fits;
  status_fits = length-take 64 status;
  method_fits = f.method_fits;
  url_fits = f.url_fits;
  referer_fits = f.referer_fits;
}

-- Every call keeps the connection registry well formed: distinct ids below the next one, each
-- stored under the id that it shows, and every text within the length that the source keeps.
pub ConnectionStep-WellFormed :
    {r q : ConnectionRegistry}
    → ConnectionStep r q
    → WellFormed ConnectionFit r
    → WellFormed ConnectionFit q
unfolding add update_request update_status
ConnectionStep-WellFormed {r} (added word system_now steady_now protocol source_address status) w =
    enlist-WellFormed ConnectionFit
      (new_connection system_now steady_now protocol source_address status) r word
      (new_connection-Fit system_now steady_now protocol source_address status r.next_id) w
ConnectionStep-WellFormed {r} (requested id method url referer status) w =
    alter-WellFormed ConnectionFit id (with_request method url referer status) r
      (with_request-Fit method url referer status id) w
ConnectionStep-WellFormed {r} (stated id status) w =
    alter-WellFormed ConnectionFit id (with_status status) r (with_status-Fit status id) w
ConnectionStep-WellFormed {r} (removed id) w = remove-WellFormed ConnectionFit id r w
ConnectionStep-WellFormed {r} cleared w = clear-WellFormed ConnectionFit r
