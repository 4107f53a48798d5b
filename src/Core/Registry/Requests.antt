-- ===== src/Core/Registry/Requests.antt =====
-- src/core/ConnectionRegistry.cpp: `HttpRequestRegistry`, the requests being served. A site's id is
-- a `std::int64_t` by its 64-bit pattern.
use model_lib.Base.Bytes.{Bytes}
use model_lib.Base.{
  ℕ, ◌+◌, ◌≡◌, ◌≤◌, ◌<◌, ◌^◌, refl, Bool, true, List, [], Option, some, none, arith, length,
  length-take, ◌==◌, nat_eq,
}
use model_lib.Core.Registry.{Registry, bounded, elapsed_seconds, enlist, alter, remove, clear}
use model_lib.Core.Registry.Order.{sort}
use model_lib.Core.Registry.Listing.{listing, count_rows}
use model_lib.Core.Registry.Keys.{
  WellFormed, enlist-WellFormed, alter-WellFormed, remove-WellFormed, clear-WellFormed,
}

pub record HttpRequestInfo : Type 0 where
  pub id : ℕ
  pub site_id : ℕ
  pub site_name : Bytes
  pub host : Bytes
  pub protocol : Bytes
  pub client_ip : Bytes
  pub connected_at_unix_ms : ℕ
  pub connected_seconds : ℕ
  pub status : Bytes
  pub method : Bytes
  pub url : Bytes
  pub referer : Bytes

pub record StoredRequest : Type 0 where
  pub info : HttpRequestInfo
  pub connected_at : ℕ

abbrev pub HttpRequestRegistry : Type 0
HttpRequestRegistry = Registry StoredRequest

-- The arguments of `add`.
pub record Arrival : Type 0 where
  pub protocol : Bytes
  pub client_ip : Bytes
  pub method : Bytes
  pub url : Bytes
  pub referer : Bytes
  pub host : Bytes
  pub status : Bytes

unfoldable pub new_request : ℕ → ℕ → Arrival → ℕ → StoredRequest
new_request system_now steady_now a id = record {
  info = record {
    id = id;
    site_id = 0;
    site_name = [];
    host = bounded a.host 512;
    protocol = bounded a.protocol 16;
    client_ip = bounded a.client_ip 128;
    connected_at_unix_ms = system_now;
    connected_seconds = 0;
    status = bounded a.status 64;
    method = bounded a.method 32;
    url = bounded a.url 8192;
    referer = bounded a.referer 4096;
  };
  connected_at = steady_now;
}

unfoldable pub add : ℕ → ℕ → Arrival → HttpRequestRegistry → HttpRequestRegistry × ℕ
add system_now steady_now a r = enlist (new_request system_now steady_now a) r

unfoldable pub with_site : ℕ → Bytes → Bytes → Bytes → StoredRequest → StoredRequest
with_site site_id site_name host status stored = record stored {
  info = record stored.info {
    site_id = site_id;
    site_name = bounded site_name 256;
    host = bounded host 512;
    status = bounded status 64;
  };
}

unfoldable pub update_site :
    ℕ → ℕ → Bytes → Bytes → Bytes → HttpRequestRegistry → HttpRequestRegistry
update_site id site_id site_name host status r =
    alter id (with_site site_id site_name host status) r

unfoldable pub with_status : Bytes → StoredRequest → StoredRequest
with_status status stored = record stored {
  info = record stored.info { status = bounded status 64 };
}

unfoldable pub update_status : ℕ → Bytes → HttpRequestRegistry → HttpRequestRegistry
update_status id status r = alter id (with_status status) r

-- Whether a row passes the filter on the site.
unfoldable pub of_site : Option ℕ → StoredRequest → Bool
of_site none stored = true
of_site (some site_id) stored = stored.info.site_id == site_id

unfoldable pub displayed : ℕ → StoredRequest → HttpRequestInfo
displayed now stored = record stored.info {
  connected_seconds = elapsed_seconds now stored.connected_at;
}

unfoldable pub snapshot : ℕ → Option ℕ → ℕ → HttpRequestRegistry → List HttpRequestInfo
snapshot now site_id limit r =
    sort (λ i. i.connected_at_unix_ms) (λ i. i.id)
      (listing (of_site site_id) (displayed now) limit r.rows)

unfoldable pub size : Option ℕ → HttpRequestRegistry → ℕ
size none r = length r.rows
size (some site_id) r = count_rows (of_site (some site_id)) (displayed 0) r.rows

-- A row shows the id that it is stored under and no more text than the source keeps.
pub record RequestFit (id : ℕ) (stored : StoredRequest) : Type 0 where
  pub tagged : stored.info.id ≡ id
  pub site_name_fits : length stored.info.site_name ≤ 256
  pub host_fits : length stored.info.host ≤ 512
  pub protocol_fits : length stored.info.protocol ≤ 16
  pub client_ip_fits : length stored.info.client_ip ≤ 128
  pub status_fits : length stored.info.status ≤ 64
  pub method_fits : length stored.info.method ≤ 32
  pub url_fits : length stored.info.url ≤ 8192
  pub referer_fits : length stored.info.referer ≤ 4096

-- One call. The id of a new row is below the last value of a `std::uint64_t`.
pub data RequestStep : HttpRequestRegistry → HttpRequestRegistry → Type 0 where
  added :
      {r : HttpRequestRegistry}
      → r.next_id + 1 < 2 ^ 64
      → (system_now steady_now : ℕ) (a : Arrival) → RequestStep r (add system_now steady_now a r).0
  sited :
      {r : HttpRequestRegistry} (id site_id : ℕ) (site_name host status : Bytes)
      → RequestStep r (update_site id site_id site_name host status r)
  stated :
      {r : HttpRequestRegistry} (id : ℕ) (status : Bytes)
      → RequestStep r (update_status id status r)
  removed : {r : HttpRequestRegistry} (id : ℕ) → RequestStep r (remove id r)
  cleared : {r : HttpRequestRegistry} → RequestStep r (clear r)

new_request-Fit :
    (system_now steady_now : ℕ) (a : Arrival) (id : ℕ)
    → RequestFit id (new_request system_now steady_now a id)
unfolding new_request bounded
new_request-Fit system_now steady_now a id = record {
  tagged = refl;
  site_name_fits = omega arith;
  host_fits = length-take 512 a.host;
  protocol_fits = length-take 16 a.protocol;
  client_ip_fits = length-take 128 a.client_ip;
  status_fits = length-take 64 a.status;
  method_fits = length-take 32 a.method;
  url_fits = length-take 8192 a.url;
  referer_fits = length-take 4096 a.referer;
}

with_site-Fit :
    (site_id : ℕ) (site_name host status : Bytes) (id : ℕ) (stored : StoredRequest)
    → RequestFit id stored
    → RequestFit id (with_site site_id site_name host status stored)
unfolding with_site bounded
with_site-Fit site_id site_name host status id stored f = record {
  tagged = f.tagged;
  site_name_fits = length-take 256 site_name;
  host_fits = length-take 512 host;
  protocol_fits = f.protocol_fits;
  client_ip_fits = f.client_ip_fits;
  status_fits = length-take 64 status;
  method_fits = f.method_fits;
  url_fits = f.url_fits;
  referer_fits = f.referer_fits;
}

with_status-Fit :
    (status : Bytes) (id : ℕ) (stored : StoredRequest)
    → RequestFit id stored
    → RequestFit id (with_status status stored)
unfolding with_status bounded
with_status-Fit status id stored f = record {
  tagged = f.tagged;
  site_name_fits = f.site_name_fits;
  host_fits = f.host_fits;
  protocol_fits = f.protocol_fits;
  client_ip_fits = f.client_ip_fits;
  status_fits = length-take 64 status;
  method_fits = f.method_fits;
  url_fits = f.url_fits;
  referer_fits = f.referer_fits;
}

-- Every call keeps the request registry well formed: distinct ids below the next one, each stored
-- under the id that it shows, and every text within the length that the source keeps.
pub RequestStep-WellFormed :
    {r q : HttpRequestRegistry}
    → RequestStep r q
    → WellFormed RequestFit r
    → WellFormed RequestFit q
unfolding add update_site update_status
RequestStep-WellFormed {r} (added word system_now steady_now a) w =
    enlist-WellFormed RequestFit (new_request system_now steady_now a) r word
      (new_request-Fit system_now steady_now a r.next_id) w
RequestStep-WellFormed {r} (sited id site_id site_name host status) w =
    alter-WellFormed RequestFit id (with_site site_id site_name host status) r
      (with_site-Fit site_id site_name host status id) w
RequestStep-WellFormed {r} (stated id status) w =
    alter-WellFormed RequestFit id (with_status status) r (with_status-Fit status id) w
RequestStep-WellFormed {r} (removed id) w = remove-WellFormed RequestFit id r w
RequestStep-WellFormed {r} cleared w = clear-WellFormed RequestFit r
