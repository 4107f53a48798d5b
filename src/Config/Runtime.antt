-- ===== src/Config/Runtime.antt =====
-- src/config/RuntimeConfig.{hpp,cpp}. The TLS contexts, the compilation of policies and the check of
-- addresses are parameters.
pub mod Collecting
pub mod Serving
mod Tests
use model_lib.Base.Bytes.{Bytes}
use model_lib.Base.Map.{Map, lookup, insert}
use model_lib.Base.{
  ℕ, ◌*◌, Bool, true, false, not, ◌&&◌, ◌||◌, List, [], ◌∷◌, ◌++◌, Option, none, some, ltb, leb,
  ◌==◌, if◌then◌else◌, ◌>>=◌, length, is_some, ◌⊎◌, inl, inr, all, nat_eq,
}
use model_lib.Policy.Cidr.{Range}
use model_lib.Network.ClientIp.{Boost, resolver}
use model_lib.Routing.Router.{VirtualHostConfig, Router, RouterError, router}

pub data ListenerProtocol : Type 0 where
  http https : ListenerProtocol

pub record RuntimeSiteConfig (S : Type 0) : Type 0 where
  pub virtual_host : VirtualHostConfig S
  pub http_enabled : Bool
  pub http_port : ℕ
  pub https_enabled : Bool
  pub https_port : ℕ

pub record RuntimeSettings : Type 0 where
  pub trusted_proxy_cidrs : List Bytes
  pub real_ip_headers : List Bytes
  pub max_upload_bytes : ℕ
  pub backend_keep_alive : Bool
  pub backend_pool_size : ℕ
  pub client_header_timeout_seconds : ℕ
  pub client_body_timeout_seconds : ℕ
  pub client_write_timeout_seconds : ℕ
  pub backend_connect_timeout_seconds : ℕ
  pub backend_response_timeout_seconds : ℕ
  pub backend_idle_timeout_seconds : ℕ
  pub backend_idle_connection_ttl_seconds : ℕ

-- `C` are the configurations of certificates.
pub record RuntimeConfigSpec (S C : Type 0) : Type 0 where
  pub revision : ℕ
  pub sites : List (RuntimeSiteConfig S)
  pub tls_certificates : List C
  pub reject_unknown_sni : Bool
  pub settings : RuntimeSettings

pub record RuntimeConfig (P T : Type 0) : Type 0 where
  pub revision : ℕ
  pub http_ports : List ℕ
  pub https_ports : List ℕ
  pub http_routers : Map ℕ (Router P)
  pub https_routers : Map ℕ (Router P)
  pub http_site_counts : Map ℕ ℕ
  pub https_site_counts : Map ℕ ℕ
  pub tls_contexts : Option T
  pub settings : RuntimeSettings
  pub trusted_ranges : List Range

unfoldable pub valid_timeout : ℕ → Bool
valid_timeout value = leb 1 value && leb value 86400

-- The checks of the constructor on the revision and the settings.
unfoldable pub settings_valid : ℕ → RuntimeSettings → Bool
settings_valid revision settings =
    not (revision == 0)
    && not
        (settings.max_upload_bytes == 0 || ltb (16 * 1024 * 1024 * 1024) settings.max_upload_bytes)
    && not (ltb 1024 settings.backend_pool_size)
    && valid_timeout settings.client_header_timeout_seconds
    && valid_timeout settings.client_body_timeout_seconds
    && valid_timeout settings.client_write_timeout_seconds
    && valid_timeout settings.backend_connect_timeout_seconds
    && valid_timeout settings.backend_response_timeout_seconds
    && valid_timeout settings.backend_idle_timeout_seconds
    && valid_timeout settings.backend_idle_connection_ttl_seconds

unfoldable pub place_port : ℕ → List ℕ → List ℕ
place_port p [] = p ∷ []
place_port p (q ∷ qs) = if leb p q then p ∷ q ∷ qs else q ∷ place_port p qs

module _ {V : Type 0} where
  unfoldable pub sorted_ports : Map ℕ V → List ℕ
  sorted_ports [] = []
  sorted_ports ((port, v) ∷ m) = place_port port (sorted_ports m)

  unfoldable pub site_counts : Map ℕ (List V) → Map ℕ ℕ
  site_counts [] = []
  site_counts ((port, hosts) ∷ m) = (port, length hosts) ∷ site_counts m

  unfoldable pub hosts_at : Option (List V) → List V
  hosts_at none = []
  hosts_at (some hosts) = hosts

  -- `routes[port].push_back(host)`.
  unfoldable pub add_route : ℕ → V → Map ℕ (List V) → Map ℕ (List V)
  add_route port host routes = insert port (hosts_at (lookup port routes) ++ host ∷ []) routes

  unfoldable pub route_site : Option ℕ → V → Map ℕ (List V) → Map ℕ (List V)
  route_site none host routes = routes
  route_site (some port) host routes = add_route port host routes

  -- A port that both protocols listen on.
  unfoldable pub shares : Map ℕ (List V) → Map ℕ (List V) → Bool
  shares [] https_routes = false
  shares ((port, hosts) ∷ m) https_routes =
      (not (port == 0) && is_some (lookup port https_routes)) || shares m https_routes

-- The port of a site under a protocol, `none` when that is not enabled.
unfoldable pub port_of : {S : Type 0} → ListenerProtocol → RuntimeSiteConfig S → Option ℕ
port_of http site = if site.http_enabled then some site.http_port else none
port_of https site = if site.https_enabled then some site.https_port else none

abbrev pub Routes : Type 0 → Type 0
Routes S = Map ℕ (List (VirtualHostConfig S))

-- The loop over the sites.
unfoldable pub site_routes :
    {S : Type 0} → List (RuntimeSiteConfig S) → Routes S → Routes S → Option (Routes S × Routes S)
site_routes [] http_routes https_routes = some (http_routes, https_routes)
site_routes (site ∷ sites) http_routes https_routes =
    let rest =
      site_routes sites (route_site (port_of http site) site.virtual_host http_routes)
        (route_site (port_of https site) site.virtual_host https_routes) in
    if not site.http_enabled && not site.https_enabled then none else rest

unfoldable pub emplace_router :
    {P : Type 0}
    → ℕ
    → RouterError ⊎ Router P
    → Option (Map ℕ (Router P))
    → Option (Map ℕ (Router P))
emplace_router port (inl e) rest = none
emplace_router port (inr r) none = none
emplace_router port (inr r) (some m) = some ((port, r) ∷ m)

module _ {S P : Type 0} (valid_address : Bytes → Bool) (compile : S → List Bytes → Option P) where
  unfoldable pub build_routers : Routes S → Option (Map ℕ (Router P))
  build_routers [] = some []
  build_routers ((port, hosts) ∷ m) =
      emplace_router port (router valid_address compile hosts) (build_routers m)

-- The certificates' part: whether each domain of each HTTPS site is covered.
unfoldable pub site_covered : {S : Type 0} → (Bytes → Bool) → RuntimeSiteConfig S → Bool
site_covered can_serve_domain site =
    not site.https_enabled || all can_serve_domain site.virtual_host.domains

-- `TlsContextManager`: its constructor, and `can_serve_domain`.
pub record Tls (C T : Type 0) : Type 0 where
  pub make : List C → Bool → Option T
  pub can_serve_domain : T → Bytes → Bool

unfoldable pub covered_contexts :
    {S C T : Type 0} → Tls C T → List (RuntimeSiteConfig S) → Option T → Option (Option T)
covered_contexts tls sites none = none
covered_contexts tls sites (some t) =
    if all (site_covered (tls.can_serve_domain t)) sites then some (some t) else none

unfoldable pub make_contexts :
    {S C T : Type 0} → Tls C T → RuntimeConfigSpec S C → List ℕ → Option (Option T)
make_contexts tls spec [] = some none
make_contexts tls spec (port ∷ ports) =
    covered_contexts tls spec.sites (tls.make spec.tls_certificates spec.reject_unknown_sni)

-- `std::optional` of nothing, `none` when the test fails, which is an exception.
unfoldable pub ensure : Bool → Option (Unit {0})
ensure test = if test then some tt else none

-- The constructor.
unfoldable pub runtime_config :
    {S P C T : Type 0}
    → (Bytes → Bool)
    → (S → List Bytes → Option P)
    → Boost
    → Tls C T
    → RuntimeConfigSpec S C
    → Option (RuntimeConfig P T)
runtime_config valid_address compile boost tls spec = do
  ranges ← resolver boost spec.settings.trusted_proxy_cidrs
  valid ← ensure (settings_valid spec.revision spec.settings)
  routes ← site_routes spec.sites [] []
  apart ← ensure (not (shares routes.0 routes.1))
  http_routers ← build_routers valid_address compile routes.0
  https_routers ← build_routers valid_address compile routes.1
  contexts ← make_contexts tls spec (sorted_ports routes.1)
  some (record {
    revision = spec.revision;
    http_ports = sorted_ports routes.0;
    https_ports = sorted_ports routes.1;
    http_routers = http_routers;
    https_routers = https_routers;
    http_site_counts = site_counts routes.0;
    https_site_counts = site_counts routes.1;
    tls_contexts = contexts;
    settings = spec.settings;
    trusted_ranges = ranges;
  })

unfoldable pub counted : Option ℕ → ℕ
counted none = 0
counted (some n) = n

module _ {P T : Type 0} where
  unfoldable pub counts_of : ListenerProtocol → RuntimeConfig P T → Map ℕ ℕ
  counts_of http c = c.http_site_counts
  counts_of https c = c.https_site_counts

  unfoldable pub site_count : ListenerProtocol → ℕ → RuntimeConfig P T → ℕ
  site_count protocol port c = counted (lookup port (counts_of protocol c))

  unfoldable pub routers_of : ListenerProtocol → RuntimeConfig P T → Map ℕ (Router P)
  routers_of http c = c.http_routers
  routers_of https c = c.https_routers

  unfoldable pub router_at : ListenerProtocol → ℕ → RuntimeConfig P T → Option (Router P)
  router_at protocol port c = lookup port (routers_of protocol c)

-- `RuntimeConfigStore::publish`: a null pointer changes nothing.
unfoldable pub publish : {A : Type 0} → Option A → A → A
publish none current = current
publish (some next) current = next
