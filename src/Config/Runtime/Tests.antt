-- ===== src/Config/Runtime/Tests.antt =====
-- A configuration with one site, and its theorem.
use model_lib.Base.Bytes.{codes, strip, equal}
use model_lib.Base.Map.{lookup, insert}
use model_lib.Base.{◌≡◌, refl, true, false, [], ◌∷◌, none, some}
use model_lib.Routing.Host.{normalize_domain}
use model_lib.Routing.Router
use model_lib.Routing.Router.{
  Router, VirtualHost, VirtualHostConfig, BackendConfig, BackendOverloadConfig, router,
  bind_configs, bind_checked, bind_compiled, bind_domains, bind_domain, bind_stripped,
  emplace_exact, emplace_wildcard, and_then, sort_suffixes, place, config_error, backend_error,
  outside,
}
use model_lib.Policy.UrlAuth.{UrlAuthSpec, specified, check_spec, valid_key}
use model_lib.Network.ClientIp.{Boost, resolver}
use model_lib.Config.Runtime.{
  RuntimeSiteConfig, RuntimeSettings, RuntimeConfigSpec, RuntimeConfig, valid_timeout,
  settings_valid, place_port, sorted_ports, site_counts, hosts_at, add_route, route_site, shares,
  port_of, site_routes, emplace_router, build_routers, site_covered, Tls, covered_contexts,
  make_contexts, ensure, runtime_config,
}
use model_lib.Config.Runtime.Serving.{Serves, runtime_config-Serves}

abbrev no_auth : UrlAuthSpec
no_auth = record {
  enabled = false;
  scope = specified;
  primary_key = [];
  backup_key = [];
  validity_seconds = 1800;
  protected_uris = [];
}

abbrev upstream : BackendConfig
upstream = record {
  address = codes "127.0.0.1";
  port = 8090;
  protocol = Router.http;
  host = [];
  tls_sni = [];
  tls_verify_certificate = true;
  connect_timeout_seconds = 5;
  response_timeout_seconds = 60;
  keep_alive = true;
}

abbrev overload : BackendOverloadConfig
overload = record {
  site_id = 1;
  site_name = codes "shop";
  maximum_active_connections = 200;
  maximum_queue = 1000;
  queue_timeout_seconds = 5;
}

abbrev shop : VirtualHostConfig Unit
shop = record {
  name = codes "shop";
  domains = codes "shop.example" ∷ [];
  backend = upstream;
  policy = tt;
  overload = overload;
  url_auth = no_auth;
}

abbrev shop_host : VirtualHost Unit
shop_host = record {
  name = codes "shop";
  backend = upstream;
  request_policy = tt;
  overload = overload;
  url_authenticator = no_auth;
}

abbrev settings : RuntimeSettings
settings = record {
  trusted_proxy_cidrs = [];
  real_ip_headers = codes "X-Forwarded-For" ∷ [];
  max_upload_bytes = 67108864;
  backend_keep_alive = true;
  backend_pool_size = 32;
  client_header_timeout_seconds = 15;
  client_body_timeout_seconds = 120;
  client_write_timeout_seconds = 60;
  backend_connect_timeout_seconds = 5;
  backend_response_timeout_seconds = 60;
  backend_idle_timeout_seconds = 60;
  backend_idle_connection_ttl_seconds = 60;
}

-- Port 80 in the clear, and the same site on port 443.
abbrev shop_site : RuntimeSiteConfig Unit
shop_site = record {
  virtual_host = shop;
  http_enabled = true;
  http_port = 80;
  https_enabled = true;
  https_port = 443;
}

abbrev spec : RuntimeConfigSpec Unit Unit
spec = record {
  revision = 1;
  sites = shop_site ∷ [];
  tls_certificates = tt ∷ [];
  reject_unknown_sni = true;
  settings = settings;
}

abbrev no_addresses : Boost
no_addresses = record { make_address = λ s. none; to_string = λ a. []; iequals = equal }

abbrev one_certificate : Tls Unit Unit
one_certificate = record { make = λ cs strict. some tt; can_serve_domain = λ t d. true }

abbrev shop_router : Router Unit
shop_router = record { exact_hosts = (codes "shop.example", shop_host) ∷ []; wildcard_hosts = [] }

abbrev config : RuntimeConfig Unit Unit
config = record {
  revision = 1;
  http_ports = 80 ∷ [];
  https_ports = 443 ∷ [];
  http_routers = (80, shop_router) ∷ [];
  https_routers = (443, shop_router) ∷ [];
  http_site_counts = (80, 1) ∷ [];
  https_site_counts = (443, 1) ∷ [];
  tls_contexts = some tt;
  settings = settings;
  trusted_ranges = [];
}

made : runtime_config (λ a. true) (λ s ds. some tt) no_addresses one_certificate spec ≡ some config
unfolding runtime_config resolver ensure settings_valid valid_timeout site_routes port_of route_site
    add_route hosts_at shares build_routers emplace_router sorted_ports place_port site_counts
    make_contexts covered_contexts site_covered router bind_configs bind_checked bind_compiled
    bind_domains bind_domain bind_stripped emplace_exact emplace_wildcard and_then sort_suffixes
    place config_error backend_error outside normalize_domain strip equal lookup insert check_spec
    valid_key
made = refl

runtime_config-Serves_example : Serves (λ a. true) (λ s ds. some tt) spec.sites config 80
runtime_config-Serves_example =
    runtime_config-Serves (λ a. true) (λ s ds. some tt) no_addresses one_certificate spec config 80
      made
