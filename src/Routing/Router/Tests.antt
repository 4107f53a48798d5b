-- ===== src/Routing/Router/Tests.antt =====
-- Runs of the router, and its theorems at a concrete configuration.
use model_lib.Base.Bytes.{Bytes, codes, strip, equal, bytes_eq}
use model_lib.Base.Map.{lookup, insert, Entries}
use model_lib.Base.{◌≡◌, ◌⊎◌, ◌↔◌, refl, true, false, List, [], ◌∷◌, ◌++◌, none, some, inr}
use model_lib.Routing.Host.{normalize_domain}
use model_lib.Routing.Router.{
  Router, VirtualHost, VirtualHostConfig, BackendConfig, BackendOverloadConfig, http, router,
  bind_configs, bind_checked, bind_compiled, bind_domains, bind_domain, bind_stripped,
  emplace_exact, emplace_wildcard, and_then, sort_suffixes, place, config_error, backend_error,
  outside, find, find_exact, find_wildcard, under, byte_is,
}
use model_lib.Routing.Router.Choice.{Chosen, find_longest, under_iff}
use model_lib.Policy.UrlAuth.{UrlAuthSpec, specified, check_spec, valid_key}

abbrev no_auth : UrlAuthSpec
no_auth = record {
  enabled = false;
  scope = specified;
  primary_key = [];
  backup_key = [];
  validity_seconds = 1800;
  protected_uris = [];
}

abbrev backend : BackendConfig
backend = record {
  address = codes "127.0.0.1";
  port = 8090;
  protocol = http;
  host = [];
  tls_sni = [];
  tls_verify_certificate = true;
  connect_timeout_seconds = 5;
  response_timeout_seconds = 60;
  keep_alive = true;
}

abbrev overload : BackendOverloadConfig
overload = record {
  site_id = 1;
  site_name = codes "shop";
  maximum_active_connections = 200;
  maximum_queue = 1000;
  queue_timeout_seconds = 5;
}

abbrev site : Bytes → List Bytes → VirtualHostConfig Unit
site name domains = record {
  name = name;
  domains = domains;
  backend = backend;
  policy = tt;
  overload = overload;
  url_auth = no_auth;
}

abbrev served : Bytes → VirtualHost Unit
served name = record {
  name = name;
  backend = backend;
  request_policy = tt;
  overload = overload;
  url_authenticator = no_auth;
}

abbrev sites : List (VirtualHostConfig Unit)
sites =
    site (codes "wide") (codes "*.example.com" ∷ codes "Example.com" ∷ [])
    ∷ site (codes "deep") (codes "*.api.example.com" ∷ [])
    ∷ []

abbrev built : Router Unit
built = record {
  exact_hosts = (codes "example.com", served (codes "wide")) ∷ [];
  wildcard_hosts =
      (codes "api.example.com", served (codes "deep"))
      ∷ (codes "example.com", served (codes "wide"))
      ∷ [];
}

made : router (λ a. true) (λ s ds. some tt) sites ≡ inr built
unfolding router bind_configs bind_checked bind_compiled bind_domains bind_domain bind_stripped
    emplace_exact emplace_wildcard and_then sort_suffixes place config_error backend_error outside
    normalize_domain check_spec valid_key strip lookup insert equal
made = refl

chosen : find (codes "v1.api.example.com") built ≡ some (served (codes "deep"))
unfolding find find_exact find_wildcard under byte_is lookup equal
chosen = refl

find_longest_example :
    ((v : VirtualHost Unit) × (lookup (codes "v1.api.example.com") built.exact_hosts ≡ some v)
      × (find (codes "v1.api.example.com") built ≡ some v))
    ⊎ ((lookup (codes "v1.api.example.com") built.exact_hosts ≡ none)
        × (((find (codes "v1.api.example.com") built ≡ none)
              × Entries (λ j w. under j (codes "v1.api.example.com") ≡ false) built.wildcard_hosts)
            ⊎ ((v : VirtualHost Unit) × (find (codes "v1.api.example.com") built ≡ some v)
                × Chosen (codes "v1.api.example.com") built.wildcard_hosts v)))
find_longest_example =
    find_longest (λ a. true) (λ s ds. some tt) sites built (codes "v1.api.example.com") made

under_iff_example :
    (under (codes "example.com") (codes "a.example.com") ≡ true)
    ↔ ((front : Bytes) × (codes "a.example.com" ≡ front ++ b'.' ∷ codes "example.com"))
under_iff_example = under_iff (codes "example.com") (codes "a.example.com")
