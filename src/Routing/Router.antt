-- ===== src/Routing/Router.antt =====
-- src/routing/VirtualHostRouter.{hpp,cpp}: the virtual hosts, and the one that serves a host name.
-- The policies of src/policy/RequestPolicy.cpp are compiled by a parameter, as the router does not
-- look into them; `make_address` of Boost is another one, of which only its success is used.
pub mod Order
pub mod Choice
mod Tests
use model_lib.Base.Bytes.{Bytes, codes, strip, starts_with, contains, is_empty, equal, bytes_eq}
use model_lib.Base.Map.{Map, lookup, insert}
use model_lib.Base.{
  ℕ, zero, suc, ◌-◌, Bool, true, false, not, ◌&&◌, ◌||◌, List, [], ◌∷◌, ◌++◌, Option, none, some,
  ◌⊎◌, inl, inr, ltb, leb, ◌==◌, if◌then◌else◌, length, drop, is_some,
}
use model_lib.Routing.Host.{normalize_domain, normalize_authority}
use model_lib.Policy.UrlAuth.{UrlAuthSpec, check_spec}

pub data BackendProtocol : Type 0 where
  http https : BackendProtocol

pub record BackendConfig : Type 0 where
  pub address : Bytes
  pub port : ℕ
  pub protocol : BackendProtocol
  pub host : Bytes
  pub tls_sni : Bytes
  pub tls_verify_certificate : Bool
  pub connect_timeout_seconds : ℕ
  pub response_timeout_seconds : ℕ
  pub keep_alive : Bool

pub record BackendOverloadConfig : Type 0 where
  pub site_id : ℕ
  pub site_name : Bytes
  pub maximum_active_connections : ℕ
  pub maximum_queue : ℕ
  pub queue_timeout_seconds : ℕ

-- The type of a site's policy is that of the parameter.
pub record VirtualHostConfig (S : Type 0) : Type 0 where
  pub name : Bytes
  pub domains : List Bytes
  pub backend : BackendConfig
  pub policy : S
  pub overload : BackendOverloadConfig
  pub url_auth : UrlAuthSpec

pub record VirtualHost (P : Type 0) : Type 0 where
  pub name : Bytes
  pub backend : BackendConfig
  pub request_policy : P
  pub overload : BackendOverloadConfig
  pub url_authenticator : UrlAuthSpec

-- What the constructor throws, by the condition.
pub data RouterError : Type 0 where
  empty_name no_domain zero_port bad_timeouts bad_active bad_queue bad_queue_timeout bad_address
        bad_host bad_sni sni_without_tls bad_policy bad_url_auth :
      RouterError
  bad_domain broad_wildcard duplicate_domain : Bytes → RouterError

-- `exact_hosts_`, and `wildcard_hosts_`, whose suffixes are `wildcard_suffixes`.
pub record Router (P : Type 0) : Type 0 where
  pub exact_hosts : Map Bytes (VirtualHost P)
  pub wildcard_hosts : Map Bytes (VirtualHost P)

unfoldable pub outside : ℕ → ℕ → ℕ → Bool
outside low high n = ltb n low || ltb high n

-- `valid_address` stands for the success of `make_address`.
unfoldable pub backend_error : (Bytes → Bool) → BackendConfig → Option RouterError
backend_error valid_address b =
    if not (valid_address b.address) && not (is_some (normalize_domain b.address))
    then some bad_address
    else (if not (is_empty b.host) && not (is_some (normalize_authority b.host))
        then some bad_host
        else (if not (is_empty b.tls_sni) && not (is_some (normalize_domain b.tls_sni))
            then some bad_sni
            else (if is_http b.protocol && not (is_empty b.tls_sni)
                then some sni_without_tls
                else none)))
  where
    is_http : BackendProtocol → Bool
    is_http http = true
    is_http https = false

unfoldable pub config_error :
    {S : Type 0} → (Bytes → Bool) → VirtualHostConfig S → Option RouterError
config_error valid_address c =
    if is_empty c.name
    then some empty_name
    else (if length c.domains == 0
        then some no_domain
        else (if c.backend.port == 0
            then some zero_port
            else (if outside 1 86400 c.backend.connect_timeout_seconds
                  || outside 1 86400 c.backend.response_timeout_seconds
                then some bad_timeouts
                else (if outside 1 100000 c.overload.maximum_active_connections
                    then some bad_active
                    else (if ltb 1000000 c.overload.maximum_queue
                        then some bad_queue
                        else (if outside 1 86400 c.overload.queue_timeout_seconds
                            then some bad_queue_timeout
                            else backend_error valid_address c.backend))))))

module _ {P : Type 0} where
  unfoldable pub emplace_exact :
      Bytes → Option Bytes → VirtualHost P → Router P → RouterError ⊎ Router P
  emplace_exact pattern none host r = inl (bad_domain pattern)
  emplace_exact pattern (some domain) host r =
      if is_some (lookup domain r.exact_hosts)
      then inl (duplicate_domain pattern)
      else inr (record r { exact_hosts = insert domain host r.exact_hosts })

  unfoldable pub emplace_wildcard :
      Bytes → Option Bytes → VirtualHost P → Router P → RouterError ⊎ Router P
  emplace_wildcard pattern none host r = inl (bad_domain pattern)
  emplace_wildcard pattern (some domain) host r =
      if not (contains b'.' domain)
      then inl (broad_wildcard pattern)
      else (if is_some (lookup domain r.wildcard_hosts)
          then inl (duplicate_domain pattern)
          else inr (record r { wildcard_hosts = r.wildcard_hosts ++ (domain, host) ∷ [] }))

  unfoldable pub bind_stripped :
      Bytes → Option Bytes → VirtualHost P → Router P → RouterError ⊎ Router P
  bind_stripped pattern none host r = emplace_exact pattern (normalize_domain pattern) host r
  bind_stripped pattern (some suffix) host r =
      emplace_wildcard pattern (normalize_domain suffix) host r

  unfoldable pub bind_domain : Bytes → VirtualHost P → Router P → RouterError ⊎ Router P
  bind_domain pattern host r = bind_stripped pattern (strip (codes "*.") pattern) host r

  unfoldable pub and_then :
      RouterError ⊎ Router P → (Router P → RouterError ⊎ Router P) → RouterError ⊎ Router P
  and_then (inl e) f = inl e
  and_then (inr r) f = f r

  unfoldable pub bind_domains : List Bytes → VirtualHost P → Router P → RouterError ⊎ Router P
  bind_domains [] host r = inr r
  bind_domains (d ∷ ds) host r = and_then (bind_domain d host r) (bind_domains ds host)

  -- `std::sort` by the length of the suffix, the longest first, as insertion.
  unfoldable pub place :
      Bytes → VirtualHost P → Map Bytes (VirtualHost P) → Map Bytes (VirtualHost P)
  place k v [] = (k, v) ∷ []
  place k v ((j, w) ∷ m) =
      if ltb (length j) (length k) then (k, v) ∷ (j, w) ∷ m else (j, w) ∷ place k v m

  unfoldable pub sort_suffixes : Map Bytes (VirtualHost P) → Map Bytes (VirtualHost P)
  sort_suffixes [] = []
  sort_suffixes ((k, v) ∷ m) = place k v (sort_suffixes m)

module _ {S P : Type 0} where
  -- A configuration without error: the policy, the authenticator, and then the domains.
  unfoldable pub bind_compiled :
      VirtualHostConfig S → Option P → Bool → Router P → RouterError ⊎ Router P
  bind_compiled c none auth_fails r = inl bad_policy
  bind_compiled c (some policy) true r = inl bad_url_auth
  bind_compiled c (some policy) false r =
      bind_domains c.domains
        (record {
          name = c.name;
          backend = c.backend;
          request_policy = policy;
          overload = c.overload;
          url_authenticator = c.url_auth;
        })
        r

  unfoldable pub bind_checked :
      Option RouterError → VirtualHostConfig S → Option P → Router P → RouterError ⊎ Router P
  bind_checked (some e) c policy r = inl e
  bind_checked none c policy r = bind_compiled c policy (is_some (check_spec c.url_auth)) r

  module _ (valid_address : Bytes → Bool) (compile : S → List Bytes → Option P) where
    unfoldable pub bind_configs : List (VirtualHostConfig S) → Router P → RouterError ⊎ Router P
    bind_configs [] r = inr (record r { wildcard_hosts = sort_suffixes r.wildcard_hosts })
    bind_configs (c ∷ cs) r =
        and_then (bind_checked (config_error valid_address c) c (compile c.policy c.domains) r)
          (bind_configs cs)

    -- The constructor.
    unfoldable pub router : List (VirtualHostConfig S) → RouterError ⊎ Router P
    router configs = bind_configs configs (record { exact_hosts = []; wildcard_hosts = [] })

unfoldable pub byte_is : ℕ → Bytes → Bool
byte_is c [] = false
byte_is c (d ∷ s) = d == c

-- Whether the host ends in the suffix, behind a dot.
unfoldable pub under : Bytes → Bytes → Bool
under suffix host =
    ltb (length suffix) (length host)
    && equal (drop (length host - length suffix) host) suffix
    && byte_is b'.' (drop (length host - length suffix - 1) host)

module _ {P : Type 0} where
  unfoldable pub find_wildcard : Bytes → Map Bytes (VirtualHost P) → Option (VirtualHost P)
  find_wildcard host [] = none
  find_wildcard host ((suffix, v) ∷ m) = if under suffix host then some v else find_wildcard host m

  unfoldable pub find_exact : Option (VirtualHost P) → Bytes → Router P → Option (VirtualHost P)
  find_exact (some v) host r = some v
  find_exact none host r = find_wildcard host r.wildcard_hosts

  unfoldable pub find : Bytes → Router P → Option (VirtualHost P)
  find host r = find_exact (lookup host r.exact_hosts) host r
