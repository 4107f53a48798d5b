-- ===== src/Config/Runtime/Serving.antt =====
-- src/config/RuntimeConfig.cpp: what a configuration serves on each port.
use model_lib.Base.Bytes.{Bytes}
use model_lib.Base.Map.{Map, lookup}
use model_lib.Base.{
  ℕ, ◌≡◌, ◌⊎◌, refl, sym, ap, subst, ◌∙◌, inl, inr, Bool, true, false, not, ◌&&◌, List, [], ◌∷◌,
  Option, none, some, arith, ◌==◌, >>=_some, length, is_some, nat_eq, Bool-cases, Option-cases,
  length,
}
use model_lib.Network.ClientIp.{Boost, resolver}
use model_lib.Routing.Router.{VirtualHostConfig, Router, RouterError, router}
use model_lib.Config.Runtime.{
  http, https, RuntimeSiteConfig, RuntimeConfigSpec, RuntimeConfig, settings_valid, sorted_ports,
  site_counts, hosts_at, shares, Routes, site_routes, emplace_router, build_routers, Tls,
  make_contexts, ensure, runtime_config, counted, counts_of, site_count, routers_of, router_at,
}
use model_lib.Config.Runtime.Collecting.{filled, hosts_filled, hosts_on, site_routes-Collected}

lookup-site_counts :
    {V : Type 0} (port : ℕ) (routes : Map ℕ (List V))
    → counted (lookup port (site_counts routes)) ≡ length (hosts_at (lookup port routes))
unfolding site_counts lookup counted hosts_at
lookup-site_counts port [] = refl
lookup-site_counts port ((p, hosts) ∷ m) = elim (Bool-cases (p == port)) [
  | inl e ↦ rw e refl
  | inr e ↦ rw e (lookup-site_counts port m)
]

-- A port of both protocols is zero.
shares_apart :
    {V : Type 0} (port : ℕ) (xs : List V) (routes https_routes : Map ℕ (List V))
    → shares routes https_routes ≡ false
    → lookup port routes ≡ some xs
    → (port ≡ 0) ⊎ (lookup port https_routes ≡ none)
unfolding shares lookup
shares_apart port xs [] https_routes apart found = absurd (cc found)
shares_apart port xs ((p, hosts) ∷ m) https_routes apart found = elim (Bool-cases (p == port)) [
  | inr e ↦ shares_apart port xs m https_routes (ground (arith, apart)) (rw e at found)
  | inl e ↦
      let same : p ≡ port = ground (arith, e) in
      elim (Bool-cases (port == 0)) [
        | inl z ↦ inl (ground (arith, z))
        | inr z ↦ inr (
            missing
              (subst (λ q. (not (q == 0) && is_some (lookup q https_routes)) ≡ false) same
                (ground (arith, apart)))
              z)
      ]
]
  where
    missing :
        (not (port == 0) && is_some (lookup port https_routes)) ≡ false
        → (port == 0) ≡ false
        → lookup port https_routes ≡ none
    missing h z = elim (Option-cases (lookup port https_routes)) [
      | inl gone ↦ gone
      | inr (ys, there) ↦ absurd (ground (arith, h, z, there))
    ]

no_hosts : {V : Type 0} (xs : List V) → none ≡ filled xs → xs ≡ []
no_hosts [] h = refl
no_hosts (x ∷ xs) h = absurd (cc h)

some_filled : {V : Type 0} (hosts xs : List V) → some hosts ≡ filled xs → hosts ≡ xs
some_filled hosts [] h = absurd (cc h)
some_filled hosts (x ∷ xs) h = cc h

module _ {S P : Type 0} (valid_address : Bytes → Bool) (compile : S → List Bytes → Option P) where
  -- The router of a port is the one that its hosts make; a port with none has no router.
  abbrev pub Routed : List (VirtualHostConfig S) → Option (Router P) → Type 0
  Routed hosts found =
      ((hosts ≡ []) × (found ≡ none))
      ⊎ ((r : Router P) × (router valid_address compile hosts ≡ inr r) × (found ≡ some r))

  emplace_parts :
      (port : ℕ) (made : RouterError ⊎ Router P) (rest : Option (Map ℕ (Router P)))
      (m : Map ℕ (Router P))
      → emplace_router port made rest ≡ some m
      → (r : Router P) × (later : Map ℕ (Router P)) × (made ≡ inr r)
        × (rest ≡ some later)
        × ((port, r) ∷ later ≡ m)
  unfolding emplace_router
  emplace_parts port (inl e) rest m h = absurd (cc h)
  emplace_parts port (inr r) none m h = absurd (cc h)
  emplace_parts port (inr r) (some later) m h = (r, later, refl, refl, cc h)

  build_routers-Routed :
      (port : ℕ) (routes : Routes S) (m : Map ℕ (Router P)) (xs : List (VirtualHostConfig S))
      → lookup port routes ≡ filled xs
      → build_routers valid_address compile routes ≡ some m
      → Routed xs (lookup port m)
  unfolding build_routers lookup
  build_routers-Routed port [] m xs h made =
      let same : [] ≡ m = cc made in
      subst (λ q. Routed xs (lookup port q)) same (inl (no_hosts xs h, refl))
  build_routers-Routed port ((p, hosts) ∷ routes) m xs h made =
      let (r, later, first, rest, joined) =
        emplace_parts p (router valid_address compile hosts)
          (build_routers valid_address compile routes) m made in
      subst (λ q. Routed xs (lookup port q)) joined
        (elim (Bool-cases (p == port)) [
          | inl e ↦
              let found : some hosts ≡ filled xs = rw e at h in
              rw e (
                inr (
                  r,
                  ap (router valid_address compile) (sym (some_filled hosts xs found)) ∙ first,
                  refl,
                ))
          | inr e ↦ rw e (build_routers-Routed port routes later xs (rw e at h) rest)
        ])

no_routes : {V : Type 0} (port : ℕ) → lookup {V = List V} port [] ≡ none
unfolding lookup
no_routes port = refl

ensured : (test : Bool) (u : Unit {0}) → ensure test ≡ some u → test ≡ true
unfolding ensure
ensured true u h = refl
ensured false u h = absurd (cc h)

count_at :
    {V : Type 0} (port : ℕ) (routes : Map ℕ (List V)) (xs : List V)
    → lookup port routes ≡ filled xs
    → counted (lookup port (site_counts routes)) ≡ length xs
count_at port routes xs h =
    lookup-site_counts port routes ∙ ap (λ o. length (hosts_at o)) h ∙ ap length (hosts_filled xs)

apart_at :
    {V : Type 0} (port : ℕ) (routes https_routes : Map ℕ (List V)) (xs ys : List V)
    → shares routes https_routes ≡ false
    → lookup port routes ≡ filled xs
    → lookup port https_routes ≡ filled ys
    → (port ≡ 0) ⊎ (xs ≡ []) ⊎ (ys ≡ [])
apart_at port routes https_routes [] ys apart h hs = inr (inl refl)
apart_at port routes https_routes (x ∷ xs) ys apart h hs =
    elim (shares_apart port (x ∷ xs) routes https_routes apart h) [
      | inl z ↦ inl z
      | inr gone ↦ inr (inr (no_hosts ys (sym gone ∙ hs)))
    ]

-- What a configuration serves, port by port.
pub record Serves {S P T : Type 0} (valid_address : Bytes → Bool)
    (compile : S → List Bytes → Option P) (sites : List (RuntimeSiteConfig S))
    (c : RuntimeConfig P T) (port : ℕ) : Type 0 where
  pub http_count : site_count http port c ≡ length (hosts_on http port sites)
  pub https_count : site_count https port c ≡ length (hosts_on https port sites)
  pub http_router : Routed valid_address compile (hosts_on http port sites) (router_at http port c)
  pub https_router :
      Routed valid_address compile (hosts_on https port sites) (router_at https port c)
  pub apart : (port ≡ 0) ⊎ (hosts_on http port sites ≡ []) ⊎ (hosts_on https port sites ≡ [])

-- In a configuration that the constructor made, every port has under each protocol the router that
-- the sites enabled there make, in the order of the sites, and their number as its count, and has no
-- router when there are none; and no port but zero has sites of both protocols.
pub runtime_config-Serves :
    {S P C T : Type 0} (valid_address : Bytes → Bool) (compile : S → List Bytes → Option P)
    (boost : Boost) (tls : Tls C T) (spec : RuntimeConfigSpec S C) (c : RuntimeConfig P T)
    (port : ℕ)
    → runtime_config valid_address compile boost tls spec ≡ some c
    → Serves valid_address compile spec.sites c port
unfolding runtime_config site_count router_at counts_of routers_of
runtime_config-Serves {S} {P} {C} {T} valid_address compile boost tls spec c port made =
    let (ranges, _, h1) = >>=_some (resolver boost spec.settings.trusted_proxy_cidrs) _ c made in
    let (_, _, h2) = >>=_some (ensure (settings_valid spec.revision spec.settings)) _ c h1 in
    let (routes, collected, h3) = >>=_some (site_routes spec.sites [] []) _ c h2 in
    let (u, apart, h4) = >>=_some (ensure (not (shares routes.0 routes.1))) _ c h3 in
    let (plain, plain_made, h5) = >>=_some (build_routers valid_address compile routes.0) _ c h4 in
    let (secure, secure_made, h6) =
      >>=_some (build_routers valid_address compile routes.1) _ c h5 in
    let (contexts, _, h7) = >>=_some (make_contexts tls spec (sorted_ports routes.1)) _ c h6 in
    let at =
      site_routes-Collected port spec.sites [] [] [] [] routes (no_routes port, no_routes port)
        collected in
    let test = ensured (not (shares routes.0 routes.1)) u apart in
    let hosts = hosts_on http port spec.sites in
    let tls_hosts = hosts_on https port spec.sites in
    let built : RuntimeConfig P T = record {
      revision = spec.revision;
      http_ports = sorted_ports routes.0;
      https_ports = sorted_ports routes.1;
      http_routers = plain;
      https_routers = secure;
      http_site_counts = site_counts routes.0;
      https_site_counts = site_counts routes.1;
      tls_contexts = contexts;
      settings = spec.settings;
      trusted_ranges = ranges;
    } in
    let all : some built ≡ some c = h7 in
    let same : built ≡ c = cc all in
    subst (λ d. Serves valid_address compile spec.sites d port) same
      record {
        http_count = count_at port routes.0 hosts at.0;
        https_count = count_at port routes.1 tls_hosts at.1;
        http_router =
            build_routers-Routed valid_address compile port routes.0 plain hosts at.0 plain_made;
        https_router =
            build_routers-Routed valid_address compile port routes.1 secure tls_hosts at.1
              secure_made;
        apart = apart_at port routes.0 routes.1 hosts tls_hosts (ground (arith, test)) at.0 at.1;
      }
