-- ===== src/Config/Runtime/Collecting.antt =====
-- src/config/RuntimeConfig.cpp: the routes that the loop over the sites collects.
use model_lib.Base.Map.{Map, lookup, lookup-insert}
use model_lib.Base.{
  ℕ, ◌≡◌, refl, sym, ap, subst, ◌∙◌, inl, inr, not, ◌&&◌, List, [], ◌∷◌, ◌++◌, Option, none, some,
  arith, ◌==◌, if◌then◌else◌, nat_eq, Bool-cases,
}
use mathlib.Core.List.{append-nil, append_assoc}
use model_lib.Routing.Router.{VirtualHostConfig}
use model_lib.Config.Runtime.{
  ListenerProtocol, http, https, RuntimeSiteConfig, hosts_at, add_route, route_site, port_of,
  Routes, site_routes,
}

module _ {V : Type 0} where
  -- A port has an entry when it has a host.
  abbrev pub filled : List V → Option (List V)
  filled [] = none
  filled (x ∷ xs) = some (x ∷ xs)

  -- A host is at a port, in front of those behind it.
  unfoldable pub on_port : ℕ → Option ℕ → V → List V → List V
  on_port port none host rest = rest
  on_port port (some p) host rest = if p == port then host ∷ rest else rest

  pub hosts_filled : (xs : List V) → hosts_at (filled xs) ≡ xs
  unfolding hosts_at
  hosts_filled [] = refl
  hosts_filled (x ∷ xs) = refl

  filled_more : (xs : List V) (x : V) → filled (xs ++ x ∷ []) ≡ some (xs ++ x ∷ [])
  filled_more [] x = refl
  filled_more (y ∷ xs) x = refl

  lookup-route_site :
      (port : ℕ) (o : Option ℕ) (host : V) (routes : Map ℕ (List V)) (xs : List V)
      → lookup port routes ≡ filled xs
      → lookup port (route_site o host routes) ≡ filled (xs ++ on_port port o host [])
  unfolding route_site add_route on_port
  lookup-route_site port none host routes xs h = h ∙ ap filled (sym (append-nil xs))
  lookup-route_site port (some p) host routes xs h =
      let found = lookup-insert p port (hosts_at (lookup p routes) ++ host ∷ []) routes in
      elim (Bool-cases (p == port)) [
        | inl e ↦
            let same : p ≡ port = ground (arith, e) in
            let before : hosts_at (lookup p routes) ≡ xs =
              ap (λ q. hosts_at (lookup q routes)) same ∙ ap hosts_at h ∙ hosts_filled xs in
            found ∙ (rw (e, before) (sym (filled_more xs host)))
        | inr e ↦ found ∙ (rw e (h ∙ ap filled (sym (append-nil xs))))
      ]

-- The hosts of the sites that a protocol serves on a port, in the order of the sites.
unfoldable pub hosts_on :
    {S : Type 0} → ListenerProtocol → ℕ → List (RuntimeSiteConfig S) → List (VirtualHostConfig S)
hosts_on protocol port [] = []
hosts_on protocol port (site ∷ sites) =
    on_port port (port_of protocol site) site.virtual_host (hosts_on protocol port sites)

on_port_append :
    {V : Type 0} (port : ℕ) (o : Option ℕ) (host : V) (rest : List V)
    → on_port port o host [] ++ rest ≡ on_port port o host rest
unfolding on_port
on_port_append port none host rest = refl
on_port_append port (some p) host rest = elim (Bool-cases (p == port)) [
  | inl e ↦ rw e refl
  | inr e ↦ rw e refl
]

module _ {S : Type 0} where
  abbrev pub Collected :
      ℕ → Routes S → Routes S → List (VirtualHostConfig S) → List (VirtualHostConfig S) → Type 0
  Collected port http_routes https_routes xs ys =
      (lookup port http_routes ≡ filled xs) × (lookup port https_routes ≡ filled ys)

  pub site_routes-Collected :
      (port : ℕ) (sites : List (RuntimeSiteConfig S)) (h hs : Routes S)
      (xs ys : List (VirtualHostConfig S)) (r : Routes S × Routes S)
      → Collected port h hs xs ys
      → site_routes sites h hs ≡ some r
      → Collected port r.0 r.1 (xs ++ hosts_on http port sites) (ys ++ hosts_on https port sites)
  unfolding site_routes hosts_on
  site_routes-Collected port [] h hs xs ys r c made =
      let same : (h, hs) ≡ r = cc made in
      subst (λ (q : Routes S × Routes S). Collected port q.0 q.1 (xs ++ []) (ys ++ [])) same
        (c.0 ∙ ap filled (sym (append-nil xs)), c.1 ∙ ap filled (sym (append-nil ys)))
  site_routes-Collected port (site ∷ sites) h hs xs ys r c made =
      let host = site.virtual_host in
      let here = on_port port (port_of http site) host [] in
      let here_tls = on_port port (port_of https site) host [] in
      elim (Bool-cases (not site.http_enabled && not site.https_enabled)) [
        | inl bad ↦ absurd (let m = rw bad at made in cc m)
        | inr fine ↦
            let rest =
              site_routes-Collected port sites (route_site (port_of http site) host h)
                (route_site (port_of https site) host hs) (xs ++ here) (ys ++ here_tls) r
                (
                  lookup-route_site port (port_of http site) host h xs c.0,
                  lookup-route_site port (port_of https site) host hs ys c.1,
                )
                (rw fine at made) in
            (
              rest.0
                  ∙ ap filled (
                      append_assoc xs here (hosts_on http port sites)
                      ∙ ap (λ zs. xs ++ zs) (on_port_append port (port_of http site) host _)),
              rest.1
                  ∙ ap filled (
                      append_assoc ys here_tls (hosts_on https port sites)
                      ∙ ap (λ zs. ys ++ zs) (on_port_append port (port_of https site) host _)),
            )
      ]
