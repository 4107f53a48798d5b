-- ===== src/Routing/Router/Order.antt =====
-- src/routing/VirtualHostRouter.cpp: what the constructor makes of the domains.
use model_lib.Base.Bytes.{Bytes, bytes_eq}
use model_lib.Base.Map.{Map, Entries}
use model_lib.Base.{
  ℕ, ◌≤◌, ◌≡◌, subst, inl, inr, ◌⊎◌, Bool, List, [], ◌∷◌, Option, arith, length, Bool-cases, ltb,
}
use model_lib.Routing.Router.{
  Router, RouterError, VirtualHost, VirtualHostConfig, and_then, bind_checked, bind_configs, place,
  sort_suffixes, config_error,
}

module _ {P : Type 0} where
  -- Longer suffixes come first.
  abbrev pub Descending : Map Bytes (VirtualHost P) → Type 0
  Descending [] = Unit
  Descending ((k, v) ∷ m) = Entries (λ j w. length j ≤ length k) m × Descending m

  place-Entries :
      (Q : Bytes → VirtualHost P → Type 0) (k : Bytes) (v : VirtualHost P)
      (m : Map Bytes (VirtualHost P))
      → Q k v
      → Entries Q m
      → Entries Q (place k v m)
  unfolding place
  place-Entries Q k v [] q h = (q, h)
  place-Entries Q k v ((j, w) ∷ m) q h = elim (Bool-cases (ltb (length j) (length k))) [
    | inl e ↦ rw e (q, h)
    | inr e ↦ rw e (h.0, place-Entries Q k v m q h.1)
  ]

  shorter :
      (n m : ℕ) (es : Map Bytes (VirtualHost P))
      → n ≤ m
      → Entries (λ j w. length j ≤ n) es
      → Entries (λ j w. length j ≤ m) es
  shorter n m [] le h = tt
  shorter n m ((k, v) ∷ es) le h = (omega (arith, le, h.0), shorter n m es le h.1)

  place-Descending :
      (k : Bytes) (v : VirtualHost P) (m : Map Bytes (VirtualHost P))
      → Descending m
      → Descending (place k v m)
  unfolding place
  place-Descending k v [] d = (tt, tt)
  place-Descending k v ((j, w) ∷ m) d = elim (Bool-cases (ltb (length j) (length k))) [
    | inl e ↦
        let le : length j ≤ length k = ground (arith, e) in
        rw e ((le, shorter (length j) (length k) m le d.0), d)
    | inr e ↦ rw e (
      place-Entries (λ i u. length i ≤ length j) k v m (ground (arith, e)) d.0,
      place-Descending k v m d.1,
    )
  ]

  pub sort_suffixes-Descending : (m : Map Bytes (VirtualHost P)) → Descending (sort_suffixes m)
  unfolding sort_suffixes
  sort_suffixes-Descending [] = tt
  sort_suffixes-Descending ((k, v) ∷ m) =
      place-Descending k v (sort_suffixes m) (sort_suffixes-Descending m)

  and_then-inr :
      (x : RouterError ⊎ Router P) (f : Router P → RouterError ⊎ Router P) (q : Router P)
      → and_then x f ≡ inr q
      → (r : Router P) × (f r ≡ inr q)
  unfolding and_then
  and_then-inr (inl e) f q h = absurd (cc h)
  and_then-inr (inr r) f q h = (r, h)

module _ {S P : Type 0} where
  -- The constructor leaves the wildcards with the longer suffixes first.
  pub bind_configs-Descending :
      (valid_address : Bytes → Bool) (compile : S → List Bytes → Option P)
      (cs : List (VirtualHostConfig S)) (r q : Router P)
      → bind_configs valid_address compile cs r ≡ inr q
      → Descending q.wildcard_hosts
  unfolding bind_configs
  bind_configs-Descending valid_address compile [] r q h =
      let same : record r { wildcard_hosts = sort_suffixes r.wildcard_hosts } ≡ q = cc h in
      subst (λ (x : Router P). Descending x.wildcard_hosts) same
        (sort_suffixes-Descending r.wildcard_hosts)
  bind_configs-Descending valid_address compile (c ∷ cs) r q h =
      let (t, rest) =
        and_then-inr (bind_checked (config_error valid_address c) c (compile c.policy c.domains) r)
          (bind_configs valid_address compile cs) q h in
      bind_configs-Descending valid_address compile cs t q rest
