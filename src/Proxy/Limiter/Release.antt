-- ===== src/Proxy/Limiter/Release.antt =====
-- src/proxy/BackendConcurrencyLimiter.cpp: `release` keeps the invariant and accounts for every
-- permit.
use model_lib.Base.Map.{
  Map, lookup, Entries, insert-Entries, lookup-Entries, Distinct, insert-Distinct,
}
use model_lib.Base.{
  ℕ, zero, suc, ◌+◌, ◌<◌, ◌≡◌, refl, ap, subst, inl, inr, true, false, List, Option, none, some,
  arith, ◌==◌, if◌then◌else◌, Option-cases, nat_eq, ==_iff,
}
use model_lib.Proxy.Limiter.{
  Waiter, Site, Limiter, Event, site_or_empty, is_spent, release_site, store_released,
  release_locked, release, Allocation, allocated, no_permit,
}
use model_lib.Proxy.Limiter.Invariant.{
  SiteInv, StoredInv, Inv, release_site-SiteInv, store-Entries, store-Distinct,
}
use model_lib.Proxy.Limiter.Permits.{
  grants, active_of, Accounts, moved, taken, store_released-active, release_site-active,
  release_site-live,
}

-- The slots in use at a site, by what the map holds for it.
abbrev pub active_in : Option Site → ℕ
active_in o = (site_or_empty o).active

store_released-Inv :
    (n k : ℕ) (m : Map ℕ Site) (s : Site) (r : Site × Option Waiter)
    → release_site s ≡ r
    → StoredInv n s
    → 0 < s.active
    → Entries (λ _. StoredInv n) m
    → Entries (λ _. StoredInv n) (store_released k r m)
unfolding store_released
store_released-Inv n k m s (t, none) e (kept, live) h sites =
    store-Entries n k t m (subst (λ r. SiteInv n r.0) e (release_site-SiteInv n s kept)) sites
store_released-Inv n k m s (t, some w) e (kept, live) h sites =
    insert-Entries (λ _. StoredInv n) k t m
      (
        subst (λ r. SiteInv n r.0) e (release_site-SiteInv n s kept),
        subst (λ r. is_spent r.0 ≡ false) e (release_site-live n s w kept h (ap (λ r. r.1) e)),
      )
      sites

store_released-Distinct :
    (k : ℕ) (r : Site × Option Waiter) (m : Map ℕ Site)
    → Distinct m
    → Distinct (store_released k r m)
unfolding store_released
store_released-Distinct k (s, none) m h = store-Distinct k s m h
store_released-Distinct k (s, some w) m h = insert-Distinct k s m h

module _ (l : Limiter) (k : ℕ) (v : Inv l) (h : 0 < active_of k l) where
  known : (s : Site) × (lookup k l.sites ≡ some s)
  known = elim (Option-cases (lookup k l.sites)) [
    | inl absent ↦ let nothing : active_of k l ≡ 0 = ap active_in absent in absurd (omega arith)
    | inr found ↦ found
  ]

  kept : StoredInv l.next_waiter_id known.0
  kept = lookup-Entries (λ _. StoredInv l.next_waiter_id) k l.sites v.stored known.1

  in_use : active_of k l ≡ known.0.active
  in_use = ap active_in known.1

  pub release_locked-Inv : Inv (release_locked l k).0
  unfolding release_locked
  release_locked-Inv =
      rw (known.1, release_locked)
        (record {
          distinct = store_released-Distinct k (release_site known.0) l.sites v.distinct;
          stored =
              store_released-Inv l.next_waiter_id k l.sites known.0 _ refl kept
                (omega (arith, in_use)) v.stored;
        })

  pub release_locked-active :
      (j : ℕ)
      → active_of j (release_locked l k).0 + (if k == j then 1 else 0)
        ≡ active_of j l + (if k == j then taken (release_locked l k).1 else 0)
  unfolding release_locked
  release_locked-active j =
      let slots = release_site-active l.next_waiter_id known.0 kept.0 (omega (arith, in_use)) in
      rw (known.1, release_locked)
        (rw (store_released-active k j (release_site known.0) l.sites) (
          moved (λ i. active_of i l) k j _ 1 (taken (release_site known.0).1)
            (omega (arith, in_use))))

abbrev pub Sound : ℕ → ℕ → Limiter → Limiter × List Event → Type 0
Sound k returned l r = Inv r.0 × Accounts k returned l r

self : (k : ℕ) → (k == k) ≡ true
self k = (==_iff k k).1 refl

-- So many times there is no memory for a `Permit`, and the control blocks are allocated.
abbrev pub refusing : ℕ → Allocation
refusing zero = allocated
refusing (suc n) = no_permit (refusing n)

-- A permit that comes back frees one slot or passes it on, however often there is no memory for the
-- next one.
pub release-Sound :
    (failures : ℕ) (l : Limiter) (k : ℕ)
    → Inv l
    → 0 < active_of k l
    → Sound k 1 l (release (refusing failures) l k)
unfolding release grants
release-Sound zero l k v h = elim (Option-cases (release_locked l k).1) [
  | inl e ↦
      rw (e, release) (release_locked-Inv l k v h, λ j. rw e at (release_locked-active l k v h j))
  | inr (w, e) ↦
      rw (e, release) (release_locked-Inv l k v h, λ j. rw e at (release_locked-active l k v h j))
]
release-Sound (suc failures) l k v h = elim (Option-cases (release_locked l k).1) [
  | inl e ↦
      rw (e, release) (release_locked-Inv l k v h, λ j. rw e at (release_locked-active l k v h j))
  | inr (w, e) ↦
      let here = release_locked-active l k v h in
      let at_k = rw (e, self k) at (here k) in
      let again =
        release-Sound failures (release_locked l k).0 k (release_locked-Inv l k v h)
          (omega (arith, at_k)) in
      rw (e, release) (again.0, λ j. omega (arith, again.1 j, rw e at (here j)))
]
