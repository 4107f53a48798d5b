-- ===== src/Proxy/Limiter/Upkeep.antt =====
-- src/proxy/BackendConcurrencyLimiter.cpp: `cancel_pending`, `timeout_pending`, `update_limits` and
-- `retain_sites` keep the invariant and account for every permit.
use model_lib.Base.Map.{
  Map, lookup, Entries, insert-Entries, lookup-Entries, Distinct, insert-Distinct,
}
use model_lib.Base.{
  ℕ, ◌<◌, ◌^◌, ◌≡◌, refl, ap, inl, inr, List, [], ◌∷◌, none, some, arith, Option-cases, nat_eq,
  ==_iff,
}
use model_lib.Proxy.Limiter.{
  queue_timeout, Site, Limiter, Event, disarm, dismiss, answer, promote_site, promoted_by,
  promotion_events, store,
}
use model_lib.Proxy.Limiter.Waiters.{
  withdraw, withdraw_from, cancel_site, cancel_pending, timeout_site, timeout_pending, set_limits,
  update_limits, retain, retain_sites,
}
use model_lib.Proxy.Limiter.Invariant.{
  SiteInv, SiteFit, StoredInv, Inv, promote_site-SiteInv, withdraw-SiteInv, store-Entries,
  store-Distinct, store-active, insert-active,
}
use model_lib.Proxy.Limiter.Permits.{grants, active_of, moved, promote_site-active}
use model_lib.Proxy.Limiter.Release.{active_in, Sound}

withdraw-active : (id : ℕ) (s t : Site) → withdraw id s ≡ some t → t.active ≡ s.active
unfolding withdraw
withdraw-active id s t h = ground arith

-- What `withdraw_from` finds is a known site, with a shorter queue.
withdrawn :
    (l : Limiter) (k id : ℕ) (t : Site)
    → Inv l
    → withdraw_from id (lookup k l.sites) ≡ some t
    → SiteInv l.next_waiter_id t × (t.active ≡ active_of k l)
unfolding withdraw_from
withdrawn l k id t v h = elim (Option-cases (lookup k l.sites)) [
  | inl absent ↦ let e = rw (absent, withdraw_from) at h in absurd (cc e)
  | inr (s, found) ↦
      let e : withdraw id s ≡ some t = rw (found, withdraw_from) at h in
      let in_use : active_of k l ≡ s.active = ap active_in found in
      let kept = lookup-Entries (λ _. StoredInv l.next_waiter_id) k l.sites v.stored found in
      (
        withdraw-SiteInv l.next_waiter_id id s t kept.0 e,
        omega (arith, withdraw-active id s t e, in_use),
      )
]

store-Sound :
    (l : Limiter) (k : ℕ) (s : Site)
    → Inv l
    → SiteInv l.next_waiter_id s
    → s.active ≡ active_of k l
    → (es : List Event) → grants es ≡ 0
    → Sound k 0 l (record l { sites = store k s l.sites }, es)
store-Sound l k s v fits same es none_granted = (
  record {
    distinct = store-Distinct k s l.sites v.distinct;
    stored = store-Entries l.next_waiter_id k s l.sites fits v.stored;
  },
  λ j.
      rw (store-active k j s l.sites)
        (moved (λ i. active_of i l) k j s.active 0 (grants es) (omega arith)),
)

idle-Sound : (l : Limiter) (k : ℕ) → Inv l → Sound k 0 l (l, [])
unfolding grants
idle-Sound l k v = (v, λ j. refl)

pub cancel_pending-Sound : (l : Limiter) (k id : ℕ) → Inv l → Sound k 0 l (cancel_pending l k id)
unfolding cancel_pending grants
cancel_pending-Sound l k id v = elim (Option-cases (withdraw_from id (lookup k l.sites))) [
  | inl e ↦ rw (e, cancel_site) (idle-Sound l k v)
  | inr (t, e) ↦
      let found = withdrawn l k id t v e in
      rw (e, cancel_site) (store-Sound l k t v found.0 found.1 (disarm id ∷ dismiss id ∷ []) refl)
]

pub timeout_pending-Sound : (l : Limiter) (k id : ℕ) → Inv l → Sound k 0 l (timeout_pending l k id)
unfolding timeout_pending grants
timeout_pending-Sound l k id v = elim (Option-cases (withdraw_from id (lookup k l.sites))) [
  | inl e ↦ rw (e, timeout_site) (idle-Sound l k v)
  | inr (t, e) ↦
      let found = withdrawn l k id t v e in
      let f = found.0 in
      rw (e, timeout_site)
        (store-Sound l k _ v (record { waiting = f.waiting; busy = f.busy; word = f.word }) found.1
          (answer id queue_timeout ∷ []) refl)
]

pub update_limits-Sound :
    (l : Limiter) (k maximum_active maximum_queue : ℕ)
    → Inv l
    → maximum_active < 2 ^ 32
    → Sound k 0 l (update_limits l k maximum_active maximum_queue)
unfolding update_limits grants
update_limits-Sound l k m q v word = elim (Option-cases (lookup k l.sites)) [
  | inl absent ↦ rw (absent, update_limits) (idle-Sound l k v)
  | inr (s, found) ↦
      let n = l.next_waiter_id in
      let kept = lookup-Entries (λ _. StoredInv n) k l.sites v.stored found in
      let limited = set_limits m q s in
      let fit : SiteFit n limited = record { waiting = kept.0.waiting; word = word } in
      let in_use : active_of k l ≡ s.active = ap active_in found in
      let slots = promote_site-active n limited fit in
      rw (found, update_limits)
        (
          record {
            distinct = insert-Distinct k _ l.sites v.distinct;
            stored =
                insert-Entries (λ _. StoredInv n) k _ l.sites
                  (promote_site-SiteInv n limited fit, unfold promote_site in refl) v.stored;
          },
          λ j. rw (insert-active k j (promote_site limited) l.sites) (
              moved (λ i. active_of i l) k j (promote_site limited).active 0
                (grants (promotion_events (promoted_by limited))) (omega arith)),
        )
]

retain-lookup :
    (ids : List ℕ) (j : ℕ) (m : Map ℕ Site) → lookup j m ≡ none → lookup j (retain ids m) ≡ none
unfolding retain lookup
retain-lookup ids j [] h = refl
retain-lookup ids j ((k, s) ∷ m) h = ground (arith, retain-lookup ids j m)

retain-Distinct : (ids : List ℕ) (m : Map ℕ Site) → Distinct m → Distinct (retain ids m)
unfolding retain
retain-Distinct ids [] h = tt
retain-Distinct ids ((k, s) ∷ m) h =
    ground (arith, retain-Distinct ids m h.1, retain-lookup ids k m h.0)

retain-Entries :
    (n : ℕ) (ids : List ℕ) (m : Map ℕ Site)
    → Entries (λ _. StoredInv n) m
    → Entries (λ _. StoredInv n) (retain ids m)
unfolding retain
retain-Entries n ids [] h = tt
retain-Entries n ids ((k, s) ∷ m) h = ground (arith, retain-Entries n ids m h.1)

retain-active :
    (ids : List ℕ) (j : ℕ) (m : Map ℕ Site)
    → Distinct m
    → active_in (lookup j (retain ids m)) ≡ active_in (lookup j m)
unfolding retain lookup
retain-active ids j [] h = refl
retain-active ids j ((k, s) ∷ m) h =
    ground (arith, ==_iff k j, retain-active ids j m h.1, retain-lookup ids k m h.0)

-- Retiring sites takes no slot from anybody; a site that goes had none.
pub retain_sites-Sound :
    (l : Limiter) (ids : List ℕ)
    → Inv l
    → Inv (retain_sites l ids) × ((j : ℕ) → active_of j (retain_sites l ids) ≡ active_of j l)
unfolding retain_sites
retain_sites-Sound l ids v = (
  record {
    distinct = retain-Distinct ids l.sites v.distinct;
    stored = retain-Entries l.next_waiter_id ids l.sites v.stored;
  },
  λ j. retain-active ids j l.sites v.distinct,
)
