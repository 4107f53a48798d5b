-- ===== src/Proxy/Limiter/Capacity.antt =====
-- src/proxy/BackendConcurrencyLimiter.cpp: no step takes more slots than the limit allows.
use model_lib.Base.Map.{lookup, lookup-Entries}
use model_lib.Base.{
  ℕ, zero, suc, ◌≤◌, ◌<◌, ◌^◌, ◌≡◌, refl, sym, ap, subst, inl, inr, List, arith, ◌==◌, max,
  Bool-cases, Option-cases, nat_eq, ==_iff,
}
use model_lib.Proxy.Limiter.{
  Site, Limiter, Request, Event, site_or_empty, promote_site, configure, enter, acquire,
  release_locked, release,
}
use model_lib.Proxy.Limiter.Waiters.{
  cancel_pending, timeout_pending, set_limits, update_limits, clear,
}
use model_lib.Proxy.Limiter.Queue.{promote-active}
use model_lib.Proxy.Limiter.Invariant.{SiteFit, StoredInv, Inv}
use model_lib.Proxy.Limiter.Permits.{
  grants, active_of, Accounts, site_or_empty-SiteFit, acquire-Accounts,
}
use model_lib.Proxy.Limiter.Release.{release-Sound, refusing}
use model_lib.Proxy.Limiter.Upkeep.{
  cancel_pending-Sound, timeout_pending-Sound, update_limits-Sound, retain_sites-Sound,
}
use model_lib.Proxy.Limiter.Fairness.{lookup-insert_self}
use model_lib.Proxy.Limiter.World.{
  World, WorldInv, Step, acquires, releases, cancels, times_out, updates, retains, clears,
}

abbrev pub maximum_of : ℕ → Limiter → ℕ
maximum_of k l = (site_or_empty (lookup k l.sites)).maximum_active

-- A step left this site's slots alone, or took no more than the limit.
abbrev pub Within : ℕ → Site → Type 0
Within before s = s.active ≤ max before s.maximum_active

enter-Within :
    (site_id id timeout before : ℕ) (s : Site)
    → s.maximum_active < 2 ^ 32
    → Within before s
    → Within before (enter site_id id timeout s).0
unfolding enter
enter-Within site_id id timeout before s word h = ground arith

promote_site-Within : (n : ℕ) (s : Site) → SiteFit n s → Within s.active (promote_site s)
unfolding promote_site
promote_site-Within n s f =
    (promote-active s.maximum_active s.active 0 n s.queue f.word f.waiting).1

acquire-Within :
    (l : Limiter) (k : ℕ) (r : Request)
    → Inv l
    → r.maximum_active < 2 ^ 32
    → Within (active_of k l) (site_or_empty (lookup k (acquire l k r).0.sites))
unfolding acquire configure
acquire-Within l k r v word =
    let site = configure r (site_or_empty (lookup k l.sites)) in
    let fit = site_or_empty-SiteFit l k r (lookup k l.sites) v word refl in
    let e = enter k l.next_waiter_id r.queue_timeout (promote_site site) in
    subst (λ o. Within (active_of k l) (site_or_empty o)) (sym (lookup-insert_self k e.0 l.sites))
      (enter-Within k l.next_waiter_id r.queue_timeout (active_of k l) (promote_site site)
        (unfold promote_site in word) (promote_site-Within l.next_waiter_id site fit))

update_limits-Within :
    (l : Limiter) (k m q : ℕ)
    → Inv l
    → m < 2 ^ 32
    → Within (active_of k l) (site_or_empty (lookup k (update_limits l k m q).0.sites))
unfolding update_limits
update_limits-Within l k m q v word = elim (Option-cases (lookup k l.sites)) [
  | inl absent ↦ rw (absent, update_limits) (rw (absent, site_or_empty) (omega arith))
  | inr (s, found) ↦
      let n = l.next_waiter_id in
      let kept = lookup-Entries (λ _. StoredInv n) k l.sites v.stored found in
      let limited = set_limits m q s in
      let fit : SiteFit n limited = record { waiting = kept.0.waiting; word = word } in
      let in_use : active_of k l ≡ s.active = ap (λ o. (site_or_empty o).active) found in
      rw (found, update_limits)
        (subst (λ o. Within (active_of k l) (site_or_empty o))
          (sym (lookup-insert_self k (promote_site limited) l.sites))
          (rw in_use (promote_site-Within n limited fit)))
]

-- Nothing comes back but one permit at most is handed on.
grants-release :
    (failures : ℕ) (l : Limiter) (k : ℕ) → grants (release (refusing failures) l k).1 ≤ 1
unfolding release grants
grants-release zero l k = ground arith
grants-release (suc failures) l k = ground (arith, grants-release failures (release_locked l k).0 k)

grants-cancel_pending : (l : Limiter) (k id : ℕ) → grants (cancel_pending l k id).1 ≡ 0
unfolding cancel_pending grants
grants-cancel_pending l k id = ground arith

grants-timeout_pending : (l : Limiter) (k id : ℕ) → grants (timeout_pending l k id).1 ≡ 0
unfolding timeout_pending grants
grants-timeout_pending l k id = ground arith

-- An operation at `k` whose result at `k` is within the limit is so everywhere.
everywhere :
    (l : Limiter) (k : ℕ) (r : Limiter × List Event)
    → Accounts k 0 l r
    → Within (active_of k l) (site_or_empty (lookup k r.0.sites))
    → (j : ℕ) → Within (active_of j l) (site_or_empty (lookup j r.0.sites))
everywhere l k (l', es) accounts h j = elim (Bool-cases (k == j)) [
  | inl same ↦
      subst (λ i. Within (active_of i l) (site_or_empty (lookup i l'.sites))) ((==_iff k j).0 same)
        h
  | inr other ↦ let a = rw other at (accounts j) in omega (arith, a)
]

-- In a state where the invariant holds, after every step each site uses no more slots than it did
-- before, or no more than its limit then allows.
pub Step-Within :
    {w w' : World}
    → Step w w'
    → WorldInv w
    → (j : ℕ) → active_of j w'.limiter ≤ max (active_of j w.limiter) (maximum_of j w'.limiter)
unfolding clear lookup
Step-Within (acquires w k r word room) v j =
    everywhere w.limiter k (acquire w.limiter k r) (acquire-Accounts w.limiter k r v.inv word)
      (acquire-Within w.limiter k r v.inv word) j
Step-Within (releases w k failures h) v j =
    let sound = release-Sound failures w.limiter k v.inv (omega (arith, v.permits k)) in
    ground (arith, sound.1 j, grants-release failures w.limiter k)
Step-Within (cancels w k id) v j =
    let sound = cancel_pending-Sound w.limiter k id v.inv in
    ground (arith, sound.1 j, grants-cancel_pending w.limiter k id)
Step-Within (times_out w k id) v j =
    let sound = timeout_pending-Sound w.limiter k id v.inv in
    ground (arith, sound.1 j, grants-timeout_pending w.limiter k id)
Step-Within (updates w k m q word) v j =
    everywhere w.limiter k (update_limits w.limiter k m q)
      (update_limits-Sound w.limiter k m q v.inv word).1
      (update_limits-Within w.limiter k m q v.inv word) j
Step-Within (clears w none_alive) v j = omega arith
Step-Within (retains w ids) v j = omega (arith, (retain_sites-Sound w.limiter ids v.inv).1 j)
