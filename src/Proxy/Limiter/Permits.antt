-- ===== src/Proxy/Limiter/Permits.antt =====
-- src/proxy/BackendConcurrencyLimiter.cpp: each operation keeps the invariant, and the slots in use
-- move by the permits that it hands out.
use model_lib.Base.Map.{Map, lookup, insert-Entries, lookup-Entries, insert-Distinct}
use model_lib.Base.{
  ℕ, suc, ◌+◌, ◌<◌, ◌^◌, ◌≡◌, refl, subst, inl, inr, false, List, [], ◌∷◌, ◌++◌, Option, none, some,
  arith, ◌==◌, if◌then◌else◌, inc64, length, Bool-cases, nat_eq, ==_iff,
}
use model_lib.Proxy.Limiter.{
  granted, queue_full, queue_timeout, Waiter, Site, Limiter, Request, Event, arm, disarm, dismiss,
  answer, site_or_empty, promote, promote_site, promoted_by, promotion_events, configure, enter,
  acquire, is_spent, release_site, store_released,
}
use model_lib.Proxy.Limiter.Queue.{promote-active}
use model_lib.Proxy.Limiter.Invariant.{
  SiteInv, SiteFit, StoredInv, Inv, promote_site-SiteInv, enter-SiteInv, release_site_cases,
  store-active, insert-active, StoredInv-mono,
}

-- The permits that a list of events hands out.
unfoldable pub grants : List Event → ℕ
grants [] = 0
grants (answer id granted ∷ es) = suc (grants es)
grants (e ∷ es) = grants es

pub grants-append : (es fs : List Event) → grants (es ++ fs) ≡ grants es + grants fs
unfolding grants
grants-append [] fs = omega arith
grants-append (answer id granted ∷ es) fs = omega (arith, grants-append es fs)
grants-append (answer id queue_full ∷ es) fs = omega (arith, grants-append es fs)
grants-append (answer id queue_timeout ∷ es) fs = omega (arith, grants-append es fs)
grants-append (arm id t ∷ es) fs = omega (arith, grants-append es fs)
grants-append (disarm id ∷ es) fs = omega (arith, grants-append es fs)
grants-append (dismiss id ∷ es) fs = omega (arith, grants-append es fs)

pub grants-promotion_events : (ws : List Waiter) → grants (promotion_events ws) ≡ length ws
unfolding grants promotion_events
grants-promotion_events [] = refl
grants-promotion_events (w ∷ ws) = omega (arith, grants-promotion_events ws)

-- The slots that a site has in use; none if it is not known.
abbrev pub active_of : ℕ → Limiter → ℕ
active_of id l = (site_or_empty (lookup id l.sites)).active

-- An operation at site `k` that was given back some permits, and its events: its slots in use are
-- the former ones, less what came back, and more what was handed out.
abbrev pub Accounts : ℕ → ℕ → Limiter → Limiter × List Event → Type 0
Accounts k returned l (l', es) =
    (j : ℕ)
    → active_of j l' + (if k == j then returned else 0)
      ≡ active_of j l + (if k == j then grants es else 0)

pub moved :
    (f : ℕ → ℕ) (k j a c d : ℕ)
    → a + c ≡ f k + d
    → (if k == j then a else f j) + (if k == j then c else 0) ≡ f j + (if k == j then d else 0)
moved f k j a c d h = elim (Bool-cases (k == j)) [
  | inl same ↦ rw same (subst (λ i. a + c ≡ f i + d) ((==_iff k j).0 same) h)
  | inr other ↦ rw other refl
]

enter-active :
    (site_id id timeout : ℕ) (s : Site)
    → s.maximum_active < 2 ^ 32
    → (enter site_id id timeout s).0.active ≡ s.active + grants (enter site_id id timeout s).1
unfolding enter grants
enter-active site_id id timeout s h = ground arith

enter-retired :
    (site_id id timeout : ℕ) (s : Site) → (enter site_id id timeout s).0.retired ≡ s.retired
unfolding enter
enter-retired site_id id timeout s = ground arith

pub promote_site-active :
    (n : ℕ) (s : Site)
    → SiteFit n s
    → (promote_site s).active ≡ s.active + grants (promotion_events (promoted_by s))
unfolding promote_site promoted_by
promote_site-active n s f = omega (
  arith,
  promote-active s.maximum_active s.active 0 n s.queue f.word f.waiting,
  grants-promotion_events (promote s.maximum_active s.active s.queue).promoted,
)

-- The site that `acquire` works on.
pub site_or_empty-SiteFit :
    (l : Limiter) (k : ℕ) (r : Request) (o : Option Site)
    → Inv l
    → r.maximum_active < 2 ^ 32
    → lookup k l.sites ≡ o
    → SiteFit l.next_waiter_id (configure r (site_or_empty o))
unfolding configure
site_or_empty-SiteFit l k r none v h e = record { waiting = omega arith; word = h }
site_or_empty-SiteFit l k r (some s) v h e =
    let (kept, live) = lookup-Entries (λ _. StoredInv l.next_waiter_id) k l.sites v.stored e in
    record { waiting = kept.waiting; word = h }

module _ (l : Limiter) (k : ℕ) (r : Request) (v : Inv l) (word : r.maximum_active < 2 ^ 32) where
  abbrev entering : Site
  entering = configure r (site_or_empty (lookup k l.sites))

  fit : SiteFit l.next_waiter_id entering
  fit = site_or_empty-SiteFit l k r (lookup k l.sites) v word refl

  promoted-word : (promote_site entering).maximum_active < 2 ^ 32
  unfolding promote_site configure
  promoted-word = word

  pub acquire-Inv : l.next_waiter_id + 1 < 2 ^ 64 → Inv (acquire l k r).0
  unfolding acquire promote_site configure
  acquire-Inv room = record {
    distinct = insert-Distinct k _ l.sites v.distinct;
    stored =
        let n : ℕ = l.next_waiter_id in
        let next : inc64 n ≡ suc n = omega arith in
        let entered =
          enter-SiteInv k n r.queue_timeout (promote_site entering)
            (promote_site-SiteInv n entering fit) in
        let kept = enter-retired k n r.queue_timeout (promote_site entering) in
        rw next (
          insert-Entries (λ _. StoredInv (suc n)) k _ l.sites (entered, rw kept)
            (StoredInv-mono n (suc n) l.sites (omega arith) v.stored));
  }

  pub acquire-Accounts : Accounts k 0 l (acquire l k r)
  unfolding acquire configure
  acquire-Accounts j =
      let site = promote_site entering in
      let entered = enter k l.next_waiter_id r.queue_timeout site in
      let slots = enter-active k l.next_waiter_id r.queue_timeout site promoted-word in
      let promoted = promote_site-active l.next_waiter_id entering fit in
      let total = grants-append (promotion_events (promoted_by entering)) entered.1 in
      rw (insert-active k j entered.0 l.sites)
        (moved (λ i. active_of i l) k j entered.0.active 0 (grants (acquire l k r).1) (omega arith))

-- A release at a known site: its slot is given back, or stays in use by the waiter returned.
abbrev pub taken : Option Waiter → ℕ
taken none = 0
taken (some w) = 1

pub store_released-active :
    (k j : ℕ) (r : Site × Option Waiter) (m : Map ℕ Site)
    → (site_or_empty (lookup j (store_released k r m))).active
      ≡ (if k == j then r.0.active else (site_or_empty (lookup j m)).active)
unfolding store_released
store_released-active k j (s, none) m = store-active k j s m
store_released-active k j (s, some w) m = insert-active k j s m

pub release_site-active :
    (n : ℕ) (s : Site)
    → SiteInv n s
    → 0 < s.active
    → (release_site s).0.active + 1 ≡ s.active + taken (release_site s).1
release_site-active n s v h = elim (release_site_cases n s v.waiting) [
  | inl (over, e) ↦ rw e (omega arith)
  | inr (inl (within, q, e)) ↦ rw e (omega arith)
  | inr (inr (w, rest, within, q, e)) ↦ rw e refl
]

pub release_site-live :
    (n : ℕ) (s : Site) (w : Waiter)
    → SiteInv n s
    → 0 < s.active
    → (release_site s).1 ≡ some w
    → is_spent (release_site s).0 ≡ false
release_site-live n s w v h got = elim (release_site_cases n s v.waiting) [
  | inl (over, e) ↦ absurd (let f = rw e at got in cc)
  | inr (inl (within, q, e)) ↦ absurd (let f = rw e at got in cc)
  | inr (inr (x, rest, within, q, e)) ↦ rw e (ground arith)
]
