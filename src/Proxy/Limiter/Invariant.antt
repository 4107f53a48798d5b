-- ===== src/Proxy/Limiter/Invariant.antt =====
-- src/proxy/BackendConcurrencyLimiter.cpp: what holds of every site between two calls.
use model_lib.Base.Map.{
  Map, lookup, insert, Entries, insert-Entries, erase-Entries, Distinct, insert-Distinct,
  erase-Distinct, lookup-insert, lookup-erase,
}
use model_lib.Base.{
  ℕ, suc, ◌-◌, ◌≤◌, ◌<◌, ◌^◌, ◌≡◌, refl, subst, ◌⊎◌, inl, inr, true, false, List, [], ◌∷◌, none,
  some, arith, ltb, ◌==◌, if◌then◌else◌, Bool-cases, nat_eq,
}
use model_lib.Proxy.Limiter.{
  Waiter, Site, Limiter, site_or_empty, promote_site, enter, is_spent, store, release_site,
}
use model_lib.Proxy.Limiter.Waiters.{remove_waiter, withdraw}
use model_lib.Proxy.Limiter.Queue.{
  Queued, Queued-tail, Queued-concat, Queued-mono, remove_waiter-Queued, promote-Queued,
  promote_ends, next_waiter-Queued,
}

-- Between calls: the queue is in order, and nobody waits while a slot is free. The third field is
-- the range of a `std::uint32_t`.
pub record SiteInv (next : ℕ) (site : Site) : Type 0 where
  pub waiting : Queued 0 next site.queue
  pub busy : (site.queue ≡ []) ⊎ (site.maximum_active ≤ site.active)
  pub word : site.maximum_active < 2 ^ 32

-- The first two fields need not hold of the queue before promotion.
pub record SiteFit (next : ℕ) (site : Site) : Type 0 where
  pub waiting : Queued 0 next site.queue
  pub word : site.maximum_active < 2 ^ 32

-- Of a stored site: it is in use, unless a configuration wants it.
abbrev pub StoredInv : ℕ → Site → Type 0
StoredInv next site = SiteInv next site × (is_spent site ≡ false)

pub promote_site-SiteInv : (n : ℕ) (s : Site) → SiteFit n s → SiteInv n (promote_site s)
unfolding promote_site
promote_site-SiteInv n s f = record {
  waiting = promote-Queued s.maximum_active s.active 0 n s.queue f.waiting;
  busy = promote_ends s.maximum_active s.active s.queue;
  word = f.word;
}

pub enter-SiteInv :
    (site_id id timeout : ℕ) (s : Site)
    → SiteInv id s
    → SiteInv (suc id) (enter site_id id timeout s).0
unfolding enter
enter-SiteInv site_id id timeout s v =
    let wider = Queued-mono 0 0 id (suc id) s.queue (omega arith) (omega arith) v.waiting in
    let longer =
      Queued-concat 0 id s.queue (record { site_id = site_id; waiter_id = id; completed = false })
        refl refl v.waiting in
    ground arith

-- The three outcomes of a release at a site: the slot is surplus, the slot is free, or it passes to
-- the waiter at the front.
abbrev pub ReleaseCases : Site → Type 0
ReleaseCases s =
    ((s.maximum_active < s.active) × (release_site s ≡ (record s { active = s.active - 1 }, none)))
    ⊎ ((s.active ≤ s.maximum_active)
        × (s.queue ≡ [])
        × (release_site s ≡ (record s { active = s.active - 1; queue = [] }, none)))
    ⊎ ((w : Waiter) × (rest : List Waiter) × (s.active ≤ s.maximum_active)
        × (s.queue ≡ w ∷ rest)
        × (release_site s ≡ (record s { queue = rest }, some (record w { completed = true }))))

pub release_site_cases : (n : ℕ) (s : Site) → Queued 0 n s.queue → ReleaseCases s
unfolding release_site
release_site_cases n s h = elim (Bool-cases (ltb s.maximum_active s.active)) [
  | inl over ↦ inl (ground arith, rw over)
  | inr within ↦ elim (next_waiter-Queued 0 n s.queue h) [
    | inl (e, f) ↦ inr (inl (ground arith, e, rw (within, f) (ground arith)))
    | inr (w, rest, e, f) ↦ inr (inr (w, rest, ground arith, e, rw (within, f) (ground arith)))
  ]
]

pub release_site-SiteInv : (n : ℕ) (s : Site) → SiteInv n s → SiteInv n (release_site s).0
release_site-SiteInv n s v = elim (release_site_cases n s v.waiting) [
  | inl (over, e) ↦ rw e (record { waiting = v.waiting; busy = ground arith; word = v.word })
  | inr (inl (within, q, e)) ↦
      rw e (record { waiting = omega arith; busy = inl refl; word = v.word })
  | inr (inr (w, rest, within, q, e)) ↦
      let behind = Queued-tail 0 n w rest (subst (Queued 0 n) q v.waiting) in
      rw e (record { waiting = behind; busy = ground arith; word = v.word })
]

pub remove_waiter-ends :
    (id : ℕ) (s : Site)
    → (s.queue ≡ []) ⊎ (s.maximum_active ≤ s.active)
    → (remove_waiter id s.queue ≡ []) ⊎ (s.maximum_active ≤ s.active)
unfolding remove_waiter
remove_waiter-ends id s v = ground arith

pub withdraw-SiteInv : (n id : ℕ) (s t : Site) → SiteInv n s → withdraw id s ≡ some t → SiteInv n t
unfolding withdraw
withdraw-SiteInv n id s t v h =
    ground (arith, remove_waiter-Queued id 0 n s.queue v.waiting, remove_waiter-ends id s v.busy)

-- The whole limiter: distinct sites, all of them as above.
pub record Inv (l : Limiter) : Type 0 where
  pub distinct : Distinct l.sites
  pub stored : Entries (λ _. StoredInv l.next_waiter_id) l.sites

pub store-Entries :
    (n k : ℕ) (s : Site) (m : Map ℕ Site)
    → SiteInv n s
    → Entries (λ _. StoredInv n) m
    → Entries (λ _. StoredInv n) (store k s m)
store-Entries n k s m v h = elim (Bool-cases (is_spent s)) [
  | inl spent ↦ rw spent (erase-Entries (λ _. StoredInv n) k m h)
  | inr live ↦ rw live (insert-Entries (λ _. StoredInv n) k s m (v, live) h)
]

pub store-Distinct : (k : ℕ) (s : Site) (m : Map ℕ Site) → Distinct m → Distinct (store k s m)
store-Distinct k s m h = elim (Bool-cases (is_spent s)) [
  | inl spent ↦ rw spent (erase-Distinct k m h)
  | inr live ↦ rw live (insert-Distinct k s m h)
]

-- `store` leaves the other sites alone, and what it erases had no slot in use.
pub store-active :
    (k j : ℕ) (s : Site) (m : Map ℕ Site)
    → (site_or_empty (lookup j (store k s m))).active
      ≡ (if k == j then s.active else (site_or_empty (lookup j m)).active)
store-active k j s m = ground (arith, lookup-insert k j s m, lookup-erase k j m)

pub insert-active :
    (k j : ℕ) (s : Site) (m : Map ℕ Site)
    → (site_or_empty (lookup j (insert k s m))).active
      ≡ (if k == j then s.active else (site_or_empty (lookup j m)).active)
insert-active k j s m = ground (arith, lookup-insert k j s m)

pub StoredInv-mono :
    (n n' : ℕ) (m : Map ℕ Site)
    → n ≤ n'
    → Entries (λ _. StoredInv n) m
    → Entries (λ _. StoredInv n') m
StoredInv-mono n n' [] le h = tt
StoredInv-mono n n' ((k, s) ∷ m) le ((v, live), h) =
    let wider = Queued-mono 0 0 n n' s.queue (omega arith) le v.waiting in
    ((record { waiting = wider; busy = v.busy; word = v.word }, live), StoredInv-mono n n' m le h)
