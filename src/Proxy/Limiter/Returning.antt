-- ===== src/Proxy/Limiter/Returning.antt =====
-- src/proxy/BackendConcurrencyLimiter.cpp: who gets the permits that come back.
use model_lib.Base.Map.{Map, lookup, lookup-Entries, lookup-insert, lookup-erase}
use model_lib.Base.{
  ℕ, ◌≤◌, ◌<◌, ◌≡◌, refl, sym, ap, subst, ◌∙◌, ◌⊎◌, inl, inr, true, List, [], ◌∷◌, ◌++◌, some, none,
  Option, arith, nat_eq, ==_iff, ◌-◌, ◌==◌, Bool-cases, Option-cases, take, drop, suc, zero,
}
use model_lib.Proxy.Limiter.{
  granted, queue_full, queue_timeout, arm, dismiss, Waiter, Site, Limiter, Event, disarm, answer,
  site_or_empty, empty_site, is_spent, store, allocated, release_site, store_released,
  release_locked, release,
}
use model_lib.Proxy.Limiter.Queue.{Queued, ids}
use model_lib.Proxy.Limiter.Invariant.{StoredInv, Inv, release_site_cases}
use model_lib.Proxy.Limiter.Permits.{active_of}
use model_lib.Proxy.Limiter.Release.{release-Sound}
use model_lib.Proxy.Limiter.Fairness.{granted_ids, queue_of, lookup-insert_self}

abbrev pub site_at : ℕ → Limiter → Site
site_at k l = site_or_empty (lookup k l.sites)

-- What is found of a site that was stored: nothing, if it was spent.
stored_site :
    (k : ℕ) (s : Site) (m : Map ℕ Site)
    → (site_or_empty (lookup k (store k s m)) ≡ s)
      ⊎ ((site_or_empty (lookup k (store k s m)) ≡ empty_site) × (s.queue ≡ []))
stored_site k s m =
    let self : (k == k) ≡ true = (==_iff k k).1 refl in
    elim (Bool-cases (is_spent s)) [
      | inl spent ↦ rw (spent, lookup-erase k k m, self) (inr (refl, ground (arith, spent)))
      | inr live ↦ rw (live, lookup-insert k k s m, self) (inl refl)
    ]

-- One permit comes back to the site `s`, which is `t` after it.
abbrev Passed : Site → Site → List Event → Type 0
Passed s t es =
    ((granted_ids es ≡ []) × (t.queue ≡ s.queue) × (s.queue ≡ []))
    ⊎ ((granted_ids es ≡ [])
        × (t.queue ≡ s.queue)
        × (t.active ≡ s.active - 1)
        × (t.maximum_active ≡ s.maximum_active)
        × (s.maximum_active < s.active))
    ⊎ ((w : Waiter) × (rest : List Waiter) × (s.queue ≡ w ∷ rest)
        × (granted_ids es ≡ w.waiter_id ∷ [])
        × (t.queue ≡ rest)
        × (t.active ≡ s.active)
        × (t.maximum_active ≡ s.maximum_active)
        × (s.active ≤ s.maximum_active))

-- The second half of `release`, when the permit is allocated.
abbrev handed : Limiter × Option Waiter → Limiter × List Event
handed (l, none) = (l, [])
handed (l, some w) = (l, disarm w.waiter_id ∷ answer w.waiter_id granted ∷ [])

release_by_parts : (l : Limiter) (k : ℕ) → release allocated l k ≡ handed (release_locked l k)
unfolding release
release_by_parts l k = elim (Option-cases (release_locked l k).1) [
  | inl e ↦ ground (arith, e)
  | inr (w, e) ↦ ground (arith, e)
]

release_opened :
    (l : Limiter) (k : ℕ) (s : Site) (r : Site × Option Waiter)
    → lookup k l.sites ≡ some s
    → release_site s ≡ r
    → release allocated l k ≡ handed (record l { sites = store_released k r l.sites }, r.1)
unfolding release_locked
release_opened l k s r found e =
    let opened : release_locked l k
        ≡ (record l { sites = store_released k (release_site s) l.sites }, (release_site s).1) =
      rw (found, release_locked) in
    release_by_parts l k
    ∙ ap handed (opened ∙ ap (λ x. (record l { sites = store_released k x l.sites }, x.1)) e)

release_known :
    (l : Limiter) (k : ℕ) (s : Site)
    → Queued 0 l.next_waiter_id s.queue
    → lookup k l.sites ≡ some s
    → Passed s (site_at k (release allocated l k).0) (release allocated l k).1
unfolding store_released granted_ids
release_known l k s waiting found = elim (release_site_cases l.next_waiter_id s waiting) [
  | inl (over, e) ↦
      subst (λ x. Passed s (site_at k x.0) x.1) (sym (release_opened l k s _ found e))
        (surplus over (stored_site k (record s { active = s.active - 1 }) l.sites))
  | inr (inl (fits, free, e)) ↦
      subst (λ x. Passed s (site_at k x.0) x.1) (sym (release_opened l k s _ found e))
        (freed free (stored_site k (record s { active = s.active - 1; queue = [] }) l.sites))
  | inr (inr (w, behind, fits, front, e)) ↦
      let t : Site = record s { queue = behind } in
      subst (λ x. Passed s (site_at k x.0) x.1) (sym (release_opened l k s _ found e))
        (rw (lookup-insert_self k t l.sites)
          (inr (inr (w, behind, front, refl, refl, refl, refl, fits))))
]
  where
    surplus :
        {t : Site}
        → s.maximum_active < s.active
        → (t ≡ record s { active = s.active - 1 }) ⊎ ((t ≡ empty_site) × (s.queue ≡ []))
        → Passed s t []
    surplus over (inl same) = inr (
        inl (
          refl,
          ap (λ (x : Site). x.queue) same,
          ap (λ (x : Site). x.active) same,
          ap (λ (x : Site). x.maximum_active) same,
          over,
        ))
    surplus over (inr (gone, none_waits)) =
        inl (refl, ap (λ (x : Site). x.queue) gone ∙ sym none_waits, none_waits)

    freed :
        {t : Site}
        → s.queue ≡ []
        → (t ≡ record s { active = s.active - 1; queue = [] })
          ⊎ ((t ≡ empty_site) × (◌≡◌ {A = List Waiter} [] []))
        → Passed s t []
    freed free (inl same) = inl (refl, ap (λ (x : Site). x.queue) same ∙ sym free, free)
    freed free (inr (gone, trivial)) = inl (refl, ap (λ (x : Site). x.queue) gone ∙ sym free, free)

-- So many permits of the site come back one after the other, with permits to hand on allocated.
abbrev pub return_permits : ℕ → Limiter → ℕ → Limiter × List Event
return_permits zero l k = (l, [])
return_permits (suc n) l k =
    let first = release allocated l k in
    let rest = return_permits n first.0 k in (rest.0, first.1 ++ rest.1)

granted_ids-append :
    (es fs : List Event) → granted_ids (es ++ fs) ≡ granted_ids es ++ granted_ids fs
unfolding granted_ids
granted_ids-append [] fs = refl
granted_ids-append (answer id granted ∷ es) fs = ap (◌∷◌ id) (granted_ids-append es fs)
granted_ids-append (answer id queue_full ∷ es) fs = granted_ids-append es fs
granted_ids-append (answer id queue_timeout ∷ es) fs = granted_ids-append es fs
granted_ids-append (arm id t ∷ es) fs = granted_ids-append es fs
granted_ids-append (disarm id ∷ es) fs = granted_ids-append es fs
granted_ids-append (dismiss id ∷ es) fs = granted_ids-append es fs

-- Of so many returned permits those beyond the limit of the site go to nobody.
abbrev pub free_for : ℕ → Site → ℕ
free_for n s = n - (s.active - s.maximum_active)

-- The first waiters of `s` are granted, and `t` keeps the others in their order.
abbrev pub Served : ℕ → Site → Site → List Event → Type 0
Served n s t es =
    (granted_ids es ≡ take (free_for n s) (ids s.queue))
    × (ids t.queue ≡ drop (free_for n s) (ids s.queue))

none_spread :
    (i j : ℕ) (q : List Waiter)
    → q ≡ []
    → (take i (ids q) ≡ take j (ids q)) × (drop i (ids q) ≡ drop j (ids q))
none_spread i j [] h = (none_taken i ∙ sym (none_taken j), none_dropped i ∙ sym (none_dropped j))
  where
    none_taken : (m : ℕ) → take {A = ℕ} m [] ≡ []
    none_taken zero = refl
    none_taken (suc m) = refl

    none_dropped : (m : ℕ) → drop {A = ℕ} m [] ≡ []
    none_dropped zero = refl
    none_dropped (suc m) = refl
none_spread i j (w ∷ q) h = absurd (cc h)

spread : (f : ℕ → List ℕ → List ℕ) (i j : ℕ) (x y : List ℕ) → i ≡ j → x ≡ y → f i x ≡ f j y
spread f i j x y same_count same = ap (λ n. f n x) same_count ∙ ap (f j) same

one_more :
    (n : ℕ) (s t u : Site) (es fs : List Event)
    → Passed s t es
    → Served n t u fs
    → Served (suc n) s u (es ++ fs)
one_more n s t u es fs (inl (silent, same, idle)) (now, left) =
    let empty = none_spread (free_for n t) (free_for (suc n) s) t.queue (same ∙ idle) in
    (
      granted_ids-append es fs
          ∙ ap (λ g. g ++ granted_ids fs) silent
          ∙ now
          ∙ empty.0
          ∙ ap (λ q. take (free_for (suc n) s) (ids q)) same,
      left ∙ empty.1 ∙ ap (λ q. drop (free_for (suc n) s) (ids q)) same,
    )
one_more n s t u es fs (inr (inl (silent, same, fewer, limit, over))) (now, left) =
    let count : free_for n t ≡ free_for (suc n) s = omega (arith, fewer, limit, over) in
    let queue = ap ids same in
    (
      granted_ids-append es fs
          ∙ ap (λ g. g ++ granted_ids fs) silent
          ∙ now
          ∙ spread take _ _ _ _ count queue,
      left ∙ spread drop _ _ _ _ count queue,
    )
one_more n s t u es fs (inr (inr (w, rest, front, first, behind, busy, limit, fits))) (now, left) =
    let count : free_for n t ≡ n = omega (arith, busy, limit, fits) in
    let count_all : free_for (suc n) s ≡ suc n = omega (arith, fits) in
    let queue = ap ids behind in
    let all = ap ids front in
    (
      granted_ids-append es fs
          ∙ ap (λ g. g ++ granted_ids fs) first
          ∙ ap (◌∷◌ w.waiter_id) (now ∙ spread take _ _ _ _ count queue)
          ∙ sym (spread take _ _ _ _ count_all all),
      left ∙ spread drop _ _ _ _ count queue ∙ sym (spread drop _ _ _ _ count_all all),
    )

release_once :
    (l : Limiter) (k : ℕ)
    → Inv l
    → 0 < active_of k l
    → Passed (site_at k l) (site_at k (release allocated l k).0) (release allocated l k).1
release_once l k v used = elim (Option-cases (lookup k l.sites)) [
  | inl absent ↦
      let nothing : active_of k l ≡ 0 = ap (λ o. (site_or_empty o).active) absent in
      absurd (omega (arith, used, nothing))
  | inr (s, found) ↦
      let kept = lookup-Entries (λ _. StoredInv l.next_waiter_id) k l.sites v.stored found in
      subst
        (λ o.
          Passed (site_or_empty o) (site_at k (release allocated l k).0) (release allocated l k).1)
        (sym found) (release_known l k s kept.0.waiting found)
]

-- When the invariant holds, and so many permits of a site, no more than it has slots in use, come back
-- one after the other, with the permits to hand on allocated: those beyond the limit of the site go to
-- nobody, and each of the others to the waiter then at the front of the queue, so that the first
-- waiters are granted in their order, and all others wait on in theirs.
pub release_order :
    (n : ℕ) (l : Limiter) (k : ℕ)
    → Inv l
    → n ≤ active_of k l
    → Served n (site_at k l) (site_at k (return_permits n l k).0) (return_permits n l k).1
unfolding granted_ids
release_order zero l k v enough =
    let none_free : free_for 0 (site_at k l) ≡ 0 = omega arith in
    (
      sym (ap (λ m. take m (ids (queue_of k l))) none_free),
      sym (ap (λ m. drop m (ids (queue_of k l))) none_free),
    )
release_order (suc n) l k v enough =
    let sound = release-Sound 0 l k v (omega (arith, enough)) in
    let passed = release_once l k v (omega (arith, enough)) in
    let first = release allocated l k in
    let self : (k == k) ≡ true = (==_iff k k).1 refl in
    let kept = rw self at (sound.1 k) in
    one_more n (site_at k l) (site_at k first.0) (site_at k (return_permits n first.0 k).0) first.1
      (return_permits n first.0 k).1 passed
      (release_order n first.0 k sound.0 (omega (arith, kept, enough)))
