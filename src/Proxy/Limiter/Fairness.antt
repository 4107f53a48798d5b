-- ===== src/Proxy/Limiter/Fairness.antt =====
-- src/proxy/BackendConcurrencyLimiter.cpp: who gets a slot. A queue is read by the ids in it.
use mathlib.Core.List.{append-nil, append_assoc, map-append}
use model_lib.Base.Map.{Map, lookup, insert, lookup-insert}
use model_lib.Base.{
  ℕ, ◌≤◌, ◌<◌, ◌^◌, ◌≡◌, refl, sym, ap, subst, ◌∙◌, ◌⊎◌, inl, inr, false, List, [], ◌∷◌, ◌++◌, some,
  arith, length, length-append, nat_eq, ==_iff,
}
use model_lib.Proxy.Limiter.{
  granted, queue_full, Waiter, Site, Limiter, Request, Event, answer, Promotion, site_or_empty,
  promote, promote_site, promoted_by, promotion_events, configure, enter, acquire,
}
use model_lib.Proxy.Limiter.Queue.{ids, promote_order}
use model_lib.Proxy.Limiter.Invariant.{SiteInv, SiteFit, Inv, promote_site-SiteInv}
use model_lib.Proxy.Limiter.Permits.{site_or_empty-SiteFit}

-- The waiters that are granted a slot, in order.
unfoldable pub granted_ids : List Event → List ℕ
granted_ids [] = []
granted_ids (answer id granted ∷ es) = id ∷ granted_ids es
granted_ids (e ∷ es) = granted_ids es

granted_ids-promotion_events :
    (ws : List Waiter) (es : List Event)
    → granted_ids (promotion_events ws ++ es) ≡ ids ws ++ granted_ids es
unfolding granted_ids promotion_events
granted_ids-promotion_events [] es = refl
granted_ids-promotion_events (w ∷ ws) es = ap (◌∷◌ w.waiter_id) (granted_ids-promotion_events ws es)

abbrev pub queue_of : ℕ → Limiter → List Waiter
queue_of k l = (site_or_empty (lookup k l.sites)).queue

-- What `enter` does to a site `s`, for the request with id `id`.
abbrev Entered : ℕ → Site → Site × List Event → Type 0
Entered id s (t, es) =
    ((ids s.queue ++ id ∷ [] ≡ granted_ids es ++ ids t.queue) × (length t.queue ≤ s.maximum_queue))
    ⊎ ((ids t.queue ≡ ids s.queue)
        × (es ≡ answer id queue_full ∷ [])
        × (s.maximum_queue ≤ length t.queue)
        × (s.maximum_active ≤ t.active))

enter-Entered :
    (site_id n id timeout : ℕ) (s : Site) → SiteInv n s → Entered id s (enter site_id id timeout s)
unfolding enter granted_ids
enter-Entered site_id n id timeout s v =
    let w : Waiter = record { site_id = site_id; waiter_id = id; completed = false } in
    ground (
      arith,
      map-append (λ (x : Waiter). x.waiter_id) s.queue (w ∷ []),
      length-append s.queue (w ∷ []),
    )

in_turn :
    (ps qs gs rest all : List ℕ) (n : ℕ)
    → all ≡ ps ++ qs
    → qs ++ n ∷ [] ≡ gs ++ rest
    → all ++ n ∷ [] ≡ (ps ++ gs) ++ rest
in_turn ps qs gs rest all n e h =
    rw e (append_assoc ps qs (n ∷ []) ∙ ap (◌++◌ ps) h ∙ sym (append_assoc ps gs rest))

pub lookup-insert_self : (k : ℕ) (s : Site) (m : Map ℕ Site) → lookup k (insert k s m) ≡ some s
lookup-insert_self k s m = rw (lookup-insert k k s m, (==_iff k k).1 refl)

-- The waiters `before` and the request `n`, the events, and the site after them.
abbrev pub Ordered : Request → List ℕ → ℕ → List Event → Site → Type 0
Ordered r before n es site =
    ((before ++ n ∷ [] ≡ granted_ids es ++ ids site.queue) × (length site.queue ≤ r.maximum_queue))
    ⊎ ((before ≡ granted_ids es ++ ids site.queue)
        × (r.maximum_queue ≤ length site.queue)
        × (r.maximum_active ≤ site.active))

-- When the invariant holds, `acquire` has one of two outcomes at its site. Either the waiters before
-- and then the new request are, in this order, those granted a slot and then those still waiting,
-- whose number is within the new limit; or the waiters before are those granted and then those still
-- waiting, and the new request is refused, with the queue full and no slot free.
pub acquire_order :
    (l : Limiter) (k : ℕ) (r : Request)
    → Inv l
    → r.maximum_active < 2 ^ 32
    → Ordered r
        (ids (queue_of k l))
        l.next_waiter_id
        (acquire l k r).1
        (site_or_empty (lookup k (acquire l k r).0.sites))
unfolding acquire configure promote_site promoted_by granted_ids
acquire_order l k r v word =
    subst
      (λ o. Ordered r (ids (queue_of k l)) n (promotion_events p.promoted ++ e.1) (site_or_empty o))
      (sym (lookup-insert_self k e.0 l.sites)) served
  where
    n : ℕ
    n = l.next_waiter_id

    site : Site
    site = configure r (site_or_empty (lookup k l.sites))

    fit : SiteFit n site
    fit = site_or_empty-SiteFit l k r (lookup k l.sites) v word refl

    p : Promotion
    p = promote site.maximum_active site.active site.queue

    e : Site × List Event
    e = enter k n r.queue_timeout (promote_site site)

    order : ids site.queue ≡ ids p.promoted ++ ids p.queue
    order = promote_order site.maximum_active site.active 0 n site.queue fit.waiting

    granted_first :
        granted_ids (promotion_events p.promoted ++ e.1) ≡ ids p.promoted ++ granted_ids e.1
    granted_first = granted_ids-promotion_events p.promoted e.1

    served : Ordered r (ids site.queue) n (promotion_events p.promoted ++ e.1) e.0
    served =
        elim (enter-Entered k n n r.queue_timeout (promote_site site)
          (promote_site-SiteInv n site fit)) [
            | inl (turn, room) ↦ inl (
              rw granted_first (
                  in_turn (ids p.promoted) (ids p.queue) (granted_ids e.1) (ids e.0.queue) _ n order
                    turn),
              room,
            )
            | inr (same, refused, full, busy) ↦
                inr (rw (granted_first, refused, same, append-nil) order, full, busy)
          ]
