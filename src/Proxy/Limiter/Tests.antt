-- ===== src/Proxy/Limiter/Tests.antt =====
-- Runs of the limiter, and its theorems at a site with one slot and a queue of one.
use model_lib.Base.Bytes.{codes}
use model_lib.Base.Map.{lookup, insert}
use model_lib.Base.{◌<◌, ◌≤◌, ◌≡◌, refl, ◌≢◌, ◌⊎◌, false, [], ◌∷◌, some, arith, max, nat_eq}
use model_lib.Proxy.Limiter.{
  granted, queue_full, Waiter, Site, Limiter, Request, disarm, answer, site_or_empty, acquire,
  allocated, no_control_block, release, release_locked, release_site, next_waiter, pass_on,
  store_released, promotion_events, promote_site, promoted_by, promote, enter, configure,
}
use model_lib.Proxy.Limiter.Queue.{Queued, ids}
use model_lib.Proxy.Limiter.Permits.{active_of}
use model_lib.Proxy.Limiter.World.{
  World, Reach, Step, here, next, acquires, start, after, Reach-WorldInv, active-held,
  site_invariant,
}
use model_lib.Proxy.Limiter.Fairness.{Ordered, queue_of, acquire_order}
use model_lib.Proxy.Limiter.Returning.{site_at, Served, return_permits, release_order}
use model_lib.Proxy.Limiter.Capacity.{maximum_of, Step-Within}

abbrev request : Request
request = record {
  site_name = codes "shop";
  backend = codes "10.0.0.1:8090";
  maximum_active = 1;
  maximum_queue = 1;
  queue_timeout = 5;
}

-- One request holds the slot, the next waits.
abbrev served : World
served = after start 7 0 (acquire start.limiter 7 request)

abbrev waiting : World
waiting = after served 7 0 (acquire served.limiter 7 request)

served-acquires : Step start served
served-acquires = acquires start 7 request (omega arith) (omega arith)

Reach-served : Reach start served
Reach-served = next here served-acquires

Reach-waiting : Reach start waiting
unfolding acquire lookup
Reach-waiting = next Reach-served (acquires served 7 request (omega arith) (omega arith))

abbrev waiter : Waiter
waiter = record { site_id = 7; waiter_id = 2; completed = false }

abbrev full_site : Site
full_site = record {
  site_name = codes "shop";
  backend = codes "10.0.0.1:8090";
  maximum_active = 1;
  maximum_queue = 1;
  queue_timeout_seconds = 5;
  active = 1;
  rejected = 0;
  timeouts = 0;
  queue = waiter ∷ [];
  retired = false;
}

waiting-sites : waiting.limiter.sites ≡ (7, full_site) ∷ []
unfolding acquire lookup insert configure promote_site promote enter promoted_by
waiting-sites = refl

third_refused : (acquire waiting.limiter 7 request).1 ≡ answer 3 queue_full ∷ []
unfolding acquire lookup insert configure promote_site promote enter promoted_by promotion_events
third_refused = refl

known : lookup 7 waiting.limiter.sites ≡ some full_site
unfolding lookup
known = rw waiting-sites refl

active-held_example : active_of 7 waiting.limiter ≡ waiting.held 7
active-held_example = active-held Reach-waiting 7

site_invariant_example :
    Queued 0 waiting.limiter.next_waiter_id full_site.queue
    × ((full_site.queue ≡ []) ⊎ (full_site.maximum_active ≤ full_site.active))
    × ((full_site.retired ≡ false) ⊎ (0 < full_site.active) ⊎ (full_site.queue ≢ []))
site_invariant_example = site_invariant Reach-waiting 7 full_site known

acquire_order_example :
    Ordered request
      (ids (queue_of 7 waiting.limiter))
      waiting.limiter.next_waiter_id
      (acquire waiting.limiter 7 request).1
      (site_or_empty (lookup 7 (acquire waiting.limiter 7 request).0.sites))
acquire_order_example =
    acquire_order waiting.limiter 7 request (Reach-WorldInv Reach-waiting).inv (omega arith)

used : 1 ≤ active_of 7 waiting.limiter
unfolding acquire lookup
used = rw waiting-sites (omega arith)

release_order_example :
    Served 1
      (site_at 7 waiting.limiter)
      (site_at 7 (return_permits 1 waiting.limiter 7).0)
      (return_permits 1 waiting.limiter 7).1
release_order_example = release_order 1 waiting.limiter 7 (Reach-WorldInv Reach-waiting).inv used

-- Two permits of the site are alive, and one waits.
abbrev crowded : Limiter
crowded = record {
  sites = (7, record full_site { maximum_active = 2; active = 2 }) ∷ [];
  next_waiter_id = 3;
}

next_granted : (release allocated crowded 7).1 ≡ disarm 2 ∷ answer 2 granted ∷ []
unfolding release release_locked release_site next_waiter pass_on lookup
next_granted = refl

-- Without a control block the one slot is given back twice: one permit is still alive, and no slot is
-- in use.
given_back_twice :
    (release (no_control_block allocated allocated) crowded 7).0.sites
    ≡ (7, record full_site { maximum_active = 2; active = 0; queue = [] }) ∷ []
unfolding release release_locked release_site next_waiter pass_on store_released lookup insert
given_back_twice = refl

Step-Within_example :
    active_of 7 served.limiter ≤ max (active_of 7 start.limiter) (maximum_of 7 served.limiter)
Step-Within_example = Step-Within served-acquires (Reach-WorldInv here) 7
