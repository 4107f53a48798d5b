-- ===== src/Proxy/Limiter/Waiters.antt =====
-- src/proxy/BackendConcurrencyLimiter.cpp: a waiter that gives up, the operations on all sites, and
-- the metrics.
use model_lib.Base.Bytes.{Bytes}
use model_lib.Base.Map.{Map, lookup, insert}
use model_lib.Base.{
  ℕ, ◌+◌, ◌%◌, ◌^◌, Bool, true, false, ◌&&◌, List, [], ◌∷◌, ◌++◌, Option, none, some, ltb, ◌==◌,
  if◌then◌else◌, inc64, length, any, nat_eq,
}
use model_lib.Proxy.Limiter.{
  queue_timeout, Waiter, Site, Limiter, Event, disarm, dismiss, answer, promote_site, promoted_by,
  promotion_events, store, is_empty,
}

-- `find_if` and `erase` on a queue.
unfoldable pub find_waiter : ℕ → List Waiter → Option Waiter
find_waiter id [] = none
find_waiter id (w ∷ q) = if w.waiter_id == id then some w else find_waiter id q

unfoldable pub remove_waiter : ℕ → List Waiter → List Waiter
remove_waiter id [] = []
remove_waiter id (w ∷ q) = if w.waiter_id == id then q else w ∷ remove_waiter id q

-- A waiter that has not been completed, taken out of its queue.
unfoldable pub withdraw : ℕ → Site → Option Site
withdraw id site = elim (find_waiter id site.queue) [
  | none ↦ none
  | some w ↦
      if w.completed then none else some (record site { queue = remove_waiter id site.queue })
]

unfoldable pub cancel_site : Limiter → ℕ → ℕ → Option Site → Limiter × List Event
cancel_site l site_id id none = (l, [])
cancel_site l site_id id (some site) =
    (record l { sites = store site_id site l.sites }, disarm id ∷ dismiss id ∷ [])

unfoldable pub withdraw_from : ℕ → Option Site → Option Site
withdraw_from id none = none
withdraw_from id (some site) = withdraw id site

unfoldable pub cancel_pending : Limiter → ℕ → ℕ → Limiter × List Event
unfolding cancel_site withdraw_from withdraw
cancel_pending l site_id id = cancel_site l site_id id (withdraw_from id (lookup site_id l.sites))

unfoldable pub timeout_site : Limiter → ℕ → ℕ → Option Site → Limiter × List Event
timeout_site l site_id id none = (l, [])
timeout_site l site_id id (some site) =
    let counted = record site { rejected = inc64 site.rejected; timeouts = inc64 site.timeouts } in
    (record l { sites = store site_id counted l.sites }, answer id queue_timeout ∷ [])

unfoldable pub timeout_pending : Limiter → ℕ → ℕ → Limiter × List Event
unfolding timeout_site withdraw_from withdraw
timeout_pending l site_id id = timeout_site l site_id id (withdraw_from id (lookup site_id l.sites))

-- The new limits of a site that is known, before its waiters are promoted.
unfoldable pub set_limits : ℕ → ℕ → Site → Site
set_limits maximum_active maximum_queue site = record site {
  retired = false;
  maximum_active = maximum_active;
  maximum_queue = maximum_queue;
}

unfoldable pub update_limits : Limiter → ℕ → ℕ → ℕ → Limiter × List Event
unfolding set_limits
update_limits l site_id maximum_active maximum_queue = elim (lookup site_id l.sites) [
  | none ↦ (l, [])
  | some site ↦
      let limited = set_limits maximum_active maximum_queue site in
      (
        record l { sites = insert site_id (promote_site limited) l.sites },
        promotion_events (promoted_by limited),
      )
]

abbrev pub contains : List ℕ → ℕ → Bool
contains ids id = any (λ i. i == id) ids

unfoldable pub retain : List ℕ → Map ℕ Site → Map ℕ Site
retain ids [] = []
retain ids ((id, site) ∷ sites) =
    let rest = retain ids sites in
    let retired = record site { retired = true } in
    if contains ids id
    then (id, site) ∷ rest
    else if site.active == 0 && is_empty site.queue
    then rest
    else (id, retired) ∷ rest

unfoldable pub retain_sites : Limiter → List ℕ → Limiter
unfolding retain
retain_sites l ids = record l { sites = retain ids l.sites }

-- The waiters that `clear` completes.
unfoldable pub unfinished : List Waiter → List Event
unfinished [] = []
unfinished (w ∷ q) =
    let rest = unfinished q in
    if w.completed then rest else disarm w.waiter_id ∷ dismiss w.waiter_id ∷ rest

unfoldable pub unfinished_of : Map ℕ Site → List Event
unfolding unfinished
unfinished_of [] = []
unfinished_of ((id, site) ∷ sites) = unfinished site.queue ++ unfinished_of sites

unfoldable pub clear : Limiter → Limiter × List Event
unfolding unfinished_of
clear l = (record l { sites = [] }, unfinished_of l.sites)

-- `BackendConcurrencyMetrics`.
pub record Metrics : Type 0 where
  pub site_id : ℕ
  pub site_name : Bytes
  pub backend : Bytes
  pub maximum_active : ℕ
  pub maximum_queue : ℕ
  pub queue_timeout_seconds : ℕ
  pub active_connections : ℕ
  pub queue_length : ℕ
  pub rejected_requests : ℕ
  pub queue_timeouts : ℕ

unfoldable pub metrics_of : ℕ → Site → Metrics
metrics_of id site = record {
  site_id = id;
  site_name = site.site_name;
  backend = site.backend;
  maximum_active = site.maximum_active;
  maximum_queue = site.maximum_queue;
  queue_timeout_seconds = site.queue_timeout_seconds;
  active_connections = site.active;
  queue_length = length site.queue;
  rejected_requests = site.rejected;
  queue_timeouts = site.timeouts;
}

-- The order of two `std::int64_t` given by their bit patterns.
abbrev pub signed_lt : ℕ → ℕ → Bool
signed_lt a b = ltb ((a + 2 ^ 63) % 2 ^ 64) ((b + 2 ^ 63) % 2 ^ 64)

-- `std::sort` by `site_id`; the ids are distinct, so the result does not depend on the algorithm.
unfoldable pub insert_metrics : Metrics → List Metrics → List Metrics
insert_metrics m [] = m ∷ []
insert_metrics m (n ∷ ns) =
    if signed_lt n.site_id m.site_id then n ∷ insert_metrics m ns else m ∷ n ∷ ns

unfoldable pub metrics_list : Map ℕ Site → List Metrics
unfolding insert_metrics metrics_of
metrics_list [] = []
metrics_list ((id, site) ∷ sites) = insert_metrics (metrics_of id site) (metrics_list sites)

unfoldable pub metrics : Limiter → List Metrics
unfolding metrics_list
metrics l = metrics_list l.sites
