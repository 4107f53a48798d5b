-- ===== src/Proxy/Limiter.antt =====
-- src/proxy/BackendConcurrencyLimiter.{hpp,cpp}. Each function is one call under the mutex with the
-- events that it causes outside. Sites' ids are `std::int64_t` by their 64-bit pattern.
pub mod Waiters
pub mod Queue
pub mod Invariant
pub mod Permits
pub mod Release
pub mod Upkeep
pub mod World
pub mod Fairness
pub mod Returning
pub mod Capacity
mod Tests
use model_lib.Base.Bytes.{Bytes}
use model_lib.Base.Map.{Map, lookup, insert, erase}
use model_lib.Base.{
  ℕ, zero, suc, ◌+◌, ◌-◌, ◌%◌, ◌^◌, Bool, true, false, ◌&&◌, List, [], ◌∷◌, ◌++◌, Option, none,
  some, ltb, leb, ◌==◌, if◌then◌else◌, inc64, length, nat_eq,
}

pub data AcquireResult : Type 0 where
  granted queue_full queue_timeout : AcquireResult

-- `Pending::State`; the mutex is held whenever `completed` is read or written.
pub record Waiter : Type 0 where
  pub site_id : ℕ
  pub waiter_id : ℕ
  pub completed : Bool

-- `Impl::SiteState`.
pub record Site : Type 0 where
  pub site_name : Bytes
  pub backend : Bytes
  pub maximum_active : ℕ
  pub maximum_queue : ℕ
  pub queue_timeout_seconds : ℕ
  pub active : ℕ
  pub rejected : ℕ
  pub timeouts : ℕ
  pub queue : List Waiter
  pub retired : Bool

-- `Impl`.
pub record Limiter : Type 0 where
  pub sites : Map ℕ Site
  pub next_waiter_id : ℕ

-- `arm` starts a waiter's timer, `disarm` cancels it; `answer` calls its handler, with a permit if
-- the result is `granted`; `dismiss` drops the handler without a call.
pub data Event : Type 0 where
  arm : ℕ → ℕ → Event
  disarm dismiss : ℕ → Event
  answer : ℕ → AcquireResult → Event

-- The arguments of `async_acquire` that a site keeps.
pub record Request : Type 0 where
  pub site_name : Bytes
  pub backend : Bytes
  pub maximum_active : ℕ
  pub maximum_queue : ℕ
  pub queue_timeout : ℕ

abbrev pub initial : Limiter
initial = record { sites = []; next_waiter_id = 1 }

-- What `sites[site_id]` inserts for a new key.
abbrev pub empty_site : Site
empty_site = record {
  site_name = [];
  backend = [];
  maximum_active = 0;
  maximum_queue = 0;
  queue_timeout_seconds = 0;
  active = 0;
  rejected = 0;
  timeouts = 0;
  queue = [];
  retired = false;
}

abbrev pub site_or_empty : Option Site → Site
site_or_empty none = empty_site
site_or_empty (some site) = site

abbrev pub is_empty : List Waiter → Bool
is_empty [] = true
is_empty (w ∷ q) = false

pub record Promotion : Type 0 where
  pub active : ℕ
  pub queue : List Waiter
  pub promoted : List Waiter

abbrev complete : Waiter → Waiter
complete w = record w { completed = true }

-- `while (site.active < maximum_active && !site.queue.empty())`.
pub promote : ℕ → ℕ → List Waiter → Promotion
promote maximum active [] = record { active = active; queue = []; promoted = [] }
promote maximum active (w ∷ q) =
    let rest = promote maximum (if w.completed then active else inc64 active) q in
    if ltb active maximum
    then record rest {
      promoted = if w.completed then rest.promoted else complete w ∷ rest.promoted;
    }
    else record { active = active; queue = w ∷ q; promoted = [] }

pub promotion_events : List Waiter → List Event
promotion_events [] = []
promotion_events (w ∷ ws) = disarm w.waiter_id ∷ answer w.waiter_id granted ∷ promotion_events ws

pub promote_site : Site → Site
promote_site site =
    let p = promote site.maximum_active site.active site.queue in
    record site { active = p.active; queue = p.queue }

pub promoted_by : Site → List Waiter
promoted_by site = (promote site.maximum_active site.active site.queue).promoted

-- The fields that `async_acquire` refreshes on every call.
pub configure : Request → Site → Site
configure r site = record site {
  retired = false;
  site_name = r.site_name;
  backend = r.backend;
  maximum_active = r.maximum_active;
  maximum_queue = r.maximum_queue;
  queue_timeout_seconds = r.queue_timeout % 2 ^ 32;
}

-- The decision on the new request itself: a slot, a refusal, or a place at the end of the queue.
pub enter : ℕ → ℕ → ℕ → Site → Site × List Event
enter site_id id timeout site =
    if is_empty site.queue && ltb site.active site.maximum_active
    then (record site { active = inc64 site.active }, answer id granted ∷ [])
    else if leb site.maximum_queue (length site.queue)
    then (record site { rejected = inc64 site.rejected }, answer id queue_full ∷ [])
    else (
      record site {
        queue =
            site.queue ++ (record { site_id = site_id; waiter_id = id; completed = false } ∷ []);
      },
      arm id timeout ∷ [],
    )

pub acquire : Limiter → ℕ → Request → Limiter × List Event
acquire l site_id r =
    let site = configure r (site_or_empty (lookup site_id l.sites)) in
    let entered = enter site_id l.next_waiter_id r.queue_timeout (promote_site site) in
    (
      record { sites = insert site_id entered.0 l.sites; next_waiter_id = inc64 l.next_waiter_id },
      promotion_events (promoted_by site) ++ entered.1,
    )

-- The search for the next waiter in `release`: those already completed are passed over.
pub next_waiter : List Waiter → Option Waiter × List Waiter
next_waiter [] = (none, [])
next_waiter (w ∷ q) = if w.completed then next_waiter q else (some (complete w), q)

abbrev pub is_spent : Site → Bool
is_spent site = site.retired && site.active == 0 && is_empty site.queue

-- A retired site is erased with its last permit and waiter.
abbrev pub store : ℕ → Site → Map ℕ Site → Map ℕ Site
store site_id site sites = if is_spent site then erase site_id sites else insert site_id site sites

-- `if (!next && site.active != 0) --site.active`.
abbrev give_back : Option Waiter → ℕ → ℕ
give_back none active = if active == 0 then active else active - 1
give_back (some w) active = active

pub pass_on : Site → Option Waiter × List Waiter → Site × Option Waiter
pass_on site (next, queue) =
    (record site { active = give_back next site.active; queue = queue }, next)

pub release_site : Site → Site × Option Waiter
unfolding pass_on
release_site site =
    if ltb site.maximum_active site.active
    then (record site { active = site.active - 1 }, none)
    else pass_on site (next_waiter site.queue)

-- A site whose slot went to a waiter is not erased.
pub store_released : ℕ → Site × Option Waiter → Map ℕ Site → Map ℕ Site
store_released site_id (site, none) sites = store site_id site sites
store_released site_id (site, some w) sites = insert site_id site sites

pub release_locked : Limiter → ℕ → Limiter × Option Waiter
release_locked l site_id = elim (lookup site_id l.sites) [
  | none ↦ (l, none)
  | some site ↦
      let released = release_site site in
      (record l { sites = store_released site_id released l.sites }, released.1)
]

-- How the allocation of the next waiter's permit goes: it succeeds; there is no memory for the
-- `Permit`, and then the release behind its refusal has an allocation to make in turn; or there is
-- none for the control block of the pointer to it, and then two releases have.
pub data Allocation : Type 0 where
  allocated : Allocation
  no_permit : Allocation → Allocation
  no_control_block : Allocation → Allocation → Allocation

-- A failed allocation refuses the waiter that was next and releases its slot again. Without a control
-- block the pointer first deletes the permit, whose destructor releases the slot as well.
pub release : Allocation → Limiter → ℕ → Limiter × List Event
release allocated l site_id =
    let (l', next) = release_locked l site_id in
    elim next [
      | none ↦ (l', [])
      | some w ↦ (l', disarm w.waiter_id ∷ answer w.waiter_id granted ∷ [])
    ]
release (no_permit later) l site_id =
    let (l', next) = release_locked l site_id in
    let again = release later l' site_id in
    elim next [
      | none ↦ (l', [])
      | some w ↦ (again.0, disarm w.waiter_id ∷ answer w.waiter_id queue_full ∷ again.1)
    ]
release (no_control_block deleting later) l site_id =
    let (l', next) = release_locked l site_id in
    let deleted = release deleting l' site_id in
    let again = release later deleted.0 site_id in
    elim next [
      | none ↦ (l', [])
      | some w ↦
          (again.0, disarm w.waiter_id ∷ deleted.1 ++ (answer w.waiter_id queue_full ∷ again.1))
    ]
