-- ===== src/Proxy/Limiter/World.antt =====
-- src/proxy/BackendConcurrencyLimiter.cpp: every interleaving of the operations, each of which holds
-- the mutex, with the permits that the program holds. `clear` is a step while
-- none is alive.
use model_lib.Base.Map.{lookup, lookup-Entries}
use model_lib.Base.{
  ℕ, ◌+◌, ◌-◌, ◌≤◌, ◌<◌, ◌^◌, ◌≡◌, ◌≢◌, refl, sym, ◌⊎◌, false, List, [], some, arith, ◌==◌,
  if◌then◌else◌, nat_eq, ==_iff,
}
use model_lib.Proxy.Limiter.{Site, Limiter, Request, Event, initial, is_spent, acquire, release}
use model_lib.Proxy.Limiter.Waiters.{
  cancel_pending, timeout_pending, update_limits, retain_sites, clear,
}
use model_lib.Proxy.Limiter.Queue.{Queued}
use model_lib.Proxy.Limiter.Invariant.{StoredInv, Inv}
use model_lib.Proxy.Limiter.Permits.{grants, active_of, Accounts, acquire-Inv, acquire-Accounts}
use model_lib.Proxy.Limiter.Release.{release-Sound, refusing}
use model_lib.Proxy.Limiter.Upkeep.{
  cancel_pending-Sound, timeout_pending-Sound, update_limits-Sound, retain_sites-Sound,
}

-- `held` counts the `Permit` objects of each site that are alive.
pub record World : Type 0 where
  pub limiter : Limiter
  pub held : ℕ → ℕ

abbrev pub after : World → ℕ → ℕ → Limiter × List Event → World
after w k returned (l, es) = record {
  limiter = l;
  held = λ j. w.held j - (if k == j then returned else 0) + (if k == j then grants es else 0);
}

-- Ids do not wrap around: 2 ^ 64 requests are not made. The control blocks of the pointers to permits are
-- allocated, and so is what `async_acquire` allocates. `clear`, by which the server stops, is a step
-- while no permit is alive.
pub data Step : World → World → Type 0 where
  acquires :
      (w : World) (k : ℕ) (r : Request)
      → r.maximum_active < 2 ^ 32
      → w.limiter.next_waiter_id + 1 < 2 ^ 64
      → Step w (after w k 0 (acquire w.limiter k r))
  releases :
      (w : World) (k failures : ℕ)
      → 0 < w.held k
      → Step w (after w k 1 (release (refusing failures) w.limiter k))
  cancels : (w : World) (k id : ℕ) → Step w (after w k 0 (cancel_pending w.limiter k id))
  times_out : (w : World) (k id : ℕ) → Step w (after w k 0 (timeout_pending w.limiter k id))
  updates :
      (w : World) (k m q : ℕ) → m < 2 ^ 32 → Step w (after w k 0 (update_limits w.limiter k m q))
  retains : (w : World) (ids : List ℕ) → Step w (record w { limiter = retain_sites w.limiter ids })
  clears :
      (w : World) → ((k : ℕ) → w.held k ≡ 0) → Step w (record w { limiter = (clear w.limiter).0 })

pub data Reach (s : World) : World → Type 0 where
  here : Reach s s
  next : {t u : World} → Reach s t → Step t u → Reach s u

abbrev pub start : World
start = record { limiter = initial; held = λ _. 0 }

pub record WorldInv (w : World) : Type 0 where
  pub inv : Inv w.limiter
  pub permits : (j : ℕ) → active_of j w.limiter ≡ w.held j

after-WorldInv :
    (w : World) (k returned : ℕ) (r : Limiter × List Event)
    → returned ≤ w.held k
    → WorldInv w
    → Inv r.0
    → Accounts k returned w.limiter r
    → WorldInv (after w k returned r)
after-WorldInv w k returned (l, es) room v inv accounts = record {
  inv = inv;
  permits = λ j. ground (arith, ==_iff k j, accounts j, v.permits j);
}

Step-WorldInv : {w w' : World} → Step w w' → WorldInv w → WorldInv w'
unfolding clear lookup
Step-WorldInv (acquires w k r word room) v =
    after-WorldInv w k 0 _ (omega arith) v (acquire-Inv w.limiter k r v.inv word room)
      (acquire-Accounts w.limiter k r v.inv word)
Step-WorldInv (releases w k failures h) v =
    let sound = release-Sound failures w.limiter k v.inv (omega (arith, v.permits k)) in
    after-WorldInv w k 1 _ h v sound.0 sound.1
Step-WorldInv (cancels w k id) v =
    let sound = cancel_pending-Sound w.limiter k id v.inv in
    after-WorldInv w k 0 _ (omega arith) v sound.0 sound.1
Step-WorldInv (times_out w k id) v =
    let sound = timeout_pending-Sound w.limiter k id v.inv in
    after-WorldInv w k 0 _ (omega arith) v sound.0 sound.1
Step-WorldInv (updates w k m q word) v =
    let sound = update_limits-Sound w.limiter k m q v.inv word in
    after-WorldInv w k 0 _ (omega arith) v sound.0 sound.1
Step-WorldInv (clears w none_alive) v = record {
  inv = record { distinct = tt; stored = tt };
  permits = λ j. sym (none_alive j);
}
Step-WorldInv (retains w ids) v =
    let sound = retain_sites-Sound w.limiter ids v.inv in
    record { inv = sound.0; permits = λ j. omega (arith, sound.1 j, v.permits j) }

start-WorldInv : WorldInv start
unfolding lookup
start-WorldInv = record { inv = record { distinct = tt; stored = tt }; permits = λ j. refl }

pub Reach-WorldInv : {w : World} → Reach start w → WorldInv w
Reach-WorldInv here = start-WorldInv
Reach-WorldInv (next r s) = Step-WorldInv s (Reach-WorldInv r)

-- In every state that is reached by fewer than 2 ^ 64 requests and by the other calls, of which `clear`
-- comes only while no permit is alive, and with no failed allocation but of `Permit` objects in
-- `release`, the slots in use at each site are the
-- permits of that site that are alive.
pub active-held : {w : World} → Reach start w → (k : ℕ) → active_of k w.limiter ≡ w.held k
active-held r k = (Reach-WorldInv r).permits k

in_use : (s : Site) → is_spent s ≡ false → (s.retired ≡ false) ⊎ (0 < s.active) ⊎ (s.queue ≢ [])
in_use s live = ground arith

-- In every reachable state, at every known site: waiters stand in the order of their requests, with
-- ids that were given out and none of them completed; nobody waits while a slot is free; and a
-- retired site still has a slot in use or a waiter.
pub site_invariant :
    {w : World}
    → Reach start w
    → (k : ℕ) (s : Site) → lookup k w.limiter.sites ≡ some s
    → Queued 0 w.limiter.next_waiter_id s.queue
      × ((s.queue ≡ []) ⊎ (s.maximum_active ≤ s.active))
      × ((s.retired ≡ false) ⊎ (0 < s.active) ⊎ (s.queue ≢ []))
site_invariant {w} r k s found =
    let v = Reach-WorldInv r in
    let (kept, live) =
      lookup-Entries (λ _. StoredInv w.limiter.next_waiter_id) k w.limiter.sites v.inv.stored
        found in
    (kept.waiting, kept.busy, in_use s live)
