-- ===== src/Proxy/Limiter/Queue.antt =====
-- src/proxy/BackendConcurrencyLimiter.cpp: the queue of one site, under promotion, release and
-- withdrawal.
use mathlib.Core.List.{map}
use model_lib.Base.{
  ℕ, suc, ◌+◌, ◌≤◌, ◌<◌, ◌^◌, ◌≡◌, refl, ◌⊎◌, inl, inr, true, false, List, [], ◌∷◌, ◌++◌, none,
  some, arith, inc64, length, max,
}
use model_lib.Proxy.Limiter.{Waiter, promote, next_waiter}
use model_lib.Proxy.Limiter.Waiters.{remove_waiter}

-- Waiters in the order of their ids, which lie between the bounds; none is completed.
abbrev pub Queued : ℕ → ℕ → List Waiter → Type 0
Queued lo hi [] = lo ≤ hi
Queued lo hi (w ∷ q) = (lo ≤ w.waiter_id) × (w.completed ≡ false) × Queued (suc w.waiter_id) hi q

pub Queued-le : (lo hi : ℕ) (q : List Waiter) → Queued lo hi q → lo ≤ hi
Queued-le lo hi [] h = h
Queued-le lo hi (w ∷ q) h = omega (arith, Queued-le (suc w.waiter_id) hi q h.2)

pub Queued-mono :
    (lo lo' hi hi' : ℕ) (q : List Waiter) → lo' ≤ lo → hi ≤ hi' → Queued lo hi q → Queued lo' hi' q
Queued-mono lo lo' hi hi' [] a b h = omega arith
Queued-mono lo lo' hi hi' (w ∷ q) a b h =
    (omega arith, h.1, Queued-mono (suc w.waiter_id) (suc w.waiter_id) hi hi' q (omega arith) b h.2)

pub Queued-tail : (lo hi : ℕ) (w : Waiter) (q : List Waiter) → Queued lo hi (w ∷ q) → Queued lo hi q
Queued-tail lo hi w q h = Queued-mono (suc w.waiter_id) lo hi hi q (omega arith) (omega arith) h.2

-- The newest waiter goes to the end.
pub Queued-concat :
    (lo hi : ℕ) (q : List Waiter) (w : Waiter)
    → w.waiter_id ≡ hi
    → w.completed ≡ false
    → Queued lo hi q
    → Queued lo (suc hi) (q ++ w ∷ [])
Queued-concat lo hi [] w e c h = (omega arith, c, omega arith)
Queued-concat lo hi (x ∷ q) w e c h =
    (omega arith, h.1, Queued-concat (suc x.waiter_id) hi q w e c h.2)

pub remove_waiter-Queued :
    (id lo hi : ℕ) (q : List Waiter) → Queued lo hi q → Queued lo hi (remove_waiter id q)
unfolding remove_waiter
remove_waiter-Queued id lo hi [] h = h
remove_waiter-Queued id lo hi (w ∷ q) h =
    ground (arith, Queued-tail lo hi w q h, remove_waiter-Queued id (suc w.waiter_id) hi q h.2)

pub promote-Queued :
    (m a lo hi : ℕ) (q : List Waiter) → Queued lo hi q → Queued lo hi (promote m a q).queue
unfolding promote
promote-Queued m a lo hi [] h = h
promote-Queued m a lo hi (w ∷ q) h =
    ground (arith, promote-Queued m (inc64 a) lo hi q (Queued-tail lo hi w q h))

-- Slots are counted without wrapping around, and handed out only below the maximum.
pub promote-active :
    (m a lo hi : ℕ) (q : List Waiter)
    → m < 2 ^ 32
    → Queued lo hi q
    → ((promote m a q).active ≡ a + length (promote m a q).promoted)
      × ((promote m a q).active ≤ max a m)
unfolding promote
promote-active m a lo hi [] b h = omega arith
promote-active m a lo hi (w ∷ q) b h =
    ground (arith, promote-active m (inc64 a) lo hi q b (Queued-tail lo hi w q h))

-- The loop ends with the queue served or the site full.
pub promote_ends :
    (m a : ℕ) (q : List Waiter) → ((promote m a q).queue ≡ []) ⊎ (m ≤ (promote m a q).active)
unfolding promote
promote_ends m a [] = inl refl
promote_ends m a (w ∷ q) = ground (arith, promote_ends m a q, promote_ends m (inc64 a) q)

abbrev pub ids : List Waiter → List ℕ
ids = map (λ w. w.waiter_id)

-- The promoted waiters are the front of the queue, in order.
pub promote_order :
    (m a lo hi : ℕ) (q : List Waiter)
    → Queued lo hi q
    → ids q ≡ ids (promote m a q).promoted ++ ids (promote m a q).queue
unfolding promote
promote_order m a lo hi [] h = refl
promote_order m a lo hi (w ∷ q) h =
    ground (arith, promote_order m (inc64 a) lo hi q (Queued-tail lo hi w q h))

-- `release` finds its waiter at once.
pub next_waiter-Queued :
    (lo hi : ℕ) (q : List Waiter)
    → Queued lo hi q
    → ((q ≡ []) × (next_waiter q ≡ (none, [])))
      ⊎ ((w : Waiter) × (rest : List Waiter) × (q ≡ w ∷ rest)
          × (next_waiter q ≡ (some (record w { completed = true }), rest)))
unfolding next_waiter
next_waiter-Queued lo hi [] h = inl (refl, refl)
next_waiter-Queued lo hi (w ∷ q) h = inr (w, q, refl, ground arith)
