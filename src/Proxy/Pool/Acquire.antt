-- ===== src/Proxy/Pool/Acquire.antt =====
-- src/proxy/BackendConnectionPool.cpp: the loop of `acquire`, with the calls of other threads between
-- its turns.
use model_lib.Base.Bytes.{Bytes, bytes_eq}
use model_lib.Base.Map.{lookup, lookup-insert, lookup-erase}
use model_lib.Base.{
  ℕ, zero, suc, ◌+◌, ◌≤◌, ◌<◌, ◌≡◌, refl, ap, inl, inr, ◌⊎◌, Bool, true, List, [], ◌∷◌, none, arith,
  length, Option-cases, Bool-cases,
}
use model_lib.Proxy.Pool.{
  IdleConnection, Pool, Result, taken, nothing, detached, missing, detach, detach_from, without,
  store_rest, acquire, continue_with, try_detached, close_first, usable, idle_at,
}
use model_lib.Proxy.Pool.Keeping.{WellFormed, Step, Step-WellFormed, detaches, detach_defined}

idle_left :
    (key : Bytes) (c : IdleConnection) (cs : List IdleConnection) (p : Pool)
    → idle_at (lookup key (without key c cs p).idle) ≡ cs
unfolding without store_rest idle_at
idle_left key c [] p = ground (arith, lookup-erase key key p.idle, bytes_eq.beq_iff key key)
idle_left key c (b ∷ cs) p =
    ground (arith, lookup-insert key key (b ∷ cs) p.idle, bytes_eq.beq_iff key key)

-- What `detach` does in a well-formed pool.
detach-cases :
    (key : Bytes) (p : Pool)
    → WellFormed p
    → ((detach key p ≡ missing) × (lookup key p.idle ≡ none))
      ⊎ ((c : IdleConnection) × (cs : List IdleConnection) × (detach key p
            ≡ detached c (without key c cs p))
          × (idle_at (lookup key p.idle) ≡ c ∷ cs))
unfolding detach detach_from idle_at
detach-cases key p w = elim (Option-cases (lookup key p.idle)) [
  | inl e ↦ inl (rw e refl, e)
  | inr ([], e) ↦ absurd (detach_defined key p w (unfold detach detach_from in rw e refl))
  | inr (c ∷ cs, e) ↦ inr (c, cs, rw e refl, rw e refl)
]

-- Critical sections one after the other, of any threads.
pub data Runs : Pool → Pool → Type 0 where
  here : {p : Pool} → Runs p p
  next : {p q r : Pool} {coming left : List ℕ} → Step p coming q left → Runs q r → Runs p r

Runs-WellFormed : {p q : Pool} → Runs p q → WellFormed p → WellFormed q
Runs-WellFormed here w = w
Runs-WellFormed (next step later) w = Runs-WellFormed later (Step-WellFormed step w)

runs_on : {p q r : Pool} → Runs p q → Runs q r → Runs p r
runs_on here later = later
runs_on (next step first) later = next step (runs_on first later)

-- How `acquire` may end that begins in the pool `p`: with nothing under the key, or with a connection
-- that its last critical section took off the back of the key's list, and that passed the test.
abbrev pub Ends : (ℕ → Bool) → (ℕ → ℕ) → Bytes → ℕ → Pool → Result → Type 0
Ends reusable clock key idle_ttl p r =
    ((r.outcome ≡ nothing) × (lookup key r.pool.idle ≡ none) × Runs p r.pool)
    ⊎ ((c : IdleConnection) × (cs : List IdleConnection) × (q : Pool) × (turn : ℕ) × (r.outcome
          ≡ taken c)
        × (idle_at (lookup key q.idle) ≡ c ∷ cs)
        × (r.pool ≡ without key c cs q)
        × Runs p q
        × (usable reusable idle_ttl (clock turn) c ≡ true))

later-Ends :
    (reusable : ℕ → Bool) (clock : ℕ → ℕ) (key : Bytes) (idle_ttl : ℕ) (p q : Pool) (stream : ℕ)
    (r : Result)
    → Runs p q
    → Ends reusable clock key idle_ttl q r
    → Ends reusable clock key idle_ttl p (close_first stream r)
unfolding close_first
later-Ends reusable clock key idle_ttl p q stream r run (inl (out, free, later)) =
    inl (out, free, runs_on run later)
later-Ends reusable clock key idle_ttl p q stream r run
      (inr (c, cs, q', turn, out, at, left, later, fit)) =
    inr (c, cs, q', turn, out, at, left, runs_on run later, fit)

-- What arrives in the last `n` turns.
abbrev pub arriving : (ℕ → ℕ) → ℕ → ℕ
arriving arrivals zero = 0
arriving arrivals (suc n) = arrivals n + arriving arrivals n

module _ (others : ℕ → Pool → Pool) (reusable : ℕ → Bool) (clock : ℕ → ℕ) (key : Bytes)
    (idle_ttl : ℕ) (arrivals : ℕ → ℕ) (run : (turn : ℕ) (q : Pool) → Runs q (others turn q))
    (bound : (turn : ℕ) (q : Pool)
      → length (idle_at (lookup key (others turn q).idle))
        ≤ length (idle_at (lookup key q.idle)) + arrivals turn) where
  -- Between the turns of `acquire` other threads may run any critical sections of the pool, of which
  -- those behind a turn add so many connections at most under the key. If these and the ones idle under
  -- the key at first are fewer than the turns allowed, the loop in a well-formed pool ends in one of two
  -- ways: nothing is idle under the key any more; or the connection that it returns was the one last
  -- put back under the key, is removed from the pool, and passed the test of its age, its deadline and
  -- its socket at the reading of some turn.
  pub acquire-Ends :
      (fuel : ℕ) (p : Pool)
      → WellFormed p
      → length (idle_at (lookup key p.idle)) + arriving arrivals fuel < fuel
      → Ends reusable clock key idle_ttl p (acquire fuel others reusable clock key idle_ttl p)
  unfolding acquire continue_with try_detached
  acquire-Ends zero p w enough = absurd (omega (arith, enough))
  acquire-Ends (suc fuel) p w enough = elim (detach-cases key p w) [
    | inl (e, free) ↦ rw e (inl (refl, free, here))
    | inr (c, cs, e, stood) ↦ rw e elim (Bool-cases (usable reusable idle_ttl (clock fuel) c)) [
      | inl fit ↦ rw fit (inr (c, cs, p, fuel, refl, stood, refl, here, fit))
      | inr unfit ↦
          let q = without key c cs p in
          let q' = others fuel q in
          let on : Runs p q' = next (detaches key e) (run fuel q) in
          rw unfit (
            later-Ends reusable clock key idle_ttl p q' c.stream
              (acquire fuel others reusable clock key idle_ttl q') on
              (acquire-Ends fuel q' (Runs-WellFormed on w) (
                omega (
                  arith,
                  enough,
                  bound fuel q,
                  ap (λ ds. length ds) stood,
                  ap (λ ds. length ds) (idle_left key c cs p),
                ))))
    ]
  ]
