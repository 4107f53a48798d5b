-- ===== src/Proxy/Pool/Counting.antt =====
-- src/proxy/BackendConnectionPool.cpp: no stream is lost or used twice.
use model_lib.Base.Bytes.{Bytes, bytes_eq, equal_iff}
use model_lib.Base.Map.{Map, lookup, insert, erase, Distinct}
use model_lib.Base.{
  ℕ, ◌+◌, ◌≡◌, refl, subst, ap, inl, inr, Bool, not, ◌||◌, List, [], ◌∷◌, ◌++◌, none, some, arith,
  length, Bool-cases, if◌then◌else◌, ltb, ◌==◌,
}
use model_lib.Proxy.Pool.{
  IdleConnection, Pool, detached, detach, without, store_rest, push_back, release, clear, stop,
  recompute, reap, reap_idle, reap_closed, keep_list, unexpired, expired, idle_at, streams,
  streams_all,
}
use model_lib.Proxy.Pool.Keeping.{
  WellFormed, Step, detaches, releases, clears, stops, recomputes, reaps, detached_parts,
}

-- How often a stream stands in a list.
abbrev pub occurs : ℕ → List ℕ → ℕ
occurs s [] = 0
occurs s (x ∷ xs) = (if x == s then 1 else 0) + occurs s xs

pub occurs-append : (s : ℕ) (xs ys : List ℕ) → occurs s (xs ++ ys) ≡ occurs s xs + occurs s ys
occurs-append s [] ys = omega arith
occurs-append s (x ∷ xs) ys = omega (arith, occurs-append s xs ys)

-- How often a stream stands under one key, and in the map.
abbrev pub held : ℕ → List IdleConnection → ℕ
held s [] = 0
held s (c ∷ cs) = (if c.stream == s then 1 else 0) + held s cs

abbrev pub held_all : ℕ → Map Bytes (List IdleConnection) → ℕ
held_all s [] = 0
held_all s ((k, cs) ∷ m) = held s cs + held_all s m

occurs-streams : (s : ℕ) (cs : List IdleConnection) → occurs s (streams cs) ≡ held s cs
unfolding streams
occurs-streams s [] = refl
occurs-streams s (c ∷ cs) =
    omega (arith, occurs-append s (streams cs) (c.stream ∷ []), occurs-streams s cs)

pub occurs-streams_all :
    (s : ℕ) (m : Map Bytes (List IdleConnection)) → occurs s (streams_all m) ≡ held_all s m
unfolding streams_all
occurs-streams_all s [] = refl
occurs-streams_all s ((k, cs) ∷ m) = omega (
  arith,
  occurs-append s (streams cs) (streams_all m),
  occurs-streams s cs,
  occurs-streams_all s m,
)

held_all-insert :
    (s : ℕ) (key : Bytes) (cs : List IdleConnection) (m : Map Bytes (List IdleConnection))
    → held_all s (insert key cs m) + held s (idle_at (lookup key m)) ≡ held_all s m + held s cs
unfolding insert lookup idle_at
held_all-insert s key cs [] = omega arith
held_all-insert s key cs ((k, ds) ∷ m) = ground (arith, held_all-insert s key cs m)

erase_missing :
    (key : Bytes) (m : Map Bytes (List IdleConnection)) → lookup key m ≡ none → erase key m ≡ m
unfolding lookup erase
erase_missing key [] h = refl
erase_missing key ((k, cs) ∷ m) h = ground (arith, h, erase_missing key m)

held_all-erase :
    (s : ℕ) (key : Bytes) (m : Map Bytes (List IdleConnection))
    → Distinct m
    → held_all s (erase key m) + held s (idle_at (lookup key m)) ≡ held_all s m
unfolding lookup erase idle_at
held_all-erase s key [] d = refl
held_all-erase s key ((k, cs) ∷ m) d =
    ground (arith, held_all-erase s key m d.1, erase_missing k m d.0, equal_iff k key)

held_all-store_rest :
    (s : ℕ) (key : Bytes) (c : IdleConnection) (cs : List IdleConnection) (p : Pool)
    → Distinct p.idle
    → lookup key p.idle ≡ some (c ∷ cs)
    → held_all s p.idle ≡ held_all s (store_rest key cs p) + (if c.stream == s then 1 else 0)
unfolding store_rest idle_at
held_all-store_rest s key c [] p d e =
    let h = held_all-erase s key p.idle d in
    let taken : held s (idle_at (lookup key p.idle)) ≡ held s (c ∷ []) = rw e refl in
    omega (arith, h, taken)
held_all-store_rest s key c (b ∷ cs) p d e =
    let h = held_all-insert s key (b ∷ cs) p.idle in
    let taken : held s (idle_at (lookup key p.idle)) ≡ held s (c ∷ b ∷ cs) = rw e refl in
    omega (arith, h, taken)

held-unexpired :
    (s now : ℕ) (cs : List IdleConnection)
    → held s (unexpired now cs) + held s (expired now cs) ≡ held s cs
unfolding unexpired expired
held-unexpired s now [] = refl
held-unexpired s now (c ∷ cs) = ground (arith, held-unexpired s now cs)

held_all-keep_list :
    (s : ℕ) (k : Bytes) (cs : List IdleConnection) (m : Map Bytes (List IdleConnection))
    → held_all s (keep_list k cs m) ≡ held s cs + held_all s m
unfolding keep_list
held_all-keep_list s k [] m = omega arith
held_all-keep_list s k (c ∷ cs) m = refl

held_all-reap :
    (s now : ℕ) (m : Map Bytes (List IdleConnection))
    → held_all s (reap_idle now m) + occurs s (reap_closed now m) ≡ held_all s m
unfolding reap_idle reap_closed
held_all-reap s now [] = refl
held_all-reap s now ((k, cs) ∷ m) = omega (
  arith,
  held_all-keep_list s k (unexpired now cs) (reap_idle now m),
  occurs-append s (streams (expired now cs)) (reap_closed now m),
  occurs-streams s (expired now cs),
  held-unexpired s now cs,
  held_all-reap s now m,
)

pub detach-held :
    (s : ℕ) (key : Bytes) (p q : Pool) (c : IdleConnection)
    → detach key p ≡ detached c q
    → WellFormed p
    → held_all s p.idle ≡ held_all s q.idle + (if c.stream == s then 1 else 0)
unfolding without
detach-held s key p q c found w =
    let (cs, at_key, step) = detached_parts key p q c found in
    let same : store_rest key cs p ≡ q.idle = ap (λ (x : Pool). x.idle) step in
    subst (λ m. held_all s p.idle ≡ held_all s m + (if c.stream == s then 1 else 0)) same
      (held_all-store_rest s key c cs p w.distinct at_key)

pub release-held :
    (s : ℕ) (reusable : ℕ → Bool) (now : ℕ) (key : Bytes) (stream maximum_idle idle_ttl : ℕ)
    (p : Pool)
    → held_all s p.idle + (if stream == s then 1 else 0)
      ≡ held_all s (release reusable now key stream maximum_idle idle_ttl p).0.idle
        + occurs s (release reusable now key stream maximum_idle idle_ttl p).1
unfolding release push_back
release-held s reusable now key stream maximum_idle idle_ttl p =
    let cs = idle_at (lookup key p.idle) in
    elim (Bool-cases
      ((maximum_idle == 0 || idle_ttl == 0 || not (reusable stream)) || p.stopping)) [
        | inl e ↦ rw e (omega arith)
        | inr e ↦ elim (Bool-cases (ltb (length cs) maximum_idle)) [
          | inl f ↦ rw (e, f) (omega (arith, held_all-insert s key (_ ∷ cs) p.idle))
          | inr f ↦ rw (e, f) (omega (arith, held_all-insert s key cs p.idle))
        ]
      ]

-- Every critical section on a well-formed pool conserves streams: a stream stands as often among
-- the idle ones before and those that came in as among the idle ones after and those that left,
-- to be closed or handed to the caller.
pub Step-conserves :
    {p q : Pool} {came went : List ℕ} (s : ℕ)
    → Step p came q went
    → WellFormed p
    → occurs s (streams_all p.idle) + occurs s came ≡ occurs s (streams_all q.idle) + occurs s went
unfolding clear stop recompute reap
Step-conserves {p} {q} s (detaches {c = c} key found) w = omega (
  arith,
  detach-held s key p q c found w,
  occurs-streams_all s p.idle,
  occurs-streams_all s q.idle,
)
Step-conserves {p} s (releases reusable now key stream maximum_idle idle_ttl) w = omega (
  arith,
  release-held s reusable now key stream maximum_idle idle_ttl p,
  occurs-streams_all s p.idle,
  occurs-streams_all s (release reusable now key stream maximum_idle idle_ttl p).0.idle,
)
Step-conserves {p} s clears w = omega (arith, occurs-streams_all s [])
Step-conserves s stops w = refl
Step-conserves s recomputes w = refl
Step-conserves {p} s (reaps now) w = omega (
  arith,
  held_all-reap s now p.idle,
  occurs-streams_all s p.idle,
  occurs-streams_all s (reap_idle now p.idle),
)
