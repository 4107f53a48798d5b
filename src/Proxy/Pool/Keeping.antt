-- ===== src/Proxy/Pool/Keeping.antt =====
-- src/proxy/BackendConnectionPool.cpp: the shape of the map, and the interleavings of the calls.
use model_lib.Base.Bytes.{Bytes, bytes_eq}
use model_lib.Base.Map.{
  Map, lookup, Entries, Distinct, insert-Entries, erase-Entries, lookup-Entries, insert-Distinct,
  erase-Distinct,
}
use model_lib.Base.{
  ℕ, ◌<◌, ◌≡◌, ◌≢◌, ◌||◌, subst, ap, inl, inr, Bool, not, List, [], ◌∷◌, none, some, arith, length,
  Option-cases, Bool-cases, ltb, ◌==◌,
}
use model_lib.Proxy.Pool.{
  IdleConnection, Pool, undefined, detached, detach, detach_from, without, store_rest, release,
  push_back, clear, stop, recompute, reap, reap_idle, keep_list, unexpired, idle_at,
}

-- One key, one list, and no list is empty.
pub record WellFormed (p : Pool) : Type 0 where
  pub distinct : Distinct p.idle
  pub filled : Entries (λ k cs. 0 < length cs) p.idle

-- One critical section, with the streams that come into the pool and those that leave it.
pub data Step : Pool → List ℕ → Pool → List ℕ → Type 0 where
  detaches :
      {p q : Pool} {c : IdleConnection} (key : Bytes)
      → detach key p ≡ detached c q
      → Step p [] q (c.stream ∷ [])
  releases :
      {p : Pool} (reusable : ℕ → Bool) (now : ℕ) (key : Bytes) (stream maximum_idle idle_ttl : ℕ)
      → Step p
          (stream ∷ [])
          (release reusable now key stream maximum_idle idle_ttl p).0
          (release reusable now key stream maximum_idle idle_ttl p).1
  clears : {p : Pool} → Step p [] (clear p).0 (clear p).1
  stops : {p : Pool} → Step p [] (stop p) []
  recomputes : {p : Pool} → Step p [] (recompute p) []
  reaps : {p : Pool} (now : ℕ) → Step p [] (reap now p).0 (reap now p).1

pub detached_parts :
    (key : Bytes) (p q : Pool) (c : IdleConnection)
    → detach key p ≡ detached c q
    → (cs : List IdleConnection) × (lookup key p.idle ≡ some (c ∷ cs)) × (without key c cs p ≡ q)
unfolding detach detach_from
detached_parts key p q c found = elim (Option-cases (lookup key p.idle)) [
  | inl e ↦ absurd (let h = rw e at found in cc h)
  | inr ([], e) ↦ absurd (let h = rw e at found in cc h)
  | inr (b ∷ cs, e) ↦
      let h : detach_from (some (b ∷ cs)) key p ≡ detached c q = rw e at found in
      let same : b ≡ c = cc h in
      let rest : without key b cs p ≡ q = cc h in
      (
        cs,
        (subst (λ x. lookup key p.idle ≡ some (x ∷ cs)) same e),
        subst (λ x. without key x cs p ≡ q) same rest,
      )
]

store_rest-WellFormed :
    (key : Bytes) (cs : List IdleConnection) (p : Pool)
    → WellFormed p
    → Distinct (store_rest key cs p) × Entries (λ k ds. 0 < length ds) (store_rest key cs p)
unfolding store_rest
store_rest-WellFormed key [] p w =
    (erase-Distinct key p.idle w.distinct, erase-Entries _ key p.idle w.filled)
store_rest-WellFormed key (c ∷ cs) p w = (
  insert-Distinct key (c ∷ cs) p.idle w.distinct,
  insert-Entries _ key (c ∷ cs) p.idle (omega arith) w.filled,
)

detach-WellFormed :
    (key : Bytes) (p q : Pool) (c : IdleConnection)
    → detach key p ≡ detached c q
    → WellFormed p
    → WellFormed q
unfolding without
detach-WellFormed key p q c found w =
    let (cs, at_key, step) = detached_parts key p q c found in
    let kept = store_rest-WellFormed key cs p w in
    let same : store_rest key cs p ≡ q.idle = ap (λ (x : Pool). x.idle) step in
    record {
      distinct = subst Distinct same kept.0;
      filled = subst (Entries (λ k ds. 0 < length ds)) same kept.1;
    }

push_back-WellFormed :
    (maximum_idle idle_ttl now : ℕ) (key : Bytes) (stream : ℕ) (p : Pool)
    → 0 < maximum_idle
    → WellFormed p
    → WellFormed (push_back maximum_idle idle_ttl now key stream (idle_at (lookup key p.idle)) p).0
unfolding push_back
push_back-WellFormed maximum_idle idle_ttl now key stream p room w =
    let cs = idle_at (lookup key p.idle) in
    elim (Bool-cases (ltb (length cs) maximum_idle)) [
      | inl e ↦ rw e record {
        distinct = insert-Distinct key _ p.idle w.distinct;
        filled = insert-Entries _ key _ p.idle (omega arith) w.filled;
      }
      | inr e ↦ rw e record {
        distinct = insert-Distinct key _ p.idle w.distinct;
        filled = insert-Entries _ key _ p.idle (ground (arith, e, room)) w.filled;
      }
    ]

release-WellFormed :
    (reusable : ℕ → Bool) (now : ℕ) (key : Bytes) (stream maximum_idle idle_ttl : ℕ) (p : Pool)
    → WellFormed p
    → WellFormed (release reusable now key stream maximum_idle idle_ttl p).0
unfolding release
release-WellFormed reusable now key stream maximum_idle idle_ttl p w =
    elim (Bool-cases
      ((maximum_idle == 0 || idle_ttl == 0 || not (reusable stream)) || p.stopping)) [
        | inl e ↦ rw e w
        | inr e ↦
            rw e (push_back-WellFormed maximum_idle idle_ttl now key stream p (ground (arith, e)) w)
      ]

keep_list-kept :
    (k : Bytes) (cs : List IdleConnection) (m : Map Bytes (List IdleConnection))
    → lookup k m ≡ none
    → Distinct m
    → Entries (λ k cs. 0 < length cs) m
    → Distinct (keep_list k cs m) × Entries (λ k cs. 0 < length cs) (keep_list k cs m)
unfolding keep_list
keep_list-kept k [] m free d filled = (d, filled)
keep_list-kept k (c ∷ cs) m free d filled = ((free, d), (omega arith, filled))

lookup-keep_list :
    (k : Bytes) (cs ds : List IdleConnection) (key : Bytes) (m n : Map Bytes (List IdleConnection))
    → (lookup key m ≡ none → lookup key n ≡ none)
    → lookup key ((k, ds) ∷ m) ≡ none
    → lookup key (keep_list k cs n) ≡ none
unfolding keep_list lookup
lookup-keep_list k [] ds key m n gone h = ground (arith, h, gone)
lookup-keep_list k (c ∷ cs) ds key m n gone h = ground (arith, h, gone)

lookup-reap_idle :
    (now : ℕ) (key : Bytes) (m : Map Bytes (List IdleConnection))
    → lookup key m ≡ none
    → lookup key (reap_idle now m) ≡ none
unfolding reap_idle
lookup-reap_idle now key [] h = h
lookup-reap_idle now key ((k, cs) ∷ m) h =
    lookup-keep_list k (unexpired now cs) cs key m (reap_idle now m) (lookup-reap_idle now key m) h

reap-kept :
    (now : ℕ) (m : Map Bytes (List IdleConnection))
    → Distinct m
    → Distinct (reap_idle now m) × Entries (λ k cs. 0 < length cs) (reap_idle now m)
unfolding reap_idle
reap-kept now [] d = (tt, tt)
reap-kept now ((k, cs) ∷ m) d =
    let (kept, filled) = reap-kept now m d.1 in
    keep_list-kept k (unexpired now cs) (reap_idle now m) (lookup-reap_idle now k m d.0) kept filled

-- Every critical section keeps the pool well formed: one list to a key, and no list is empty.
pub Step-WellFormed :
    {p q : Pool} {came went : List ℕ} → Step p came q went → WellFormed p → WellFormed q
unfolding clear stop recompute reap
Step-WellFormed {p} {q} (detaches {c = c} key found) w = detach-WellFormed key p q c found w
Step-WellFormed {p} (releases reusable now key stream maximum_idle idle_ttl) w =
    release-WellFormed reusable now key stream maximum_idle idle_ttl p w
Step-WellFormed clears w = record { distinct = tt; filled = tt }
Step-WellFormed stops w = record { distinct = w.distinct; filled = w.filled }
Step-WellFormed recomputes w = record { distinct = w.distinct; filled = w.filled }
Step-WellFormed {p} (reaps now) w =
    let (kept, filled) = reap-kept now p.idle w.distinct in
    record { distinct = kept; filled = filled }

-- In a well-formed pool `acquire` does not take the back of an empty list.
pub detach_defined : (key : Bytes) (p : Pool) → WellFormed p → detach key p ≢ undefined
unfolding detach detach_from
detach_defined key p w invalid = elim (Option-cases (lookup key p.idle)) [
  | inl e ↦ let h = rw e at invalid in cc h
  | inr ([], e) ↦ ground (arith, lookup-Entries (λ k cs. 0 < length cs) key p.idle w.filled e)
  | inr (c ∷ cs, e) ↦ let h = rw e at invalid in cc h
]
