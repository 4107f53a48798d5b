-- ===== src/Policy/Request/Tokens.antt =====
-- src/policy/RequestPolicy.cpp: the list of recent clients and the entries of the rate limiter.
use model_lib.Base.Bytes.{Bytes, equal, equal_iff, bytes_eq}
use model_lib.Base.Map.{
  Map, lookup, insert, lookup-insert, lookup-erase, Distinct, insert-Distinct, erase-Distinct,
  length-erase_found, length-insert_found, length-insert,
}
use model_lib.Base.{
  ℕ, ◌+◌, ◌-◌, ◌≤◌, ◌<◌, ◌%◌, ◌≡◌, refl, ap, sym, subst, inl, inr, Bool, true, false, List, [], ◌∷◌,
  ◌++◌, Option, none, some, arith, leb, ◌==◌, if◌then◌else◌, is_some, length, Bool-cases,
  Option-cases, inc64,
}
use model_lib.Policy.Request.{RateLimitSpec}
use model_lib.Policy.Request.Rate.{
  Doubles, Entry, RateLimiter, remove_key, stale, fresh_entries, fresh_lru, cleanup, evict_front,
  evict_oldest, count_request, make_space, admit_new, visit, check_entry, check_counted, check,
  if_enabled, Checked, Memory, enough, no_node, no_entry, pop_back,
}

-- How often a key stands in the list.
abbrev pub times : Bytes → List Bytes → ℕ
times k [] = 0
times k (j ∷ js) = (if equal j k then 1 else 0) + times k js

times-append : (k : Bytes) (xs ys : List Bytes) → times k (xs ++ ys) ≡ times k xs + times k ys
times-append k [] ys = omega arith
times-append k (x ∷ xs) ys = omega (arith, times-append k xs ys)

times-remove_key :
    (k j : Bytes) (ks : List Bytes)
    → times k (remove_key j ks) ≡ times k ks - (if equal j k then 1 else 0)
unfolding remove_key
times-remove_key k j [] = omega arith
times-remove_key k j (x ∷ ks) =
    ground (arith, equal_iff x j, equal_iff j k, equal_iff x k, times-remove_key k j ks)

module _ {D : Type 0} where
  -- Each client with an entry stands in the list once and no other does; one entry to a client;
  -- no more entries than the cap.
  pub record Agrees (entries : Map Bytes (Entry D)) (lru : List Bytes) : Type 0 where
    pub distinct : Distinct entries
    pub listed : (k : Bytes) → times k lru ≡ (if is_some (lookup k entries) then 1 else 0)

  abbrev pub Fit : RateLimiter D → Type 0
  Fit l = Agrees l.entries l.lru × (length l.entries ≤ 65536)

  abbrev stale_found : RateLimitSpec → ℕ → Option (Entry D) → Bool
  stale_found spec now none = false
  stale_found spec now (some e) = stale spec now e

  fresh_missing :
      (spec : RateLimitSpec) (now : ℕ) (k : Bytes) (m : Map Bytes (Entry D))
      → lookup k m ≡ none
      → lookup k (fresh_entries spec now m) ≡ none
  unfolding fresh_entries lookup
  fresh_missing spec now k [] h = h
  fresh_missing spec now k ((j, e) ∷ m) h =
      ground (arith, equal_iff j k, h, fresh_missing spec now k m)

  lookup-fresh_entries :
      (spec : RateLimitSpec) (now : ℕ) (k : Bytes) (m : Map Bytes (Entry D))
      → Distinct m
      → lookup k (fresh_entries spec now m)
        ≡ (if stale_found spec now (lookup k m) then none else lookup k m)
  unfolding fresh_entries lookup
  lookup-fresh_entries spec now k [] d = refl
  lookup-fresh_entries spec now k ((j, e) ∷ m) d = ground (
    arith,
    equal_iff j k,
    d.0,
    fresh_missing spec now j m d.0,
    lookup-fresh_entries spec now k m d.1,
  )

  fresh_entries-Distinct :
      (spec : RateLimitSpec) (now : ℕ) (m : Map Bytes (Entry D))
      → Distinct m
      → Distinct (fresh_entries spec now m)
  unfolding fresh_entries
  fresh_entries-Distinct spec now [] d = tt
  fresh_entries-Distinct spec now ((j, e) ∷ m) d = elim (Bool-cases (stale spec now e)) [
    | inl f ↦ rw f (fresh_entries-Distinct spec now m d.1)
    | inr f ↦ rw f (fresh_missing spec now j m d.0, fresh_entries-Distinct spec now m d.1)
  ]

  length-fresh_entries :
      (spec : RateLimitSpec) (now : ℕ) (m : Map Bytes (Entry D))
      → length (fresh_entries spec now m) ≤ length m
  unfolding fresh_entries
  length-fresh_entries spec now [] = omega arith
  length-fresh_entries spec now ((j, e) ∷ m) = ground (arith, length-fresh_entries spec now m)

  times-fresh_lru :
      (spec : RateLimitSpec) (now : ℕ) (k : Bytes) (m : Map Bytes (Entry D)) (lru : List Bytes)
      → Distinct m
      → times k (fresh_lru spec now m lru)
        ≡ times k lru - (if stale_found spec now (lookup k m) then 1 else 0)
  unfolding fresh_lru lookup
  times-fresh_lru spec now k [] lru d = omega arith
  times-fresh_lru spec now k ((j, e) ∷ m) lru d = ground (
    arith,
    equal_iff j k,
    d.0,
    times-remove_key k j lru,
    times-fresh_lru spec now k m lru d.1,
    times-fresh_lru spec now k m (remove_key j lru) d.1,
  )

  cleanup-Fit :
      (spec : RateLimitSpec) (now : ℕ) (l : RateLimiter D) → Fit l → Fit (cleanup spec now l)
  unfolding cleanup
  cleanup-Fit spec now l (a, bound) = (
    record {
      distinct = fresh_entries-Distinct spec now l.entries a.distinct;
      listed = λ k. ground (
        arith,
        a.listed k,
        lookup-fresh_entries spec now k l.entries a.distinct,
        times-fresh_lru spec now k l.entries l.lru a.distinct,
      );
    },
    omega (arith, length-fresh_entries spec now l.entries, bound),
  )

  count_request-Fit :
      (spec : RateLimitSpec) (now : ℕ) (l : RateLimiter D) → Fit l → Fit (count_request spec now l)
  unfolding count_request
  count_request-Fit spec now l fit = elim (Bool-cases (inc64 l.request_count % 1024 == 0)) [
    | inl e ↦ rw e (cleanup-Fit spec now (record l { request_count = inc64 l.request_count }) fit)
    | inr e ↦ rw e fit
  ]

  front_key :
      (k : Bytes) (ks : List Bytes) (m : Map Bytes (Entry D))
      → Agrees m (k ∷ ks)
      → (e : Entry D) × (lookup k m ≡ some e)
  front_key k ks m a = elim (Option-cases (lookup k m)) [
    | inl missing ↦ absurd (
        let self : equal k k ≡ true = (equal_iff k k).1 refl in
        ground (arith, a.listed k, missing, self))
    | inr found ↦ found
  ]

  no_keys : (m : Map Bytes (Entry D)) → Agrees m [] → length m ≡ 0
  unfolding lookup
  no_keys [] a = refl
  no_keys ((k, e) ∷ m) a =
      absurd
        (let self : equal k k ≡ true = (equal_iff k k).1 refl in ground (arith, a.listed k, self))

  evict_front-Fit :
      (lru : List Bytes) (l : RateLimiter D)
      → Agrees l.entries lru
      → l.lru ≡ lru
      → length l.entries ≤ 65536
      → Agrees (evict_front lru l).entries (evict_front lru l).lru
        × (length (evict_front lru l).entries < 65536)
  unfolding evict_front
  evict_front-Fit [] l a same bound =
      (subst (Agrees l.entries) (sym same) a, omega (arith, no_keys l.entries a))
  evict_front-Fit (k ∷ ks) l a same bound =
      let (e, found) = front_key k ks l.entries a in
      (
        record {
          distinct = erase-Distinct k l.entries a.distinct;
          listed =
              λ j. ground (arith, a.listed j, lookup-erase k j l.entries, equal_iff k j, found);
        },
        omega (arith, length-erase_found k e l.entries found, bound),
      )

  make_space-Fit :
      (l : RateLimiter D)
      → Fit l
      → Agrees (make_space l).entries (make_space l).lru × (length (make_space l).entries < 65536)
  unfolding make_space evict_oldest
  make_space-Fit l (a, bound) = elim (Bool-cases (leb 65536 (length l.entries))) [
    | inl full ↦ rw full (evict_front-Fit l.lru l a refl bound)
    | inr room ↦ rw room (a, ground (arith, room))
  ]

  evict_missing :
      (k : Bytes) (lru : List Bytes) (l : RateLimiter D)
      → lookup k l.entries ≡ none
      → lookup k (evict_front lru l).entries ≡ none
  unfolding evict_front
  evict_missing k [] l h = h
  evict_missing k (j ∷ js) l h = ground (arith, h, lookup-erase j k l.entries)

  make_space_missing :
      (k : Bytes) (l : RateLimiter D)
      → lookup k l.entries ≡ none
      → lookup k (make_space l).entries ≡ none
  unfolding make_space evict_oldest
  make_space_missing k l h = elim (Bool-cases (leb 65536 (length l.entries))) [
    | inl full ↦ rw full (evict_missing k l.lru l h)
    | inr room ↦ rw room h
  ]

if_enabled-Fit :
    {D : Type 0} (on : Bool) (l : RateLimiter D) (result : RateLimiter D × Checked)
    → Fit l
    → Fit result.0
    → Fit (if_enabled on l result).0
unfolding if_enabled
if_enabled-Fit false l result fit after = fit
if_enabled-Fit true l result fit after = after

pop_back-append : (k : Bytes) (ks : List Bytes) → pop_back (ks ++ k ∷ []) ≡ ks
unfolding pop_back
pop_back-append k [] = refl
pop_back-append k (j ∷ []) = refl
pop_back-append k (j ∷ i ∷ ks) = ap (◌∷◌ j) (pop_back-append k (i ∷ ks))

module _ {D : Type 0} (doubles : Doubles D) (spec : RateLimitSpec) where
  new-Fit :
      (key : Bytes) (new : Entry D) (l : RateLimiter D)
      → Agrees l.entries l.lru
      → length l.entries < 65536
      → lookup key l.entries ≡ none
      → Fit (record l { entries = insert key new l.entries; lru = l.lru ++ key ∷ [] })
  new-Fit key new l a room missing = (
    record {
      distinct = insert-Distinct key new l.entries a.distinct;
      listed = λ k. ground (
        arith,
        a.listed k,
        times-append k l.lru (key ∷ []),
        lookup-insert key k new l.entries,
        equal_iff key k,
        missing,
      );
    },
    omega (arith, length-insert key new l.entries, room),
  )

  known-Fit :
      (key : Bytes) (old new : Entry D) (l : RateLimiter D)
      → Fit l
      → lookup key l.entries ≡ some old
      → Fit
          (record l { entries = insert key new l.entries; lru = remove_key key l.lru ++ key ∷ [] })
  known-Fit key old new l (a, bound) found = (
    record {
      distinct = insert-Distinct key new l.entries a.distinct;
      listed = λ k. ground (
        arith,
        a.listed k,
        times-append k (remove_key key l.lru) (key ∷ []),
        times-remove_key k key l.lru,
        lookup-insert key k new l.entries,
        equal_iff key k,
        found,
      );
    },
    omega (arith, length-insert_found key old new l.entries found, bound),
  )

  admit_new-Fit :
      (memory : Memory) (now : ℕ) (key : Bytes) (l : RateLimiter D)
      → Agrees l.entries l.lru
      → length l.entries < 65536
      → lookup key l.entries ≡ none
      → Fit (admit_new doubles spec memory now key l).0
  unfolding admit_new
  admit_new-Fit enough now key l a room missing = new-Fit key _ l a room missing
  admit_new-Fit no_node now key l a room missing = (a, omega (arith, room))
  admit_new-Fit no_entry now key l a room missing =
      (subst (Agrees l.entries) (sym (pop_back-append key l.lru)) a, omega (arith, room))

  check_counted-Fit :
      (memory : Memory) (now : ℕ) (key : Bytes) (l : RateLimiter D)
      → Fit l
      → Fit (check_counted doubles spec memory now key l).0
  unfolding check_counted check_entry
  check_counted-Fit memory now key l fit = elim (Option-cases (lookup key l.entries)) [
    | inl missing ↦
        let (a, room) = make_space-Fit l fit in
        rw missing
          (admit_new-Fit memory now key (make_space l) a room (make_space_missing key l missing))
    | inr (e, found) ↦ rw found (known-Fit key e (visit doubles spec now e).0 l fit found)
  ]

  -- Every check of the rate limiter, also one that throws because there is no memory for the node or
  -- for the entry of a new client, keeps one entry to a client and no more than 65536 of them,
  -- and a list of recent clients in which each client with an entry stands once and no other does.
  pub check-Fit :
      (memory : Memory) (now : ℕ) (key : Bytes) (l : RateLimiter D)
      → Fit l
      → Fit (check doubles spec memory now key l).0
  unfolding check
  check-Fit memory now key l fit =
      if_enabled-Fit spec.enabled l
        (check_counted doubles spec memory now key (count_request spec now l)) fit
        (check_counted-Fit memory now key (count_request spec now l)
          (count_request-Fit spec now l fit))
