-- ===== src/Policy/Request/Rate.antt =====
-- src/policy/RequestPolicy.cpp: `RateLimiter`. Tokens are `double`s, which are a parameter; readings
-- of the steady clock are in nanoseconds, and 0 is the time point that stands for no ban.
use model_lib.Base.Bytes.{Bytes, equal, bytes_eq}
use model_lib.Base.Map.{Map, lookup, insert, erase}
use model_lib.Base.{
  ℕ, ◌+◌, ◌-◌, ◌*◌, ◌/◌, ◌%◌, ◌^◌, Bool, true, false, not, ◌&&◌, ◌||◌, List, [], ◌∷◌, ◌++◌, Option,
  none, some, ltb, leb, ◌==◌, if◌then◌else◌, inc64, length, max,
}
use model_lib.Policy.Request.{RateLimitSpec}

-- The operations of `double` that the source uses. `elapsed now updated` is the difference in
-- seconds, which is negative when `now`, read before the lock, is the earlier one; `seconds_up` is
-- `ceil`, cast to a `std::uint32_t`.
pub record Doubles (D : Type 0) : Type 0 where
  pub from_nat : ℕ → D
  pub elapsed : ℕ → ℕ → D
  pub add : D → D → D
  pub subtract : D → D → D
  pub multiply : D → D → D
  pub divide : D → D → D
  pub less : D → D → Bool
  pub seconds_up : D → ℕ

pub record Entry (D : Type 0) : Type 0 where
  pub tokens : D
  pub updated : ℕ
  pub banned_until : ℕ

-- The iterator of an entry into `lru` is the place of its key.
pub record RateLimiter (D : Type 0) : Type 0 where
  pub entries : Map Bytes (Entry D)
  pub lru : List Bytes
  pub request_count : ℕ

-- Whether there is memory for a new client: for all of it, for no node of `lru`, or for the node and
-- not for the entry.
pub data Memory : Type 0 where
  enough no_node no_entry : Memory

-- What `check` answers: the request goes on, or waits so many seconds, or an exception is thrown.
pub data Checked : Type 0 where
  passed no_memory : Checked
  waits : ℕ → Checked

unfoldable pub checked : Option ℕ → Checked
checked none = passed
checked (some seconds) = waits seconds

abbrev pub second : ℕ
second = 10 ^ 9

-- The constructor's checks.
unfoldable pub rate_limit_valid : RateLimitSpec → Bool
rate_limit_valid spec =
    not spec.enabled
    || not (spec.window_seconds == 0 || ltb 3600 spec.window_seconds)
      && not (spec.max_requests == 0 || ltb 1000000 spec.max_requests)
      && not (ltb 86400 spec.ban_seconds)

unfoldable pub remove_key : Bytes → List Bytes → List Bytes
remove_key key [] = []
remove_key key (k ∷ ks) = if equal k key then ks else k ∷ remove_key key ks

unfoldable pub pop_back : List Bytes → List Bytes
pop_back [] = []
pop_back (k ∷ []) = []
pop_back (k ∷ j ∷ ks) = k ∷ pop_back (j ∷ ks)

-- `seconds_until`, for a deadline that is not over.
unfoldable pub seconds_until : ℕ → ℕ → ℕ
seconds_until deadline now = max 1 (((deadline - now) / 10 ^ 6 + 999) / 1000 % 2 ^ 32)

module _ {D : Type 0} where
  unfoldable pub stale : RateLimitSpec → ℕ → Entry D → Bool
  stale spec now e =
      leb e.banned_until now
      && ltb ((spec.window_seconds + spec.ban_seconds + 1) % 2 ^ 32 * second) (now - e.updated)

  unfoldable pub fresh_entries : RateLimitSpec → ℕ → Map Bytes (Entry D) → Map Bytes (Entry D)
  fresh_entries spec now [] = []
  fresh_entries spec now ((k, e) ∷ m) =
      if stale spec now e then fresh_entries spec now m else (k, e) ∷ fresh_entries spec now m

  unfoldable pub fresh_lru : RateLimitSpec → ℕ → Map Bytes (Entry D) → List Bytes → List Bytes
  fresh_lru spec now [] lru = lru
  fresh_lru spec now ((k, e) ∷ m) lru =
      fresh_lru spec now m (if stale spec now e then remove_key k lru else lru)

  unfoldable pub cleanup : RateLimitSpec → ℕ → RateLimiter D → RateLimiter D
  cleanup spec now l = record l {
    entries = fresh_entries spec now l.entries;
    lru = fresh_lru spec now l.entries l.lru;
  }

  unfoldable pub evict_front : List Bytes → RateLimiter D → RateLimiter D
  evict_front [] l = l
  evict_front (k ∷ ks) l = record l { entries = erase k l.entries; lru = ks }

  unfoldable pub evict_oldest : RateLimiter D → RateLimiter D
  evict_oldest l = evict_front l.lru l

  -- `++request_count_`, and a cleanup at every 1024th request.
  unfoldable pub count_request : RateLimitSpec → ℕ → RateLimiter D → RateLimiter D
  count_request spec now l =
      let counted : RateLimiter D = record l { request_count = inc64 l.request_count } in
      if counted.request_count % 1024 == 0 then cleanup spec now counted else counted

  unfoldable pub make_space : RateLimiter D → RateLimiter D
  make_space l = if leb 65536 (length l.entries) then evict_oldest l else l

unfoldable pub if_enabled :
    {D : Type 0} → Bool → RateLimiter D → RateLimiter D × Checked → RateLimiter D × Checked
if_enabled false l result = (l, passed)
if_enabled true l result = result

module _ {D : Type 0} (doubles : Doubles D) (spec : RateLimitSpec) where
  open doubles use {from_nat, elapsed, add, subtract, multiply, divide, less, seconds_up}

  -- A client that has no entry, when there is a place for it.
  unfoldable pub admit_new : Memory → ℕ → Bytes → RateLimiter D → RateLimiter D × Checked
  admit_new no_node now key l = (l, no_memory)
  admit_new no_entry now key l = (record l { lru = pop_back (l.lru ++ key ∷ []) }, no_memory)
  admit_new enough now key l = (
    record l {
      entries =
          insert key
            (record { tokens = from_nat (spec.max_requests - 1); updated = now; banned_until = 0 })
            l.entries;
      lru = l.lru ++ key ∷ [];
    },
    passed,
  )

  unfoldable pub lift_ban : ℕ → Entry D → Entry D
  lift_ban now e =
      if e.banned_until == 0
      then e
      else record { tokens = from_nat spec.max_requests; updated = now; banned_until = 0 }

  unfoldable pub refill_per_second : D
  refill_per_second = divide (from_nat spec.max_requests) (from_nat spec.window_seconds)

  -- `std::min(maximum, tokens + elapsed * refill)`.
  unfoldable pub refill : ℕ → Entry D → Entry D
  refill now e =
      let full = add e.tokens (multiply (elapsed now e.updated) refill_per_second) in
      record e {
        tokens =
            if less full (from_nat spec.max_requests) then full else from_nat spec.max_requests;
        updated = now;
      }

  unfoldable pub spend : ℕ → Entry D → Entry D × Option ℕ
  spend now e =
      if not (less e.tokens (from_nat 1))
      then (record e { tokens = subtract e.tokens (from_nat 1) }, none)
      else (if spec.ban_seconds == 0
          then (
            e,
            some (max 1 (seconds_up (divide (subtract (from_nat 1) e.tokens) refill_per_second))),
          )
          else (record e { banned_until = now + spec.ban_seconds * second }, some spec.ban_seconds))

  unfoldable pub visit : ℕ → Entry D → Entry D × Option ℕ
  visit now e =
      if ltb now e.banned_until
      then (e, some (seconds_until e.banned_until now))
      else spend now (refill now (lift_ban now e))

  unfoldable pub check_entry :
      Memory → Option (Entry D) → ℕ → Bytes → RateLimiter D → RateLimiter D × Checked
  check_entry memory none now key l = admit_new memory now key (make_space l)
  check_entry memory (some e) now key l =
      let seen = visit now e in
      (
        record l { entries = insert key seen.0 l.entries; lru = remove_key key l.lru ++ key ∷ [] },
        checked seen.1,
      )

  unfoldable pub check_counted : Memory → ℕ → Bytes → RateLimiter D → RateLimiter D × Checked
  check_counted memory now key l = check_entry memory (lookup key l.entries) now key l

  unfoldable pub check : Memory → ℕ → Bytes → RateLimiter D → RateLimiter D × Checked
  check memory now key l =
      if_enabled spec.enabled l (check_counted memory now key (count_request spec now l))
