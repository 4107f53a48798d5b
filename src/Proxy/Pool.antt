-- ===== src/Proxy/Pool.antt =====
-- src/proxy/BackendConnectionPool.{hpp,cpp}: the idle connections to backends. A stream is a number.
-- Readings of the steady clock are in nanoseconds, and `now + idle_ttl` is taken not to overflow;
-- a negative `idle_ttl` is treated as zero is. A list of idle connections stands back first.
pub mod Keeping
pub mod Counting
pub mod Acquire
pub mod Deadline
mod Tests
use model_lib.Base.Bytes.{Bytes, bytes_eq}
use model_lib.Base.Map.{Map, lookup, insert, erase}
use model_lib.Base.{
  ℕ, zero, suc, ◌+◌, ◌-◌, ◌*◌, ◌^◌, Bool, true, false, not, ◌&&◌, ◌||◌, List, [], ◌∷◌, ◌++◌, Option,
  none, some, ltb, leb, ◌==◌, if◌then◌else◌, length, min,
}

pub record IdleConnection : Type 0 where
  pub stream : ℕ
  pub released_at : ℕ
  pub expires_at : ℕ

pub record Pool : Type 0 where
  pub idle : Map Bytes (List IdleConnection)
  pub next_expiration : Option ℕ
  pub stopping : Bool

unfoldable pub nanoseconds : ℕ → ℕ
nanoseconds seconds = seconds * 10 ^ 9

-- The critical section of `acquire`: the connection taken off the back and the pool without it.
-- `undefined` is `back()` of an empty list.
pub data Detached : Type 0 where
  missing undefined : Detached
  detached : IdleConnection → Pool → Detached

unfoldable pub store_rest : Bytes → List IdleConnection → Pool → Map Bytes (List IdleConnection)
store_rest key [] p = erase key p.idle
store_rest key (c ∷ cs) p = insert key (c ∷ cs) p.idle

unfoldable pub reset_expiration : ℕ → Option ℕ → Option ℕ
reset_expiration expires_at none = none
reset_expiration expires_at (some next) = if leb expires_at next then none else some next

unfoldable pub without : Bytes → IdleConnection → List IdleConnection → Pool → Pool
without key c cs p = record {
  idle = store_rest key cs p;
  next_expiration = reset_expiration c.expires_at p.next_expiration;
  stopping = p.stopping;
}

unfoldable pub detach_from : Option (List IdleConnection) → Bytes → Pool → Detached
detach_from none key p = missing
detach_from (some []) key p = undefined
detach_from (some (c ∷ cs)) key p = detached c (without key c cs p)

unfoldable pub detach : Bytes → Pool → Detached
detach key p = detach_from (lookup key p.idle) key p

-- The test of `acquire` on a connection that it has taken; `reusable` asks the socket. A reading
-- before `released_at` passes the third part, as a negative duration does.
unfoldable pub usable : (ℕ → Bool) → ℕ → ℕ → IdleConnection → Bool
usable reusable idle_ttl now c =
    ltb 0 idle_ttl
    && leb now c.expires_at
    && leb (now - c.released_at) (nanoseconds idle_ttl)
    && reusable c.stream

pub data Outcome : Type 0 where
  nothing invalid exhausted : Outcome
  taken : IdleConnection → Outcome

-- What a call leaves: its outcome, the pool, and the streams that it closed, the last one first.
pub record Result : Type 0 where
  pub outcome : Outcome
  pub pool : Pool
  pub closed : List ℕ

unfoldable pub close_first : ℕ → Result → Result
close_first stream r = record {
  outcome = r.outcome;
  pool = r.pool;
  closed = r.closed ++ stream ∷ [];
}

unfoldable pub try_detached : Bool → IdleConnection → Pool → Result → Result
try_detached true c q rest = record { outcome = taken c; pool = q; closed = [] }
try_detached false c q rest = close_first c.stream rest

unfoldable pub continue_with : (IdleConnection → Bool) → (Pool → Result) → Pool → Detached → Result
continue_with test again p missing = record { outcome = nothing; pool = p; closed = [] }
continue_with test again p undefined = record { outcome = invalid; pool = p; closed = [] }
continue_with test again p (detached c q) = try_detached (test c) c q (again q)

-- `acquire`. The mutex is free between its turns, and `others` is what other threads do to the pool
-- behind each of them; the clock gives the reading of each turn, and the fuel bounds the turns.
unfoldable pub acquire : ℕ → (ℕ → Pool → Pool) → (ℕ → Bool) → (ℕ → ℕ) → Bytes → ℕ → Pool → Result
acquire zero others reusable clock key idle_ttl p = record {
  outcome = exhausted;
  pool = p;
  closed = [];
}
acquire (suc fuel) others reusable clock key idle_ttl p =
    continue_with (usable reusable idle_ttl (clock fuel))
      (λ q. acquire fuel others reusable clock key idle_ttl (others fuel q)) p (detach key p)

unfoldable pub earlier : ℕ → Option ℕ → Option ℕ
earlier expires_at none = some expires_at
earlier expires_at (some next) = if ltb expires_at next then some expires_at else some next

unfoldable pub idle_at : Option (List IdleConnection) → List IdleConnection
idle_at none = []
idle_at (some cs) = cs

-- The critical section of `release` when the pool is open, by the list that `idle_[key]` gives.
unfoldable pub push_back : ℕ → ℕ → ℕ → Bytes → ℕ → List IdleConnection → Pool → Pool × List ℕ
push_back maximum_idle idle_ttl now key stream cs p =
    if ltb (length cs) maximum_idle
    then (
      record {
        idle =
            insert key
              (record {
                stream = stream;
                released_at = now;
                expires_at = now + nanoseconds idle_ttl;
              }
                ∷ cs)
              p.idle;
        next_expiration = earlier (now + nanoseconds idle_ttl) p.next_expiration;
        stopping = p.stopping;
      },
      [],
    )
    else (
      record {
        idle = insert key cs p.idle;
        next_expiration = p.next_expiration;
        stopping = p.stopping;
      },
      stream ∷ [],
    )

-- `release`, with the pool that it leaves and the streams that it closed.
unfoldable pub release : (ℕ → Bool) → ℕ → Bytes → ℕ → ℕ → ℕ → Pool → Pool × List ℕ
release reusable now key stream maximum_idle idle_ttl p =
    if (maximum_idle == 0 || idle_ttl == 0 || not (reusable stream)) || p.stopping
    then (p, stream ∷ [])
    else push_back maximum_idle idle_ttl now key stream (idle_at (lookup key p.idle)) p

unfoldable pub streams : List IdleConnection → List ℕ
streams [] = []
streams (c ∷ cs) = streams cs ++ c.stream ∷ []

unfoldable pub streams_all : Map Bytes (List IdleConnection) → List ℕ
streams_all [] = []
streams_all ((k, cs) ∷ m) = streams cs ++ streams_all m

unfoldable pub clear : Pool → Pool × List ℕ
clear p = (record { idle = []; next_expiration = none; stopping = p.stopping }, streams_all p.idle)

-- The destructor: the pool is closed to releases first.
unfoldable pub stop : Pool → Pool
stop p = record { idle = p.idle; next_expiration = p.next_expiration; stopping = true }

unfoldable pub earliest : List IdleConnection → Option ℕ → Option ℕ
earliest [] next = next
earliest (c ∷ cs) next = earlier c.expires_at (earliest cs next)

unfoldable pub earliest_all : Map Bytes (List IdleConnection) → Option ℕ → Option ℕ
earliest_all [] next = next
earliest_all ((k, cs) ∷ m) next = earliest_all m (earliest cs next)

unfoldable pub next_or_earliest : Option ℕ → Pool → Option ℕ
next_or_earliest none p = earliest_all p.idle none
next_or_earliest (some next) p = some next

-- The reaper awake: it looks for the nearest deadline when it knows none.
unfoldable pub recompute : Pool → Pool
recompute p = record {
  idle = p.idle;
  next_expiration = next_or_earliest p.next_expiration p;
  stopping = p.stopping;
}

unfoldable pub unexpired : ℕ → List IdleConnection → List IdleConnection
unexpired now [] = []
unexpired now (c ∷ cs) = if ltb now c.expires_at then c ∷ unexpired now cs else unexpired now cs

unfoldable pub expired : ℕ → List IdleConnection → List IdleConnection
expired now [] = []
expired now (c ∷ cs) = if ltb now c.expires_at then expired now cs else c ∷ expired now cs

unfoldable pub keep_list :
    Bytes → List IdleConnection → Map Bytes (List IdleConnection) → Map Bytes (List IdleConnection)
keep_list key [] m = m
keep_list key (c ∷ cs) m = (key, c ∷ cs) ∷ m

unfoldable pub reap_idle : ℕ → Map Bytes (List IdleConnection) → Map Bytes (List IdleConnection)
reap_idle now [] = []
reap_idle now ((k, cs) ∷ m) = keep_list k (unexpired now cs) (reap_idle now m)

unfoldable pub reap_closed : ℕ → Map Bytes (List IdleConnection) → List ℕ
reap_closed now [] = []
reap_closed now ((k, cs) ∷ m) = streams (expired now cs) ++ reap_closed now m

-- The reaper at a deadline.
unfoldable pub reap : ℕ → Pool → Pool × List ℕ
reap now p = (
  record { idle = reap_idle now p.idle; next_expiration = none; stopping = p.stopping },
  reap_closed now p.idle,
)
