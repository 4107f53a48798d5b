-- ===== src/Proxy/Pool/Tests.antt =====
-- Runs of the connection pool, and its theorems at concrete pools.
use model_lib.Base.Bytes.{Bytes, codes, equal, bytes_eq}
use model_lib.Base.Map.{lookup, insert, erase, Entries}
use model_lib.Base.{length, ◌≤◌, ◌+◌, ℕ, ◌+◌, ◌≡◌, refl, true, false, [], ◌∷◌, none, some, arith}
use model_lib.Proxy.Pool.{
  IdleConnection, Pool, taken, detach, detach_from, without, store_rest, reset_expiration, clear,
  nothing, acquire, continue_with, try_detached, close_first, usable, nanoseconds, release,
  push_back, idle_at, earlier, recompute, streams_all,
}
use model_lib.Proxy.Pool.Keeping.{clears, WellFormed, releases}
use model_lib.Proxy.Pool.Counting.{Step-conserves, occurs}
use model_lib.Proxy.Pool.Acquire.{Ends, here, next, acquire-Ends}
use model_lib.Proxy.Pool.Deadline.{AllKnown, recompute_due}

abbrev key : Bytes
key = codes "origin:443"

abbrev idle_for : ℕ → ℕ → ℕ → IdleConnection
idle_for stream released_at expires_at = record {
  stream = stream;
  released_at = released_at;
  expires_at = expires_at;
}

-- The back of the list has expired before the test, so that the loop goes on to the other one.
abbrev two_idle : Pool
two_idle = record {
  idle = (key, idle_for 8 0 4000000000 ∷ idle_for 7 1 9000000000 ∷ []) ∷ [];
  next_expiration = some 4000000000;
  stopping = false;
}

two_idle-WellFormed : WellFormed two_idle
unfolding lookup
two_idle-WellFormed = record { distinct = (refl, tt); filled = (omega arith, tt) }

abbrev alone : ℕ → Pool → Pool
alone turn q = q

second_turn : acquire 3 alone (λ s. true) (λ n. 5000000000) key 20 two_idle ≡ record {
  outcome = taken (idle_for 7 1 9000000000);
  pool = record { idle = []; next_expiration = none; stopping = false };
  closed = 8 ∷ [];
}
unfolding acquire continue_with try_detached close_first usable nanoseconds detach detach_from
    without store_rest reset_expiration lookup insert erase equal
second_turn = refl

-- Behind the first turn another thread clears the pool.
abbrev cleared_behind : ℕ → Pool → Pool
cleared_behind turn q = (clear q).0

nothing_left :
    (acquire 3 cleared_behind (λ s. true) (λ n. 5000000000) key 20 two_idle).outcome ≡ nothing
unfolding acquire continue_with try_detached close_first usable nanoseconds detach detach_from
    without store_rest reset_expiration lookup insert erase equal clear
nothing_left = refl

none_arrive :
    (turn : ℕ) (q : Pool)
    → length (idle_at (lookup key (cleared_behind turn q).idle))
      ≤ length (idle_at (lookup key q.idle)) + 0
unfolding clear idle_at lookup
none_arrive turn q = omega arith

acquire-Ends_example :
    Ends
      (λ s. true)
      (λ n. 5000000000)
      key
      20
      two_idle
      (acquire 3 cleared_behind (λ s. true) (λ n. 5000000000) key 20 two_idle)
acquire-Ends_example =
    acquire-Ends cleared_behind (λ s. true) (λ n. 5000000000) key 20 (λ n. 0)
      (λ turn q. next clears here) none_arrive 3 two_idle two_idle-WellFormed
      (unfold idle_at lookup equal in omega arith)

Step-conserves_example :
    occurs 9 (streams_all two_idle.idle) + occurs 9 (9 ∷ [])
    ≡ occurs 9 (streams_all (release (λ s. true) 6000000000 key 9 2 5 two_idle).0.idle)
      + occurs 9 (release (λ s. true) 6000000000 key 9 2 5 two_idle).1
Step-conserves_example =
    Step-conserves 9 (releases {p = two_idle} (λ s. true) 6000000000 key 9 2 5) two_idle-WellFormed

abbrev unknown : Pool
unknown = record { idle = two_idle.idle; next_expiration = none; stopping = false }

recompute_due_example :
    Entries (λ k cs. AllKnown (recompute unknown).next_expiration cs) unknown.idle
recompute_due_example = recompute_due unknown refl

-- With no known deadline, a release makes its own deadline the known one, although an idle
-- connection has an earlier deadline, which the reaper then sleeps past.
late_deadline :
    (release (λ s. true) 3000000000 key 9 3 60 unknown).0.next_expiration ≡ some 63000000000
unfolding release push_back idle_at lookup insert equal nanoseconds earlier
late_deadline = refl
