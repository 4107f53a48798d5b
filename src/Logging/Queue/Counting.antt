-- ===== src/Logging/Queue/Counting.antt =====
-- src/logging/LogManager.cpp: the counters of the log manager account for every event.
use model_lib.Base.{ℕ, ◌+◌, ◌^◌, ◌<◌, ◌≡◌, refl, Bool, true, false, arith}
use model_lib.Logging.Event.{Event}
use model_lib.Logging.Queue.{
  Phase, waiting, looking, gone, writing, reporting, finishing, summarizing, stop,
}
use model_lib.Logging.Queue.World.{
  World, call, broken, act, writer_step, Step, calls, stops, writes, Reachable, begun, steps,
}
use model_lib.Logging.Queue.Accounts.{Accounted, constructed-Accounted, call-Accounted}
use model_lib.Logging.Queue.Writing.{act-Accounted}

called_before :
    (capacity : ℕ) (memory : Bool) (e : Event) (v : World)
    → (call capacity memory e v).called_access + (call capacity memory e v).called_error < 2 ^ 64
    → v.called_access + v.called_error + 1 < 2 ^ 64
unfolding call
called_before capacity memory e v small = ground (arith, small)

-- The writer changes no count of calls.
SameCalls-act :
    (ok : Bool) (p : Phase) (w : World)
    → ((act ok p w).called_access ≡ w.called_access) × ((act ok p w).called_error ≡ w.called_error)
unfolding act broken
SameCalls-act ok waiting w = (refl, refl)
SameCalls-act true (writing e) w = (refl, refl)
SameCalls-act false (writing e) w = (refl, refl)
SameCalls-act ok looking w = (refl, refl)
SameCalls-act ok (reporting leaves) w = (refl, refl)
SameCalls-act true (summarizing leaves x y) w = (refl, refl)
SameCalls-act false (summarizing leaves x y) w = (refl, refl)
SameCalls-act ok (finishing leaves) w = (refl, refl)
SameCalls-act ok gone w = (refl, refl)

-- A step leaves the bound on the calls to the state before it, and keeps the account.
Step-Accounted :
    {capacity : ℕ} {v w : World}
    → Step capacity v w
    → w.called_access + w.called_error < 2 ^ 64
    → (v.called_access + v.called_error < 2 ^ 64) × (Accounted capacity v → Accounted capacity w)
unfolding writer_step stop
Step-Accounted {capacity} {v} (calls memory e) small =
    let before : v.called_access + v.called_error + 1 < 2 ^ 64 =
      called_before capacity memory e v small in
    (omega (arith, before), call-Accounted capacity memory e v before)
Step-Accounted {capacity} {v} stops small = (
  small,
  λ a. record {
    books = record {
      access_calls = a.books.access_calls;
      error_calls = a.books.error_calls;
      accepted = a.books.accepted;
      accepted_all = a.books.accepted_all;
      capped = a.books.capped;
      reported_access = a.books.reported_access;
      reported_error = a.books.reported_error;
    };
    summaries_access = a.summaries_access;
    summaries_error = a.summaries_error;
  },
)
Step-Accounted {capacity} {v} (writes ok) small =
    let (same_access, same_error) = SameCalls-act ok v.phase v in
    let before : v.called_access + v.called_error < 2 ^ 64 =
      omega (arith, same_access, same_error, small) in
    (before, act-Accounted capacity ok v.phase v before)

-- At every step of every interleaving, up to 2 ^ 64 calls: each call is counted as accepted or as
-- dropped, each accepted event is queued, in the writer's hands, written or lost with a failing
-- file, the queue keeps to its capacity, and the drop summaries add up to the drops reported.
pub Reachable-Accounted :
    (capacity : ℕ) (w : World)
    → Reachable capacity w
    → w.called_access + w.called_error < 2 ^ 64
    → Accounted capacity w
Reachable-Accounted capacity w begun small = constructed-Accounted capacity
Reachable-Accounted capacity w (steps {v} reached step) small =
    let (before, kept) = Step-Accounted step small in
    kept (Reachable-Accounted capacity v reached before)
