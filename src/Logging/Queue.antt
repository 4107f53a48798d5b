-- ===== src/Logging/Queue.antt =====
-- src/logging/LogManager.cpp: the bounded queue and the writer thread. A section under the mutex is
-- one function; World interleaves the sections.
pub mod World
pub mod Books
pub mod Accounts
pub mod Writing
pub mod Counting
pub mod Progress
pub mod Phases
pub mod Draining
mod Tests
use model_lib.Base.{
  ℕ, ◌+◌, ◌-◌, ◌%◌, ◌^◌, Bool, true, false, ◌&&◌, List, [], ◌∷◌, ◌++◌, Option, none, some, leb,
  ◌==◌, if◌then◌else◌, inc64, length,
}
use model_lib.Logging.Event.{Event, holds_access}

-- What the mutex guards.
pub record LogQueue : Type 0 where
  pub queue : List Event
  pub accepted_access : ℕ
  pub accepted_error : ℕ
  pub dropped_access : ℕ
  pub dropped_error : ℕ
  pub reported_dropped_access : ℕ
  pub reported_dropped_error : ℕ
  pub writer_busy : Bool
  pub stopping : Bool

-- Where the writer thread stands: in `wait`, in `write_event`, before it looks whether the queue is
-- empty, before and behind the critical section of `write_drop_summary`, before the section that
-- clears `writer_busy_`, and at its end. The flag says whether it leaves the loop.
pub data Phase : Type 0 where
  waiting looking gone : Phase
  writing : Event → Phase
  reporting finishing : Bool → Phase
  summarizing : Bool → ℕ → ℕ → Phase

abbrev pub is_access : Event → Bool
is_access e = holds_access e.payload

-- `--` on a `std::uint64_t`, and `a - b`.
abbrev pub dec64 : ℕ → ℕ
dec64 n = if n == 0 then 2 ^ 64 - 1 else n - 1

abbrev pub minus64 : ℕ → ℕ → ℕ
minus64 a b = (a + (2 ^ 64 - b)) % 2 ^ 64

unfoldable pub drop_event : Event → LogQueue → LogQueue
drop_event e l =
    if is_access e
    then record l { dropped_access = inc64 l.dropped_access }
    else record l { dropped_error = inc64 l.dropped_error }

-- `push_back`, which fails when there is no memory, and is then counted in the `catch`.
unfoldable pub push_event : Bool → Event → LogQueue → LogQueue
push_event false e l = drop_event e l
push_event true e l =
    if is_access e
    then record l { queue = l.queue ++ e ∷ []; accepted_access = inc64 l.accepted_access }
    else record l { queue = l.queue ++ e ∷ []; accepted_error = inc64 l.accepted_error }

unfoldable pub put_back : Event → Option (List Event) → Option (List Event)
put_back e none = none
put_back e (some es) = some (e ∷ es)

-- `find_if` of an access event and `erase`.
unfoldable pub without_access : List Event → Option (List Event)
without_access [] = none
without_access (e ∷ es) =
    let rest = without_access es in if is_access e then some es else put_back e rest

-- An error event takes the place of the first access event.
unfoldable pub displace : Bool → Event → Option (List Event) → LogQueue → LogQueue
displace memory e none l = drop_event e l
displace memory e (some rest) l = push_event memory e (record l {
  queue = rest;
  accepted_access = dec64 l.accepted_access;
  dropped_access = inc64 l.dropped_access;
})

unfoldable pub enqueue_full : Bool → Event → LogQueue → LogQueue
enqueue_full memory e l =
    if is_access e then drop_event e l else displace memory e (without_access l.queue) l

unfoldable pub enqueue : ℕ → Bool → Event → LogQueue → LogQueue
enqueue capacity memory e l =
    if l.stopping
    then drop_event e l
    else (if leb capacity (length l.queue) then enqueue_full memory e l else push_event memory e l)

-- The destructor's section.
unfoldable pub stop : LogQueue → LogQueue
stop l = record l { stopping = true }

-- The section behind `wait`, which goes on when there is an event or an end.
unfoldable pub wake : List Event → Bool → LogQueue → LogQueue × Phase
wake (e ∷ es) stopping l = (record l { queue = es; writer_busy = true }, writing e)
wake [] true l = (record l { writer_busy = true }, reporting true)
wake [] false l = (l, waiting)

unfoldable pub look : List Event → Phase
look [] = reporting false
look (e ∷ es) = finishing false

-- The section of `write_drop_summary`.
unfoldable pub report : Bool → LogQueue → LogQueue × Phase
report leaves l =
    if l.dropped_access == l.reported_dropped_access && l.dropped_error == l.reported_dropped_error
    then (l, finishing leaves)
    else (
      record l {
        reported_dropped_access = l.dropped_access;
        reported_dropped_error = l.dropped_error;
      },
      summarizing leaves (minus64 l.dropped_access l.reported_dropped_access)
          (minus64 l.dropped_error l.reported_dropped_error),
    )

unfoldable pub finish : Bool → LogQueue → LogQueue × Phase
finish leaves l = (record l { writer_busy = false }, if leaves then gone else waiting)

-- The section at the end of `writer_loop`, behind an exception.
unfoldable pub fail : LogQueue → LogQueue
fail l = record l { writer_busy = false; stopping = true; queue = [] }
