-- ===== src/Logging/Queue/Accounts.antt =====
-- src/logging/LogManager.cpp: the account of all events, kept by the calls and by a woken writer.
use model_lib.Base.{
  ℕ, ◌+◌, ◌^◌, ◌<◌, ◌≡◌, refl, sym, ap, ◌∙◌, inl, inr, Bool, true, false, List, [], ◌∷◌, Option,
  none, some, arith, leb, if◌then◌else◌, length, Bool-cases,
}
use model_lib.Logging.Event.{Event}
use model_lib.Logging.Queue.{
  LogQueue, waiting, is_access, drop_event, push_event, without_access, displace, enqueue_full,
  enqueue, wake,
}
use model_lib.Logging.Queue.World.{World, constructed, call, moved}
use model_lib.Logging.Queue.Books.{
  accesses, in_hand, in_summary_access, in_summary_error, Books, enqueue-Books,
}

-- Every call of `log_access` and `log_error` is accepted or dropped, and every accepted event is in
-- the queue, in the hands of the writer, written or lost.
pub record Accounted (capacity : ℕ) (w : World) : Type 0 where
  pub books :
      Books capacity w.called_access w.called_error
        (accesses w.written + accesses (in_hand w.phase) + accesses w.lost)
        (length w.written + length (in_hand w.phase) + length w.lost)
        w.manager
  pub summaries_access :
      w.summarized_access + in_summary_access w.phase + w.unsummarized_access
      ≡ w.manager.reported_dropped_access
  pub summaries_error :
      w.summarized_error + in_summary_error w.phase + w.unsummarized_error
      ≡ w.manager.reported_dropped_error

pub constructed-Accounted : (capacity : ℕ) → Accounted capacity constructed
unfolding constructed
constructed-Accounted capacity = record {
  books = record {
    access_calls = refl;
    error_calls = refl;
    accepted = refl;
    accepted_all = refl;
    capped = omega arith;
    reported_access = omega arith;
    reported_error = omega arith;
  };
  summaries_access = refl;
  summaries_error = refl;
}

-- What the callers never change.
abbrev Reported : LogQueue → LogQueue → Type 0
Reported l m =
    (m.reported_dropped_access ≡ l.reported_dropped_access)
    × (m.reported_dropped_error ≡ l.reported_dropped_error)

drop_event-Reported : (e : Event) (l : LogQueue) → Reported l (drop_event e l)
unfolding drop_event
drop_event-Reported e l = elim (Bool-cases (is_access e)) [
  | inl f ↦ rw f (refl, refl)
  | inr f ↦ rw f (refl, refl)
]

push_event-Reported :
    (memory : Bool) (e : Event) (l : LogQueue) → Reported l (push_event memory e l)
unfolding push_event
push_event-Reported false e l = drop_event-Reported e l
push_event-Reported true e l = elim (Bool-cases (is_access e)) [
  | inl f ↦ rw f (refl, refl)
  | inr f ↦ rw f (refl, refl)
]

displace-Reported :
    (memory : Bool) (e : Event) (rest : Option (List Event)) (l : LogQueue)
    → Reported l (displace memory e rest l)
unfolding displace
displace-Reported memory e none l = drop_event-Reported e l
displace-Reported memory e (some rest) l = push_event-Reported memory e _

either-Reported :
    (b : Bool) (l m n : LogQueue) → Reported l m → Reported l n → Reported l (if b then m else n)
either-Reported true l m n hm hn = hm
either-Reported false l m n hm hn = hn

enqueue-Reported :
    (capacity : ℕ) (memory : Bool) (e : Event) (l : LogQueue)
    → Reported l (enqueue capacity memory e l)
unfolding enqueue enqueue_full
enqueue-Reported capacity memory e l =
    let dropped = drop_event-Reported e l in
    either-Reported l.stopping l _ _ dropped (
      either-Reported (leb capacity (length l.queue)) l _ _
        (either-Reported (is_access e) l _ _ dropped
          (displace-Reported memory e (without_access l.queue) l))
        (push_event-Reported memory e l))

pub call-Accounted :
    (capacity : ℕ) (memory : Bool) (e : Event) (w : World)
    → w.called_access + w.called_error + 1 < 2 ^ 64
    → Accounted capacity w
    → Accounted capacity (call capacity memory e w)
unfolding call
call-Accounted capacity memory e w small a =
    let (same_access, same_error) = enqueue-Reported capacity memory e w.manager in
    record {
      books =
          enqueue-Books e capacity w.called_access w.called_error _ _ small memory w.manager
            a.books;
      summaries_access = a.summaries_access ∙ sym same_access;
      summaries_error = a.summaries_error ∙ sym same_error;
    }

pub wake-Accounted :
    (capacity : ℕ) (es : List Event) (stopping : Bool) (w : World)
    → w.manager.queue ≡ es
    → Accounted capacity (record w { phase = waiting })
    → Accounted capacity (moved (wake es stopping w.manager) w)
unfolding wake
wake-Accounted capacity [] false w same a = a
wake-Accounted capacity [] true w same a = record {
  books = record {
    access_calls = a.books.access_calls;
    error_calls = a.books.error_calls;
    accepted = a.books.accepted;
    accepted_all = a.books.accepted_all;
    capped = a.books.capped;
    reported_access = a.books.reported_access;
    reported_error = a.books.reported_error;
  };
  summaries_access = a.summaries_access;
  summaries_error = a.summaries_error;
}
wake-Accounted capacity (e ∷ es) stopping w same a =
    let fewer : accesses w.manager.queue ≡ accesses (e ∷ es) = ap accesses same in
    let shorter : length w.manager.queue ≡ length (e ∷ es) = ap length same in
    record {
      books = record {
        access_calls = a.books.access_calls;
        error_calls = a.books.error_calls;
        accepted = omega (arith, a.books.accepted, fewer);
        accepted_all = omega (arith, a.books.accepted_all, shorter);
        capped = omega (arith, a.books.capped, shorter);
        reported_access = a.books.reported_access;
        reported_error = a.books.reported_error;
      };
      summaries_access = a.summaries_access;
      summaries_error = a.summaries_error;
    }
