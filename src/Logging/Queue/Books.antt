-- ===== src/Logging/Queue/Books.antt =====
-- src/logging/LogManager.cpp: what a call of `enqueue` does to the counters.
use model_lib.Base.{
  ℕ, suc, ◌+◌, ◌^◌, ◌≤◌, ◌<◌, ◌≡◌, refl, sym, ap, subst, inl, inr, Bool, true, false, List, [], ◌∷◌,
  ◌++◌, Option, none, some, arith, leb, if◌then◌else◌, inc64, length, Bool-cases, Option-cases,
}
use model_lib.Logging.Event.{Event}
use model_lib.Logging.Queue.{
  LogQueue, Phase, writing, summarizing, is_access, dec64, drop_event, push_event, put_back,
  without_access, displace, enqueue_full, enqueue,
}

-- The events of access among these.
abbrev pub accesses : List Event → ℕ
accesses [] = 0
accesses (e ∷ es) = (if is_access e then 1 else 0) + accesses es

pub accesses-append : (xs ys : List Event) → accesses (xs ++ ys) ≡ accesses xs + accesses ys
accesses-append [] ys = omega arith
accesses-append (e ∷ xs) ys = omega (arith, accesses-append xs ys)

pub length-append : (xs ys : List Event) → length (xs ++ ys) ≡ length xs + length ys
length-append [] ys = omega arith
length-append (e ∷ xs) ys = omega (arith, length-append xs ys)

-- What `without_access` leaves.
abbrev Removed : List Event → Option (List Event) → Type 0
Removed es none = accesses es ≡ 0
Removed es (some rest) = (length es ≡ suc (length rest)) × (accesses es ≡ suc (accesses rest))

without_access-Removed : (es : List Event) → Removed es (without_access es)
unfolding without_access put_back
without_access-Removed [] = refl
without_access-Removed (e ∷ es) =
    let rest = without_access-Removed es in
    elim (Bool-cases (is_access e)) [
      | inl f ↦ rw f (omega arith, ground (arith, f))
      | inr f ↦ elim (Option-cases (without_access es)) [
        | inl g ↦ let h = rw g at rest in rw (f, g) (ground (arith, h))
        | inr (left, g) ↦
            let h = rw g at rest in rw (f, g) (ground (arith, h.0), ground (arith, h.1, f))
      ]
    ]

-- The events that are written, in the writer's hands or lost, and those of access among them.
abbrev pub in_hand : Phase → List Event
in_hand (writing e) = e ∷ []
in_hand _ = []

abbrev pub in_summary_access : Phase → ℕ
in_summary_access (summarizing leaves access error) = access
in_summary_access _ = 0

abbrev pub in_summary_error : Phase → ℕ
in_summary_error (summarizing leaves access error) = error
in_summary_error _ = 0

-- The queue's part, for so many calls and so many events that have left the queue.
pub record Books (capacity called_access called_error out_access out : ℕ) (l : LogQueue)
    : Type 0 where
  pub access_calls : l.accepted_access + l.dropped_access ≡ called_access
  pub error_calls : l.accepted_error + l.dropped_error ≡ called_error
  pub accepted : l.accepted_access ≡ out_access + accesses l.queue
  pub accepted_all : l.accepted_access + l.accepted_error ≡ out + length l.queue
  pub capped : length l.queue ≤ capacity
  pub reported_access : l.reported_dropped_access ≤ l.dropped_access
  pub reported_error : l.reported_dropped_error ≤ l.dropped_error

-- One more call, of this event.
abbrev pub Calls : Event → ℕ → ℕ → ℕ → ℕ → ℕ → LogQueue → Type 0
Calls e capacity ca ce oa o l =
    Books capacity ((if is_access e then 1 else 0) + ca) ((if is_access e then 0 else 1) + ce) oa o
      l

module _ (e : Event) (capacity ca ce oa o : ℕ) (small : ca + ce + 1 < 2 ^ 64) where
  drop_event-Books :
      (l : LogQueue) → Books capacity ca ce oa o l → Calls e capacity ca ce oa o (drop_event e l)
  unfolding drop_event
  drop_event-Books l b = elim (Bool-cases (is_access e)) [
    | inl f ↦ rw f record {
      access_calls = ground (arith, b.access_calls, small);
      error_calls = omega (arith, b.error_calls);
      accepted = b.accepted;
      accepted_all = b.accepted_all;
      capped = b.capped;
      reported_access = ground (arith, b.access_calls, small, b.reported_access);
      reported_error = b.reported_error;
    }
    | inr f ↦ rw f record {
      access_calls = omega (arith, b.access_calls);
      error_calls = ground (arith, b.error_calls, small);
      accepted = b.accepted;
      accepted_all = b.accepted_all;
      capped = b.capped;
      reported_access = b.reported_access;
      reported_error = ground (arith, b.error_calls, small, b.reported_error);
    }
  ]

  push_event-Books :
      (memory : Bool) (l : LogQueue)
      → Books capacity ca ce oa o l
      → length l.queue < capacity
      → Calls e capacity ca ce oa o (push_event memory e l)
  unfolding push_event
  push_event-Books false l b room = drop_event-Books l b
  push_event-Books true l b room =
      let longer = length-append l.queue (e ∷ []) in
      let more = accesses-append l.queue (e ∷ []) in
      elim (Bool-cases (is_access e)) [
        | inl f ↦ rw f record {
          access_calls = ground (arith, b.access_calls, small);
          error_calls = omega (arith, b.error_calls);
          accepted = ground (arith, b.access_calls, small, b.accepted, more, f);
          accepted_all = ground (arith, b.access_calls, small, b.accepted_all, longer);
          capped = ground (arith, room, longer);
          reported_access = b.reported_access;
          reported_error = b.reported_error;
        }
        | inr f ↦ rw f record {
          access_calls = omega (arith, b.access_calls);
          error_calls = ground (arith, b.error_calls, small);
          accepted = ground (arith, b.accepted, more, f);
          accepted_all = ground (arith, b.error_calls, small, b.accepted_all, longer);
          capped = ground (arith, room, longer);
          reported_access = b.reported_access;
          reported_error = b.reported_error;
        }
      ]

  displaced-Books :
      (rest : List Event) (l : LogQueue)
      → Books capacity ca ce oa o l
      → Removed l.queue (some rest)
      → Books capacity ca ce oa o (record l {
        queue = rest;
        accepted_access = dec64 l.accepted_access;
        dropped_access = inc64 l.dropped_access;
      })
  displaced-Books rest l b (shorter, fewer) = record {
    access_calls = ground (arith, b.access_calls, b.accepted, fewer, small);
    error_calls = b.error_calls;
    accepted = ground (arith, b.accepted, fewer);
    accepted_all = ground (arith, b.accepted_all, b.accepted, fewer, shorter);
    capped = omega (arith, b.capped, shorter);
    reported_access = ground (arith, b.reported_access, b.access_calls, b.accepted, fewer, small);
    reported_error = b.reported_error;
  }

  enqueue_full-Books :
      (memory : Bool) (l : LogQueue)
      → Books capacity ca ce oa o l
      → Calls e capacity ca ce oa o (enqueue_full memory e l)
  unfolding enqueue_full displace
  enqueue_full-Books memory l b = elim (Bool-cases (is_access e)) [
    | inl f ↦
        let same : enqueue_full memory e l ≡ drop_event e l = rw f refl in
        subst (Calls e capacity ca ce oa o) (sym same) (drop_event-Books l b)
    | inr f ↦
        let removed = without_access-Removed l.queue in
        elim (Option-cases (without_access l.queue)) [
          | inl g ↦
              let same : enqueue_full memory e l ≡ drop_event e l = rw (f, g) refl in
              subst (Calls e capacity ca ce oa o) (sym same) (drop_event-Books l b)
          | inr (rest, g) ↦
              let h : Removed l.queue (some rest) = rw g at removed in
              let freed : LogQueue = record l {
                queue = rest;
                accepted_access = dec64 l.accepted_access;
                dropped_access = inc64 l.dropped_access;
              } in
              let same : enqueue_full memory e l ≡ push_event memory e freed = rw (f, g) refl in
              subst (Calls e capacity ca ce oa o) (sym same) (
                push_event-Books memory freed (displaced-Books rest l b h)
                  (omega (arith, h.0, b.capped)))
        ]
  ]

  pub enqueue-Books :
      (memory : Bool) (l : LogQueue)
      → Books capacity ca ce oa o l
      → Calls e capacity ca ce oa o (enqueue capacity memory e l)
  unfolding enqueue
  enqueue-Books memory l b = elim (Bool-cases l.stopping) [
    | inl f ↦
        let same : enqueue capacity memory e l ≡ drop_event e l =
          ap
            (λ (t : Bool).
              if t
              then drop_event e l
              else (if leb capacity (length l.queue)
                  then enqueue_full memory e l
                  else push_event memory e l))
            f in
        subst (Calls e capacity ca ce oa o) (sym same) (drop_event-Books l b)
    | inr f ↦
        let open_queue : enqueue capacity memory e l ≡ (
            if leb capacity (length l.queue)
            then enqueue_full memory e l
            else push_event memory e l) =
          ap
            (λ (t : Bool).
              if t
              then drop_event e l
              else (if leb capacity (length l.queue)
                  then enqueue_full memory e l
                  else push_event memory e l))
            f in
        subst (Calls e capacity ca ce oa o) (sym open_queue)
          (elim (Bool-cases (leb capacity (length l.queue))) [
            | inl g ↦ rw g (enqueue_full-Books memory l b)
            | inr g ↦ rw g (push_event-Books memory l b (ground (arith, g)))
          ])
  ]
