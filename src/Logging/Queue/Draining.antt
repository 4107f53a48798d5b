-- ===== src/Logging/Queue/Draining.antt =====
-- src/logging/LogManager.cpp: the writer drains the queue.
use model_lib.Base.{
  ℕ, zero, suc, ◌+◌, ◌*◌, ◌≤◌, ◌≡◌, refl, sym, ap, ◌∙◌, inl, inr, Bool, true, false, List, [], ◌∷◌,
  ◌++◌, arith, if◌then◌else◌, length, Bool-cases,
}
use mathlib.Core.List.{append-nil}
use model_lib.Logging.Event.{Event}
use model_lib.Logging.Queue.{
  LogQueue, Phase, waiting, looking, gone, writing, reporting, finishing, summarizing,
}
use model_lib.Logging.Queue.World.{World, act, writer_step, run, Reachable}
use model_lib.Logging.Queue.Books.{in_hand}
use model_lib.Logging.Queue.Progress.{Fits, rest_of_turn, cost, act-Progress}
use model_lib.Logging.Queue.Phases.{Reachable-Fits}

-- Nothing is queued or in hand, and a writer that was told to stop has ended.
pub record Drained (v w : World) : Type 0 where
  pub nothing_queued : w.manager.queue ≡ []
  pub not_busy : w.manager.writer_busy ≡ false
  pub all_written : w.written ≡ v.written ++ in_hand v.phase ++ v.manager.queue
  pub ended : w.phase ≡ (if v.manager.stopping then gone else waiting)

no_events : (es : List Event) → length es ≡ 0 → es ≡ []
no_events [] h = refl
no_events (e ∷ es) h = absurd (omega (arith, h))

-- Where no step is left.
record Rests (p : Phase) (l : LogQueue) : Type 0 where
  empty : l.queue ≡ []
  idle : l.writer_busy ≡ false
  free : in_hand p ≡ []
  at_rest : p ≡ (if l.stopping then gone else waiting)

cost-Rests : (p : Phase) (l : LogQueue) → Fits p l → cost p l ≡ 0 → Rests p l
cost-Rests waiting l fits h = record {
  empty = no_events l.queue (omega (arith, h));
  idle = fits;
  free = refl;
  at_rest = elim (Bool-cases l.stopping) [
    | inl e ↦ absurd (ground (arith, h, e))
    | inr e ↦ ap (λ (b : Bool). if b then gone else waiting) (sym e)
  ];
}
cost-Rests (writing e) l fits h = absurd (omega (arith, h))
cost-Rests looking l fits h = absurd (omega (arith, h))
cost-Rests (reporting true) l fits h = absurd (omega (arith, h))
cost-Rests (reporting false) l fits h = absurd (omega (arith, h))
cost-Rests (summarizing true x y) l fits h = absurd (omega (arith, h))
cost-Rests (summarizing false x y) l fits h = absurd (omega (arith, h))
cost-Rests (finishing true) l fits h = absurd (omega (arith, h))
cost-Rests (finishing false) l fits h = absurd (omega (arith, h))
cost-Rests gone l fits h = record {
  empty = fits.1;
  idle = fits.2;
  free = refl;
  at_rest = ap (λ (b : Bool). if b then gone else waiting) (sym fits.0);
}

finished :
    (v w : World)
    → Fits w.phase w.manager
    → cost w.phase w.manager ≡ 0
    → w.written ++ in_hand w.phase ++ w.manager.queue
      ≡ v.written ++ in_hand v.phase ++ v.manager.queue
    → w.manager.stopping ≡ v.manager.stopping
    → Drained v w
finished v w fits spent same_events same_stopping =
    let r = cost-Rests w.phase w.manager fits spent in
    record {
      nothing_queued = r.empty;
      not_busy = r.idle;
      all_written =
          sym (append-nil w.written)
          ∙ sym (append-nil (w.written ++ []))
          ∙ ap (λ es. w.written ++ es ++ []) (sym r.free)
          ∙ ap (λ es. w.written ++ in_hand w.phase ++ es) (sym r.empty)
          ∙ same_events;
      ended = r.at_rest ∙ ap (λ (b : Bool). if b then gone else waiting) same_stopping;
    }

run-Drained :
    (n : ℕ) (v w : World)
    → Fits w.phase w.manager
    → cost w.phase w.manager ≤ n
    → w.written ++ in_hand w.phase ++ w.manager.queue
      ≡ v.written ++ in_hand v.phase ++ v.manager.queue
    → w.manager.stopping ≡ v.manager.stopping
    → Drained v (run n w)
unfolding run writer_step
run-Drained zero v w fits enough same_events same_stopping =
    finished v w fits (omega (arith, enough)) same_events same_stopping
run-Drained (suc n) v w fits enough same_events same_stopping =
    let p = act-Progress w.phase w fits in
    run-Drained n v (act true w.phase w) p.fits (omega (arith, p.cheaper, enough))
      (p.same_events ∙ same_events) (p.same_stopping ∙ same_stopping)

turn_bound : (p : Phase) (stopping : Bool) → rest_of_turn p stopping ≤ 9
turn_bound waiting stopping = ground arith
turn_bound (writing e) stopping = ground arith
turn_bound looking stopping = ground arith
turn_bound (reporting true) stopping = ground arith
turn_bound (reporting false) stopping = ground arith
turn_bound (summarizing true x y) stopping = ground arith
turn_bound (summarizing false x y) stopping = ground arith
turn_bound (finishing true) stopping = ground arith
turn_bound (finishing false) stopping = ground arith
turn_bound gone stopping = ground arith

-- From every state that callers, destructor and writer reach, with files that take every line and
-- no further call, six steps of the writer for each queued event and nine more empty the queue: all
-- that was queued or in hand is written in its order, `writer_busy_` is clear, and the writer waits,
-- or has ended if it was told to stop.
pub Reachable-Drained :
    (capacity n : ℕ) (w : World)
    → Reachable capacity w
    → 6 * length w.manager.queue + 9 ≤ n
    → Drained w (run n w)
Reachable-Drained capacity n w reached enough =
    run-Drained n w w (Reachable-Fits capacity w reached)
      (omega (arith, turn_bound w.phase w.manager.stopping, enough)) refl refl
