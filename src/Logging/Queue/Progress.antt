-- ===== src/Logging/Queue/Progress.antt =====
-- src/logging/LogManager.cpp: each step of the writer brings it closer to its rest.
use model_lib.Base.{
  ℕ, ◌+◌, ◌-◌, ◌*◌, ◌≤◌, ◌≡◌, ◌⊎◌, refl, sym, ap, subst, ◌∙◌, inl, inr, Bool, true, false, ◌&&◌,
  List, [], ◌∷◌, ◌++◌, arith, ◌==◌, if◌then◌else◌, length, Bool-cases,
}
use mathlib.Core.List.{append-nil, append_assoc}
use model_lib.Logging.Event.{Event}
use model_lib.Logging.Queue.{
  LogQueue, Phase, waiting, looking, gone, writing, reporting, finishing, summarizing, minus64,
  wake, look, report, finish,
}
use model_lib.Logging.Queue.World.{World, moved, act}
use model_lib.Logging.Queue.Books.{in_hand}

-- What the phase of the writer says about what the mutex guards.
abbrev pub Fits : Phase → LogQueue → Type 0
Fits waiting l = l.writer_busy ≡ false
Fits (reporting true) l = (l.stopping ≡ true) × (l.queue ≡ [])
Fits (summarizing true a e) l = (l.stopping ≡ true) × (l.queue ≡ [])
Fits (finishing true) l = (l.stopping ≡ true) × (l.queue ≡ [])
Fits gone l = (l.stopping ≡ true) × (l.queue ≡ []) × (l.writer_busy ≡ false)
Fits _ l = Unit

-- The steps that the writer needs at most.
abbrev pub rest_of_turn : Phase → Bool → ℕ
rest_of_turn waiting stopping = if stopping then 4 else 0
rest_of_turn (writing e) stopping = 5 + (if stopping then 4 else 0)
rest_of_turn looking stopping = 4 + (if stopping then 4 else 0)
rest_of_turn (reporting false) stopping = 3 + (if stopping then 4 else 0)
rest_of_turn (summarizing false a e) stopping = 2 + (if stopping then 4 else 0)
rest_of_turn (finishing false) stopping = 1 + (if stopping then 4 else 0)
rest_of_turn (reporting true) stopping = 3
rest_of_turn (summarizing true a e) stopping = 2
rest_of_turn (finishing true) stopping = 1
rest_of_turn gone stopping = 0

abbrev pub cost : Phase → LogQueue → ℕ
cost p l = 6 * length l.queue + rest_of_turn p l.stopping

-- One step of the writer, for each phase.
pub record Progress (p : Phase) (v w : World) : Type 0 where
  pub fits : Fits w.phase w.manager
  pub cheaper : cost w.phase w.manager ≤ cost p v.manager - 1
  pub same_events :
      w.written ++ in_hand w.phase ++ w.manager.queue ≡ v.written ++ in_hand p ++ v.manager.queue
  pub same_stopping : w.manager.stopping ≡ v.manager.stopping

wake-Progress :
    (es : List Event) (stopping : Bool) (w : World)
    → w.manager.queue ≡ es
    → w.manager.stopping ≡ stopping
    → Fits waiting w.manager
    → Progress waiting w (moved (wake es stopping w.manager) w)
unfolding wake
wake-Progress [] false w queue same fits = record {
  fits = fits;
  cheaper = ground (arith, ap length queue, same);
  same_events = refl;
  same_stopping = refl;
}
wake-Progress [] true w queue same fits = record {
  fits = (same, queue);
  cheaper = ground (arith, ap length queue, same);
  same_events = refl;
  same_stopping = refl;
}
wake-Progress (e ∷ es) stopping w queue same fits =
    let shorter : length w.manager.queue ≡ length (e ∷ es) = ap length queue in
    record {
      fits = tt;
      cheaper = ground (arith, shorter);
      same_events =
          append_assoc w.written (e ∷ []) es
          ∙ ap (λ xs. w.written ++ xs) (sym queue)
          ∙ ap (λ xs. xs ++ w.manager.queue) (sym (append-nil w.written));
      same_stopping = refl;
    }

look-Progress :
    (es : List Event) (w : World)
    → w.manager.queue ≡ es
    → Progress looking w (record w { phase = look es })
unfolding look
look-Progress [] w queue = record {
  fits = tt;
  cheaper = ground (arith);
  same_events = refl;
  same_stopping = refl;
}
look-Progress (e ∷ es) w queue = record {
  fits = tt;
  cheaper = ground (arith);
  same_events = refl;
  same_stopping = refl;
}

-- The flag is one, so that both ends of `write_drop_summary` go on in the same way.
report_cases :
    (leaves : Bool) (l : LogQueue)
    → (report leaves l ≡ (l, finishing leaves))
      ⊎ ((x : ℕ) × (y : ℕ) × (report leaves l ≡ (
        record l {
          reported_dropped_access = l.dropped_access;
          reported_dropped_error = l.dropped_error;
        },
        summarizing leaves x y,
      )))
unfolding report
report_cases leaves l =
    elim (Bool-cases (
      l.dropped_access == l.reported_dropped_access
      && l.dropped_error == l.reported_dropped_error)) [
        | inl e ↦ inl (rw e refl)
        | inr e ↦ inr (
          minus64 l.dropped_access l.reported_dropped_access,
          minus64 l.dropped_error l.reported_dropped_error,
          rw e refl,
        )
      ]

report-Progress :
    (leaves : Bool) (w : World)
    → Fits (reporting leaves) w.manager
    → Progress (reporting leaves) w (moved (report leaves w.manager) w)
report-Progress leaves w fits = elim (report_cases leaves w.manager) [
  | inl e ↦ subst (λ r. Progress (reporting leaves) w (moved r w)) (sym e) (silent leaves fits)
  | inr (x, y, e) ↦
      subst (λ r. Progress (reporting leaves) w (moved r w)) (sym e) (speaks leaves x y fits)
]
  where
    silent :
        (leaves : Bool)
        → Fits (reporting leaves) w.manager
        → Progress (reporting leaves) w (record w { phase = finishing leaves })
    silent true fits = record {
      fits = fits;
      cheaper = ground arith;
      same_events = refl;
      same_stopping = refl;
    }
    silent false fits = record {
      fits = tt;
      cheaper = ground arith;
      same_events = refl;
      same_stopping = refl;
    }

    speaks :
        (leaves : Bool) (x y : ℕ)
        → Fits (reporting leaves) w.manager
        → Progress (reporting leaves) w (record w {
          manager = record w.manager {
            reported_dropped_access = w.manager.dropped_access;
            reported_dropped_error = w.manager.dropped_error;
          };
          phase = summarizing leaves x y;
        })
    speaks true x y fits = record {
      fits = fits;
      cheaper = ground arith;
      same_events = refl;
      same_stopping = refl;
    }
    speaks false x y fits = record {
      fits = tt;
      cheaper = ground arith;
      same_events = refl;
      same_stopping = refl;
    }

pub act-Progress : (p : Phase) (w : World) → Fits p w.manager → Progress p w (act true p w)
unfolding act look report finish
act-Progress waiting w fits = wake-Progress w.manager.queue w.manager.stopping w refl refl fits
act-Progress (writing e) w fits = record {
  fits = tt;
  cheaper = ground (arith);
  same_events = ap (λ xs. xs ++ w.manager.queue) (append-nil (w.written ++ e ∷ []));
  same_stopping = refl;
}
act-Progress looking w fits = look-Progress w.manager.queue w refl
act-Progress (reporting true) w fits = report-Progress true w fits
act-Progress (reporting false) w fits = report-Progress false w fits
act-Progress (summarizing true x y) w fits = record {
  fits = fits;
  cheaper = ground arith;
  same_events = refl;
  same_stopping = refl;
}
act-Progress (summarizing false x y) w fits = record {
  fits = tt;
  cheaper = ground arith;
  same_events = refl;
  same_stopping = refl;
}
act-Progress (finishing true) w fits = record {
  fits = (fits.0, fits.1, refl);
  cheaper = ground arith;
  same_events = refl;
  same_stopping = refl;
}
act-Progress (finishing false) w fits = record {
  fits = refl;
  cheaper = ground arith;
  same_events = refl;
  same_stopping = refl;
}
act-Progress gone w fits = record {
  fits = fits;
  cheaper = ground (arith, ap length fits.1);
  same_events = refl;
  same_stopping = refl;
}
