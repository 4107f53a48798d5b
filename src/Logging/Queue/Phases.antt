-- ===== src/Logging/Queue/Phases.antt =====
-- src/logging/LogManager.cpp: where the writer stands fits what the mutex guards, at every step.
use model_lib.Base.{
  ℕ, ◌≡◌, refl, ap, ◌∙◌, inl, inr, Bool, true, false, List, [], ◌∷◌, if◌then◌else◌, length,
  Bool-cases, leb, Option, none, some,
}
use model_lib.Logging.Event.{Event}
use model_lib.Logging.Queue.{
  LogQueue, Phase, waiting, looking, gone, writing, reporting, finishing, summarizing, is_access,
  drop_event, push_event, without_access, displace, enqueue_full, enqueue, stop, fail,
}
use model_lib.Logging.Queue.World.{
  World, constructed, call, broken, act, writer_step, Step, calls, stops, writes, Reachable, begun,
  steps,
}
use model_lib.Logging.Queue.Progress.{Fits, act-Progress}

-- What the calls leave alone.
abbrev Kept : LogQueue → LogQueue → Type 0
Kept l m = (m.writer_busy ≡ l.writer_busy) × (m.stopping ≡ l.stopping)

drop_event-Kept : (e : Event) (l : LogQueue) → Kept l (drop_event e l)
unfolding drop_event
drop_event-Kept e l = elim (Bool-cases (is_access e)) [
  | inl f ↦ rw f (refl, refl)
  | inr f ↦ rw f (refl, refl)
]

drop_event_queue : (e : Event) (l : LogQueue) → (drop_event e l).queue ≡ l.queue
unfolding drop_event
drop_event_queue e l = elim (Bool-cases (is_access e)) [ inl f ↦ rw f refl | inr f ↦ rw f refl ]

push_event-Kept : (memory : Bool) (e : Event) (l : LogQueue) → Kept l (push_event memory e l)
unfolding push_event
push_event-Kept false e l = drop_event-Kept e l
push_event-Kept true e l = elim (Bool-cases (is_access e)) [
  | inl f ↦ rw f (refl, refl)
  | inr f ↦ rw f (refl, refl)
]

displace-Kept :
    (memory : Bool) (e : Event) (rest : Option (List Event)) (l : LogQueue)
    → Kept l (displace memory e rest l)
unfolding displace
displace-Kept memory e none l = drop_event-Kept e l
displace-Kept memory e (some rest) l = push_event-Kept memory e _

either-Kept : (b : Bool) (l m n : LogQueue) → Kept l m → Kept l n → Kept l (if b then m else n)
either-Kept true l m n hm hn = hm
either-Kept false l m n hm hn = hn

enqueue-Kept :
    (capacity : ℕ) (memory : Bool) (e : Event) (l : LogQueue) → Kept l (enqueue capacity memory e l)
unfolding enqueue enqueue_full
enqueue-Kept capacity memory e l =
    let dropped = drop_event-Kept e l in
    either-Kept l.stopping l _ _ dropped (
      either-Kept (leb capacity (length l.queue)) l _ _
        (either-Kept (is_access e) l _ _ dropped
          (displace-Kept memory e (without_access l.queue) l))
        (push_event-Kept memory e l))

if_true : {A : Type 0} (b : Bool) (x y : A) → b ≡ true → (if b then x else y) ≡ x
if_true b x y e = rw e refl

enqueue_stopping :
    (capacity : ℕ) (memory : Bool) (e : Event) (l : LogQueue)
    → l.stopping ≡ true
    → (enqueue capacity memory e l).queue ≡ l.queue
unfolding enqueue
enqueue_stopping capacity memory e l stopped =
    ap (λ (m : LogQueue). m.queue) (if_true l.stopping (drop_event e l) _ stopped)
    ∙ drop_event_queue e l

-- A phase fits also when the queue grows before the end.
Fits-grows :
    (p : Phase) (l m : LogQueue)
    → Fits p l
    → Kept l m
    → (l.stopping ≡ true → m.queue ≡ l.queue)
    → Fits p m
Fits-grows waiting l m fits (busy, stopping) same = busy ∙ fits
Fits-grows (writing e) l m fits kept same = tt
Fits-grows looking l m fits kept same = tt
Fits-grows (reporting true) l m fits (busy, stopping) same =
    (stopping ∙ fits.0, same fits.0 ∙ fits.1)
Fits-grows (reporting false) l m fits kept same = tt
Fits-grows (summarizing true x y) l m fits (busy, stopping) same =
    (stopping ∙ fits.0, same fits.0 ∙ fits.1)
Fits-grows (summarizing false x y) l m fits kept same = tt
Fits-grows (finishing true) l m fits (busy, stopping) same =
    (stopping ∙ fits.0, same fits.0 ∙ fits.1)
Fits-grows (finishing false) l m fits kept same = tt
Fits-grows gone l m fits (busy, stopping) same =
    (stopping ∙ fits.0, same fits.0 ∙ fits.1, busy ∙ fits.2)

Fits-stop : (p : Phase) (l : LogQueue) → Fits p l → Fits p (record l { stopping = true })
Fits-stop waiting l fits = fits
Fits-stop (writing e) l fits = tt
Fits-stop looking l fits = tt
Fits-stop (reporting true) l fits = (refl, fits.1)
Fits-stop (reporting false) l fits = tt
Fits-stop (summarizing true x y) l fits = (refl, fits.1)
Fits-stop (summarizing false x y) l fits = tt
Fits-stop (finishing true) l fits = (refl, fits.1)
Fits-stop (finishing false) l fits = tt
Fits-stop gone l fits = (refl, fits.1, fits.2)

broken-Fits :
    (events : List Event) (x y : ℕ) (w : World)
    → Fits (broken events x y w).phase (broken events x y w).manager
unfolding broken fail
broken-Fits events x y w = (refl, refl, refl)

act-Fits :
    (ok : Bool) (p : Phase) (w : World)
    → Fits p w.manager
    → Fits (act ok p w).phase (act ok p w).manager
unfolding act
act-Fits true p w fits = (act-Progress p w fits).fits
act-Fits false (writing e) w fits = broken-Fits (e ∷ []) 0 0 w
act-Fits false (summarizing leaves x y) w fits = broken-Fits [] x y w
act-Fits false waiting w fits = (act-Progress waiting w fits).fits
act-Fits false looking w fits = (act-Progress looking w fits).fits
act-Fits false (reporting leaves) w fits = (act-Progress (reporting leaves) w fits).fits
act-Fits false (finishing leaves) w fits = (act-Progress (finishing leaves) w fits).fits
act-Fits false gone w fits = (act-Progress gone w fits).fits

Step-Fits :
    {capacity : ℕ} {v w : World}
    → Step capacity v w
    → Fits v.phase v.manager
    → Fits w.phase w.manager
unfolding writer_step call stop
Step-Fits {capacity} {v} (calls memory e) fits =
    Fits-grows v.phase v.manager (enqueue capacity memory e v.manager) fits
      (enqueue-Kept capacity memory e v.manager) (enqueue_stopping capacity memory e v.manager)
Step-Fits {capacity} {v} stops fits = Fits-stop v.phase v.manager fits
Step-Fits {capacity} {v} (writes ok) fits = act-Fits ok v.phase v fits

pub Reachable-Fits : (capacity : ℕ) (w : World) → Reachable capacity w → Fits w.phase w.manager
unfolding constructed
Reachable-Fits capacity w begun = refl
Reachable-Fits capacity w (steps {v} reached step) =
    Step-Fits step (Reachable-Fits capacity v reached)
