-- ===== src/Proxy/Probe/Owing.antt =====
-- src/proxy/BackendProbe.cpp: what is owed, and how the parts of a handler pay it.
use model_lib.Base.{
  ℕ, ◌+◌, ◌≤◌, ◌≡◌, ◌⊎◌, refl, inl, inr, Bool, true, false, not, List, [], ◌∷◌, ◌++◌, Option, none,
  some, is_some, arith, if◌then◌else◌, length, Bool-cases,
}
use model_lib.Base.Bytes.{Bytes}
use model_lib.Proxy.Probe.{
  BackendProbeResult, Probe, Platform, Pending, timer, cancelling, Throw, nowhere, at_start,
  at_operation, at_cancel, at_message, in_completion, raises, ended, caught, Outcome, Reaction,
  quiet, complete, finish, abort_noexcept, begins, unless_over,
}

-- An operation of the network, whose handler carries the probe on.
abbrev pub carries : Pending → ℕ
carries timer = 0
carries cancelling = 0
carries _ = 1

abbrev pub in_flight : List Pending → ℕ
in_flight [] = 0
in_flight (o ∷ os) = carries o + in_flight os

pub in_flight-append : (xs ys : List Pending) → in_flight (xs ++ ys) ≡ in_flight xs + in_flight ys
in_flight-append [] ys = omega arith
in_flight-append (x ∷ xs) ys = omega (arith, in_flight-append xs ys)

pub length-append : (xs ys : List BackendProbeResult) → length (xs ++ ys) ≡ length xs + length ys
length-append [] ys = omega arith
length-append (x ∷ xs) ys = omega (arith, length-append xs ys)

-- The calls that are still owed.
abbrev pub owed : Probe → ℕ
owed p = if p.completion then 1 else 0

-- A probe is finished when nothing is owed.
abbrev pub Consistent : Probe → Type 0
Consistent p = p.completion ≡ not p.finished

-- A reaction delivers what it no longer owes, and what is owed has begun something, unless so many
-- operations carry the probe on anyway.
pub record Pays (p : Probe) (others : ℕ) (r : Reaction) : Type 0 where
  pub consistent : Consistent r.probe
  pub paid : length r.delivered + owed r.probe ≡ owed p
  pub carried : owed r.probe ≤ in_flight r.begun + others

-- What a handler does and the `catch` around it.
abbrev pub Safe : Probe → ℕ → Reaction → Type 0
Safe p others r = Pays p others (caught r)

complete-Pays :
    (p q : Probe) (others : ℕ)
    → q.finished ≡ true
    → q.completion ≡ p.completion
    → Pays p others (complete nowhere q)
unfolding complete
complete-Pays p q others over same = record {
  consistent = ground (arith, over);
  paid = elim (Bool-cases q.completion) [
    | inl e ↦ ground (arith, e, same)
    | inr e ↦ ground (arith, e, same)
  ];
  carried = omega arith;
}

pub abort-Pays : (p : Probe) (others : ℕ) → Pays p others (abort_noexcept p)
unfolding abort_noexcept
abort-Pays p others = complete-Pays p _ others refl refl

-- Whatever an exception left behind, the completion is still called.
pub raises-Safe :
    (p q : Probe) (others : ℕ) → q.completion ≡ p.completion → Safe p others (raises q)
unfolding raises caught abort_noexcept complete
raises-Safe p q others same = record {
  consistent = refl;
  paid = elim (Bool-cases q.completion) [
    | inl e ↦ ground (arith, e, same)
    | inr e ↦ ground (arith, e, same)
  ];
  carried = omega arith;
}

complete-Safe :
    (throw : Throw) (p q : Probe) (others : ℕ)
    → q.finished ≡ true
    → q.completion ≡ p.completion
    → Safe p others (complete throw q)
unfolding complete caught abort_noexcept
complete-Safe throw p q others over same = record {
  consistent = ground (arith, over);
  paid = elim (Bool-cases q.completion) [
    | inl e ↦ ground (arith, e, same)
    | inr e ↦ ground (arith, e, same)
  ];
  carried = ground arith;
}

pub quiet-Safe :
    (p q : Probe) (others : ℕ)
    → Consistent q
    → q.completion ≡ p.completion
    → (q.finished ≡ true) ⊎ (1 ≤ others)
    → Safe p others (quiet q)
unfolding quiet caught
quiet-Safe p q others c same idle = record {
  consistent = c;
  paid = ground (arith, same);
  carried = elim idle [ inl over ↦ ground (arith, c, over) | inr more ↦ ground (arith, more) ];
}

pub either-Safe :
    (b : Bool) (p : Probe) (others : ℕ) (r s : Reaction)
    → (b ≡ true → Safe p others r)
    → (b ≡ false → Safe p others s)
    → Safe p others (if b then r else s)
either-Safe true p others r s hr hs = hr refl
either-Safe false p others r s hr hs = hs refl

begun-Safe :
    (operation : Pending) (p q : Probe) (others : ℕ)
    → carries operation ≡ 1
    → Consistent q
    → q.completion ≡ p.completion
    → Safe p others (record { probe = q; delivered = []; begun = operation ∷ []; thrown = false })
unfolding caught
begun-Safe operation p q others one c same = record {
  consistent = c;
  paid = ground (arith, same);
  carried = ground (arith, one);
}

pub begins-Safe :
    (throw : Throw) (operation : Pending) (p q : Probe) (others : ℕ)
    → carries operation ≡ 1
    → Consistent q
    → q.completion ≡ p.completion
    → Safe p others (begins throw operation q)
unfolding begins
begins-Safe nowhere operation p q others one c same = begun-Safe operation p q others one c same
begins-Safe at_start operation p q others one c same = begun-Safe operation p q others one c same
begins-Safe at_operation operation p q others one c same = raises-Safe p q others same
begins-Safe at_cancel operation p q others one c same = begun-Safe operation p q others one c same
begins-Safe at_message operation p q others one c same = begun-Safe operation p q others one c same
begins-Safe in_completion operation p q others one c same =
    begun-Safe operation p q others one c same

ended-Safe :
    (throw : Throw) (now : ℕ) (error : Option Bytes) (p q : Probe) (others : ℕ)
    → q.finished ≡ true
    → q.completion ≡ p.completion
    → Safe p others (ended throw now error q)
unfolding ended
ended-Safe nowhere now error p q others over same = complete-Safe nowhere p _ others over same
ended-Safe at_start now error p q others over same = complete-Safe at_start p _ others over same
ended-Safe at_operation now error p q others over same =
    complete-Safe at_operation p _ others over same
ended-Safe at_cancel now error p q others over same = raises-Safe p q others same
ended-Safe at_message now none p q others over same = complete-Safe at_message p _ others over same
ended-Safe at_message now (some text) p q others over same = raises-Safe p _ others same
ended-Safe in_completion now error p q others over same =
    complete-Safe in_completion p _ others over same

pub finish-Safe :
    (o : Outcome) (error : Option Bytes) (p q : Probe) (others : ℕ)
    → Consistent q
    → q.completion ≡ p.completion
    → Safe p others (finish o error q)
unfolding finish
finish-Safe o error p q others c same =
    either-Safe q.finished p others (quiet q) _ (λ over. quiet-Safe p q others c same (inl over))
      (λ _. ended-Safe o.throws o.now error p _ others refl same)

pub unless_over-Safe :
    (platform : Platform) (o : Outcome) (goes_on : Reaction) (p : Probe) (others : ℕ)
    → Consistent p
    → Safe p others goes_on
    → Safe p others (unless_over platform o goes_on p)
unfolding unless_over
unless_over-Safe platform o goes_on p others c rest =
    either-Safe p.finished p others (quiet p) _ (λ over. quiet-Safe p p others c refl (inl over))
      (λ _.
        either-Safe (is_some o.error) p others _ goes_on
          (λ _. finish-Safe o o.error p p others c refl) (λ _. rest))
