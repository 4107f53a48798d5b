-- ===== src/Proxy/Probe/Once.antt =====
-- src/proxy/BackendProbe.cpp: the completion of a probe is called once.
use model_lib.Base.{
  ℕ, ◌+◌, ◌≤◌, ◌≡◌, ◌⊎◌, refl, inl, inr, true, List, [], ◌∷◌, ◌++◌, arith, length, Bool-cases,
}
use model_lib.Routing.Router.{BackendConfig}
use model_lib.Proxy.Probe.{
  BackendProbeResult, Probe, Platform, Pending, cancelling, Reaction, begin, started_operations,
  abort_noexcept, guarded, World, reacted, Step, handles, cancels, cancel_throws, Reachable, starts,
  steps,
}
use model_lib.Proxy.Probe.Owing.{
  carries, in_flight, in_flight-append, length-append, owed, Consistent, Pays, abort-Pays,
}
use model_lib.Proxy.Probe.Paying.{guarded-Pays}

-- The probe is consistent, one call in all is delivered or owed, and what is owed is carried on.
pub record Once (w : World) : Type 0 where
  pub consistent : Consistent w.probe
  pub one_call : length w.delivered + owed w.probe ≡ 1
  pub carried : owed w.probe ≤ in_flight w.pending

reacted-Once :
    (p : Probe) (rest : List Pending) (delivered : List BackendProbeResult) (r : Reaction)
    → length delivered + owed p ≡ 1
    → Pays p (in_flight rest) r
    → Once (reacted rest delivered r)
unfolding reacted
reacted-Once p rest delivered r one pays = record {
  consistent = pays.consistent;
  one_call = omega (arith, one, pays.paid, length-append delivered r.delivered);
  carried = omega (arith, pays.carried, in_flight-append rest r.begun);
}

-- What is still owed is not finished.
finished_or_owed : (p : Probe) (n : ℕ) → Consistent p → owed p ≤ n → (p.finished ≡ true) ⊎ (1 ≤ n)
finished_or_owed p n c h = elim (Bool-cases p.finished) [
  | inl over ↦ inl over
  | inr going ↦ inr (ground (arith, c, going, h))
]

Step-Once : (platform : Platform) {v w : World} → Step platform v w → Once v → Once w
Step-Once platform (handles {p} {delivered} front operation back o) i =
    let all = in_flight-append front (operation ∷ back) in
    let others = in_flight-append front back in
    reacted-Once p (front ++ back) delivered (guarded platform operation o p) i.one_call (
      guarded-Pays platform o p (in_flight (front ++ back)) i.consistent operation (
        finished_or_owed p (carries operation + in_flight (front ++ back)) i.consistent
          (omega (arith, i.carried, all, others))))
Step-Once platform (cancels {w}) i = record {
  consistent = i.consistent;
  one_call = i.one_call;
  carried = omega (arith, i.carried, in_flight-append w.pending (cancelling ∷ []));
}
Step-Once platform (cancel_throws {w}) i =
    reacted-Once w.probe w.pending w.delivered (abort_noexcept w.probe) i.one_call
      (abort-Pays w.probe (in_flight w.pending))

Reachable-Once :
    (platform : Platform) (backend : BackendConfig) (now : ℕ) (w : World)
    → Reachable platform backend now w
    → Once w
unfolding begin started_operations
Reachable-Once platform backend now w starts = record {
  consistent = refl;
  one_call = refl;
  carried = omega arith;
}
Reachable-Once platform backend now w (steps {v} reached step) =
    Step-Once platform step (Reachable-Once platform backend now v reached)

-- In whatever order the handlers of a probe run, with errors, timeouts and cancellations, and with
-- exceptions at the start of a handler, at the start of an operation, inside `finish` after the probe
-- is marked as finished, and in the completion itself, the completion has been called exactly once, or
-- not yet and then an operation of the network is pending that carries the probe on.
pub Reachable-delivered :
    (platform : Platform) (backend : BackendConfig) (now : ℕ) (w : World)
    → Reachable platform backend now w
    → (length w.delivered ≡ 1) ⊎ ((length w.delivered ≡ 0) × (1 ≤ in_flight w.pending))
Reachable-delivered platform backend now w reached =
    let i = Reachable-Once platform backend now w reached in
    elim (Bool-cases w.probe.completion) [
      | inl e ↦ inr (ground (arith, e, i.one_call), ground (arith, e, i.carried))
      | inr e ↦ inl (ground (arith, e, i.one_call))
    ]
