-- ===== src/Network/Admission/Tests.antt =====
-- Runs of the admission, and its theorems at concrete states.
use model_lib.Base.{
  ◌<◌, ◌⊎◌, ◌≡◌, ◌≤◌, ◌-◌, ◌^◌, refl, true, false, [], ◌∷◌, some, arith, ltb, if◌then◌else◌,
}
use model_lib.Network.Admission.{Admission, admission, turn, exchange, try_acquire, give_back}
use model_lib.Network.Admission.Steps.{
  World, loads, turns_once, Reachable, begun, steps, after_turn,
}
use model_lib.Network.Admission.World.{Within, Reachable-Within, try_acquire_alone, spurious_first}

abbrev start : Admission
start = record { maximum = 1; active = 0; rejected = 0 }

-- Two threads load the count, and one of them takes the slot.
abbrev raced : World
raced = after_turn [] (0 ∷ []) 0 0 0 (turn false 0 start)

raced-Reachable : Reachable 1 start raced
raced-Reachable = steps (steps (steps begun loads) loads) (turns_once [] 0 (0 ∷ []) false)

Reachable-Within_example :
    Within 1 raced × ((0 < raced.lost) ⊎ ((raced.shared.active ≡ raced.held) × (raced.held ≤ 1)))
Reachable-Within_example = Reachable-Within 1 start raced (unfold admission in refl) raced-Reachable

-- A slot that is given back twice takes the count below zero.
counted_below_zero : (give_back (give_back (record start { active = 1 }))).active ≡ 2 ^ 64 - 1
unfolding give_back
counted_below_zero = refl

one_taken : raced ≡ record {
  shared = record { maximum = 1; active = 1; rejected = 0 };
  held = 1;
  unwinding = 0;
  lost = 0;
  loops = 0 ∷ [];
}
unfolding after_turn turn exchange
one_taken = refl

try_acquire_alone_example : try_acquire (spurious_first 2 []) start ≡ (
    if ltb 0 1
    then (record start { active = 1 }, some true)
    else (record start { rejected = 1 }, some false))
try_acquire_alone_example = try_acquire_alone 2 [] start (omega arith)
