-- ===== src/Network/Admission/Steps.antt =====
-- src/network/ConnectionAdmission.cpp: the atomic steps of the threads that call it.
use model_lib.Base.{ℕ, suc, ◌^◌, ◌<◌, Bool, List, [], ◌∷◌, ◌++◌}
use model_lib.Network.Admission.{Admission, Turn, took, refused, again, turn, give_back}

-- The shared state; the slots that are held; the threads whose pointer to a permit has deleted it, for
-- want of a control block, and that come to the `catch` next; the slots that such threads have given
-- back a second time; and the local `current` of each thread in the loop.
pub record World : Type 0 where
  pub shared : Admission
  pub held : ℕ
  pub unwinding : ℕ
  pub lost : ℕ
  pub loops : List ℕ

unfoldable pub after_turn : List ℕ → List ℕ → ℕ → ℕ → ℕ → Admission × Turn → World
after_turn front back held unwinding lost (s, took) = record {
  shared = s;
  held = suc held;
  unwinding = unwinding;
  lost = lost;
  loops = front ++ back;
}
after_turn front back held unwinding lost (s, refused) = record {
  shared = s;
  held = held;
  unwinding = unwinding;
  lost = lost;
  loops = front ++ back;
}
after_turn front back held unwinding lost (s, again current) = record {
  shared = s;
  held = held;
  unwinding = unwinding;
  lost = lost;
  loops = front ++ current ∷ back;
}

-- A slot is held from the exchange that takes it to the end of its permit, or to the `catch` when there
-- is no memory for the permit.
pub data Step : World → World → Type 0 where
  loads :
      {s : Admission} {held unwinding lost : ℕ} {loops : List ℕ}
      → Step
          (record { shared = s; held = held; unwinding = unwinding; lost = lost; loops = loops })
          (record {
            shared = s;
            held = held;
            unwinding = unwinding;
            lost = lost;
            loops = s.active ∷ loops;
          })
  turns_once :
      {s : Admission} {held unwinding lost : ℕ} (front : List ℕ) (current : ℕ) (back : List ℕ)
      (spurious : Bool)
      → Step
          (record {
            shared = s;
            held = held;
            unwinding = unwinding;
            lost = lost;
            loops = front ++ current ∷ back;
          })
          (after_turn front back held unwinding lost (turn spurious current s))
  gives_back :
      {s : Admission} {held unwinding lost : ℕ} {loops : List ℕ}
      → Step
          (record {
            shared = s;
            held = suc held;
            unwinding = unwinding;
            lost = lost;
            loops = loops;
          })
          (record {
            shared = give_back s;
            held = held;
            unwinding = unwinding;
            lost = lost;
            loops = loops;
          })
  deletes :
      {s : Admission} {held unwinding lost : ℕ} {loops : List ℕ}
      → Step
          (record {
            shared = s;
            held = suc held;
            unwinding = unwinding;
            lost = lost;
            loops = loops;
          })
          (record {
            shared = give_back s;
            held = held;
            unwinding = suc unwinding;
            lost = lost;
            loops = loops;
          })
  gives_back_again :
      {s : Admission} {held unwinding lost : ℕ} {loops : List ℕ}
      → lost < 2 ^ 62
      → Step
          (record {
            shared = s;
            held = held;
            unwinding = suc unwinding;
            lost = lost;
            loops = loops;
          })
          (record {
            shared = give_back s;
            held = held;
            unwinding = unwinding;
            lost = suc lost;
            loops = loops;
          })

pub data Reachable (maximum : ℕ) (start : Admission) : World → Type 0 where
  begun :
      Reachable maximum start
        (record { shared = start; held = 0; unwinding = 0; lost = 0; loops = [] })
  steps : {v w : World} → Reachable maximum start v → Step v w → Reachable maximum start w
