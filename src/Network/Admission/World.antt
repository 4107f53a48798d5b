-- ===== src/Network/Admission/World.antt =====
-- src/network/ConnectionAdmission.cpp: the count of connections, and one thread alone.
use model_lib.Base.{
  ℕ, zero, suc, ◌+◌, ◌%◌, ◌^◌, ◌≤◌, ◌<◌, ◌≡◌, ◌⊎◌, refl, inl, inr, Bool, true, false, ◌&&◌, ◌||◌,
  not, List, ◌∷◌, some, arith, ltb, ◌==◌, if◌then◌else◌, Bool-cases, ap,
}
use model_lib.Network.Admission.{
  Admission, admission, exchange, reject, turn, give_back, turns, next_turn, try_acquire,
}
use model_lib.Network.Admission.Steps.{
  World, after_turn, Step, loads, turns_once, gives_back, deletes, gives_back_again, Reachable,
  begun, steps,
}

-- The count is the number of slots held, less those given back once too often, in 64 bits.
pub record Within (maximum : ℕ) (w : World) : Type 0 where
  pub accounted : (w.shared.active + w.lost) % 2 ^ 64 ≡ w.held
  pub same_maximum : w.shared.maximum ≡ maximum
  pub capped : w.held ≤ maximum + w.lost
  pub word : w.shared.active < 2 ^ 64
  pub few_lost : w.lost ≤ 2 ^ 62

turn-Within :
    (maximum held unwinding lost : ℕ) (front : List ℕ) (current : ℕ) (back : List ℕ)
    (spurious : Bool) (s : Admission)
    → maximum ≤ 1000000
    → (s.active + lost) % 2 ^ 64 ≡ held
    → s.maximum ≡ maximum
    → held ≤ maximum + lost
    → s.active < 2 ^ 64
    → lost ≤ 2 ^ 62
    → Within maximum (after_turn front back held unwinding lost (turn spurious current s))
unfolding turn exchange reject after_turn
turn-Within maximum held unwinding lost front current back spurious s small accounted same capped
      word few =
    elim (Bool-cases (ltb current s.maximum)) [
      | inl room ↦ elim (Bool-cases (not spurious && s.active == current)) [
        | inl match ↦
            let here : s.active ≡ current = ground (arith, match) in
            let below : current < s.maximum = ground (arith, room) in
            rw (room, match)
              record {
                accounted = omega (arith, here, below, accounted, same, small, few);
                same_maximum = same;
                capped = omega (arith, here, below, accounted, same, small, few);
                word = omega (arith, below, same, small);
                few_lost = few;
              }
        | inr other ↦
            rw (room, other)
              record {
                accounted = accounted;
                same_maximum = same;
                capped = capped;
                word = word;
                few_lost = few;
              }
      ]
      | inr full ↦ rw full record {
        accounted = accounted;
        same_maximum = same;
        capped = capped;
        word = word;
        few_lost = few;
      }
    ]

Within-Step :
    {maximum : ℕ} {v w : World} → maximum ≤ 1000000 → Step v w → Within maximum v → Within maximum w
unfolding give_back
Within-Step small loads i = record {
  accounted = i.accounted;
  same_maximum = i.same_maximum;
  capped = i.capped;
  word = i.word;
  few_lost = i.few_lost;
}
Within-Step {maximum} small (turns_once {s} {held} {unwinding} {lost} front current back spurious)
      i =
    turn-Within maximum held unwinding lost front current back spurious s small i.accounted
      i.same_maximum i.capped i.word i.few_lost
Within-Step small (gives_back {s} {held} {unwinding} {lost}) i = record {
  accounted = omega (arith, i.accounted, i.word, i.few_lost, i.capped, small);
  same_maximum = i.same_maximum;
  capped = omega (arith, i.capped);
  word = omega arith;
  few_lost = i.few_lost;
}
Within-Step small (deletes {s} {held} {unwinding} {lost}) i = record {
  accounted = omega (arith, i.accounted, i.word, i.few_lost, i.capped, small);
  same_maximum = i.same_maximum;
  capped = omega (arith, i.capped);
  word = omega arith;
  few_lost = i.few_lost;
}
Within-Step small (gives_back_again {s} {held} {unwinding} {lost} few) i = record {
  accounted = omega (arith, i.accounted, i.word, i.few_lost, i.capped, small);
  same_maximum = i.same_maximum;
  capped = omega (arith, i.capped);
  word = omega arith;
  few_lost = omega (arith, few);
}

started :
    (maximum : ℕ) (start : Admission)
    → admission maximum ≡ some start
    → (maximum ≤ 1000000) × (start ≡ record { maximum = maximum; active = 0; rejected = 0 })
unfolding admission
started maximum start made = elim (Bool-cases (maximum == 0 || ltb 1000000 maximum)) [
  | inl bad ↦ absurd (let h = rw bad at made in cc h)
  | inr fine ↦
      let h : some (record { maximum = maximum; active = 0; rejected = 0 }) ≡ some start =
        rw fine at made in
      (ground (arith, fine), cc h)
]

reached-Within :
    (maximum : ℕ) (start : Admission) (w : World)
    → admission maximum ≡ some start
    → Reachable maximum start w
    → Within maximum w
reached-Within maximum start w made begun =
    let made_of = (started maximum start made).1 in
    let active : start.active ≡ 0 = ap (λ (s : Admission). s.active) made_of in
    record {
      accounted = omega (arith, active);
      same_maximum = ap (λ (s : Admission). s.maximum) made_of;
      capped = omega arith;
      word = omega (arith, active);
      few_lost = omega arith;
    }
reached-Within maximum start w made (steps {v} path step) =
    Within-Step (started maximum start made).0 step (reached-Within maximum start v made path)

-- From the state that the constructor makes, under every interleaving of loads, exchanges, spurious
-- failures, refusals, returned permits and failed allocations, where no more than 2 ^ 62 slots are given
-- back a second time because there was no control block for their permit: the slots held are, in 64
-- bits, the count of active connections and the number of slots given back twice, and they are no more
-- than the maximum and that number. With no such slot the count is the number of slots that are held,
-- and is no more than the maximum.
pub Reachable-Within :
    (maximum : ℕ) (start : Admission) (w : World)
    → admission maximum ≡ some start
    → Reachable maximum start w
    → Within maximum w × ((0 < w.lost) ⊎ ((w.shared.active ≡ w.held) × (w.held ≤ maximum)))
Reachable-Within maximum start w made reached =
    let i = reached-Within maximum start w made reached in
    (i, ground (arith, i.accounted, i.word, i.capped))

-- So many spurious failures, then an exchange that does not fail so.
unfoldable pub spurious_first : ℕ → List Bool → List Bool
spurious_first zero rest = false ∷ rest
spurious_first (suc n) rest = true ∷ spurious_first n rest

-- With no other thread at work and fewer active connections than the maximum, `try_acquire` takes
-- a slot at its first exchange that does not fail spuriously; with the maximum reached it refuses
-- at once, and counts the refusal.
pub try_acquire_alone :
    (failures : ℕ) (rest : List Bool) (s : Admission)
    → s.maximum ≤ 1000000
    → try_acquire (spurious_first failures rest) s ≡ (
        if ltb s.active s.maximum
        then (record s { active = s.active + 1 }, some true)
        else (record s { rejected = (s.rejected + 1) % 2 ^ 64 }, some false))
unfolding try_acquire turns turn exchange reject next_turn spurious_first
try_acquire_alone failures rest s small = elim (Bool-cases (ltb s.active s.maximum)) [
  | inl room ↦ alone failures room
  | inr full ↦ refused_at_once failures full
]
  where
    alone :
        (n : ℕ)
        → ltb s.active s.maximum ≡ true
        → turns (spurious_first n rest) s.active s ≡ (
            if ltb s.active s.maximum
            then (record s { active = s.active + 1 }, some true)
            else (record s { rejected = (s.rejected + 1) % 2 ^ 64 }, some false))
    alone zero room =
        let self : (s.active == s.active) ≡ true = ground arith in
        let small_sum : (s.active + 1) % 2 ^ 64 ≡ s.active + 1 = ground (arith, room, small) in
        rw (room, self, small_sum) refl
    alone (suc n) room = rw room (let rest_of = alone n room in rw room at rest_of)

    refused_at_once :
        (n : ℕ)
        → ltb s.active s.maximum ≡ false
        → turns (spurious_first n rest) s.active s ≡ (
            if ltb s.active s.maximum
            then (record s { active = s.active + 1 }, some true)
            else (record s { rejected = (s.rejected + 1) % 2 ^ 64 }, some false))
    refused_at_once zero full = rw full refl
    refused_at_once (suc n) full = rw full refl
