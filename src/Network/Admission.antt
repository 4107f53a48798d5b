-- ===== src/Network/Admission.antt =====
-- src/network/ConnectionAdmission.{hpp,cpp}: the cap on client connections, by atomic steps.
pub mod Steps
pub mod World
mod Tests
use model_lib.Base.{
  ℕ, ◌+◌, ◌-◌, ◌%◌, ◌^◌, Bool, true, false, ◌||◌, ◌&&◌, not, List, [], ◌∷◌, Option, none, some, ltb,
  ◌==◌, if◌then◌else◌, inc64,
}

-- `State`.
pub record Admission : Type 0 where
  pub maximum : ℕ
  pub active : ℕ
  pub rejected : ℕ

-- The constructor, `none` when it throws.
unfoldable pub admission : ℕ → Option Admission
admission maximum =
    if maximum == 0 || ltb 1000000 maximum
    then none
    else some (record { maximum = maximum; active = 0; rejected = 0 })

-- One turn of the loop of `try_acquire` on its local `current`: a slot is taken, the loop goes on
-- with the value that the exchange read, or the connection is refused.
pub data Turn : Type 0 where
  took refused : Turn
  again : ℕ → Turn

-- `compare_exchange_weak`, which may fail although the value is the one expected.
unfoldable pub exchange : Bool → ℕ → Admission → Admission × Turn
exchange spurious current s =
    if not spurious && s.active == current
    then (record s { active = (current + 1) % 2 ^ 64 }, took)
    else (s, again s.active)

unfoldable pub reject : Admission → Admission × Turn
reject s = (record s { rejected = inc64 s.rejected }, refused)

unfoldable pub turn : Bool → ℕ → Admission → Admission × Turn
turn spurious current s = if ltb current s.maximum then exchange spurious current s else reject s

-- `fetch_sub(1)`, by the destructor of a permit or by the `catch` of `try_acquire`.
unfoldable pub give_back : Admission → Admission
give_back s = record s { active = (s.active + 2 ^ 64 - 1) % 2 ^ 64 }

unfoldable pub next_turn :
    (ℕ → Admission × Option Bool) → Admission × Turn → Admission × Option Bool
next_turn loop (s, took) = (s, some true)
next_turn loop (s, refused) = (s, some false)
next_turn loop (s, again current) = loop current

-- The loop with no other thread at work, by which exchanges fail spuriously: whether a slot is
-- taken, or `none` when the list is used up.
unfoldable pub turns : List Bool → ℕ → Admission → Admission × Option Bool
turns [] current s = (s, none)
turns (spurious ∷ rest) current s =
    next_turn (λ read. turns rest read (turn spurious current s).0) (turn spurious current s)

unfoldable pub try_acquire : List Bool → Admission → Admission × Option Bool
try_acquire spurious s = turns spurious s.active s
