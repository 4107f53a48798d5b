-- ===== src/Base/Bytes.antt =====
-- `std::string` and `std::string_view` as lists of byte values, with the classes of <cctype> in
-- the "C" locale.
use Prim.Native.Char.{code}
use Prim.Native.String.{String}
use Prim.Native.Nat.{ℕ, zero, suc, ◌+◌, ◌-◌, ◌*◌, ◌/◌, ◌%◌}
use mathlib.Core.Path.{◌≡◌}
use mathlib.Core.Logic.{◌↔◌}
use mathlib.Core.Bool.{Bool, true, false, ◌&&◌, ◌||◌}
use mathlib.Core.List.{List, [], ◌∷◌, ◌++◌}
use mathlib.Core.Option.{Option, none, some}
use model_lib.Base.Lists.{any, All}
use model_lib.Base.Tests.{is_some, Option-cases}
use mathlib.Core.List.{append-nil, append_assoc}
use mathlib.Core.Logic.{inl, inr}
use mathlib.Core.Path.{refl}
use native.Mathlib.Omega.{arith}
use model_lib.Base.Tests.{leb, ltb, ◌==◌, if◌then◌else◌, Eq}

abbrev pub Bytes : Type 0
Bytes = List ℕ

-- A literal of the source, which is ASCII.
abbrev pub codes : String → Bytes
codes String.[] = []
codes (String.◌∷◌ c s) = code c ∷ codes s

unfoldable pub equal : Bytes → Bytes → Bool
equal [] [] = true
equal (x ∷ xs) (y ∷ ys) = x == y && equal xs ys
equal _ _ = false

pub equal_iff : (s t : Bytes) → (equal s t ≡ true) ↔ (s ≡ t)
unfolding equal
equal_iff [] [] = ground arith
equal_iff [] (d ∷ t) = ground arith
equal_iff (c ∷ s) [] = ground arith
equal_iff (c ∷ s) (d ∷ t) = ground (arith, equal_iff s t)

instance abbrev pub bytes_eq : Eq Bytes
bytes_eq = record { beq = equal; beq_iff = equal_iff }

abbrev pub is_digit : ℕ → Bool
is_digit c = leb b'0' c && leb c b'9'

abbrev pub is_upper : ℕ → Bool
is_upper c = leb b'A' c && leb c b'Z'

abbrev pub is_lower : ℕ → Bool
is_lower c = leb b'a' c && leb c b'z'

abbrev pub is_alnum : ℕ → Bool
is_alnum c = is_digit c || is_upper c || is_lower c

abbrev pub is_xdigit : ℕ → Bool
is_xdigit c = is_digit c || (leb b'A' c && leb c b'F') || (leb b'a' c && leb c b'f')

abbrev pub to_lower : ℕ → ℕ
to_lower c = if is_upper c then c + 32 else c

abbrev pub is_empty : Bytes → Bool
is_empty [] = true
is_empty (c ∷ s) = false

-- `s.back() == c`, false for the empty view.
unfoldable pub ends_in : ℕ → Bytes → Bool
ends_in c [] = false
ends_in c (d ∷ []) = d == c
ends_in c (d ∷ e ∷ s) = ends_in c (e ∷ s)

-- `s.front() == c`, false for the empty view.
abbrev pub starts_in : ℕ → Bytes → Bool
starts_in c [] = false
starts_in c (d ∷ s) = d == c

-- `s.remove_suffix(1)`.
unfoldable pub remove_last : Bytes → Bytes
remove_last [] = []
remove_last (c ∷ []) = []
remove_last (c ∷ d ∷ s) = c ∷ remove_last (d ∷ s)

abbrev pub contains : ℕ → Bytes → Bool
contains c = any (λ d. d == c)

-- `find(c)`, with the views before and after the place found.
unfoldable pub cut : ℕ → Bytes → Option (Bytes × Bytes)
cut c [] = none
cut c (d ∷ s) =
    let rest = cut c s in
    if d == c then some ([], s) else elim rest [ none ↦ none | some (a, b) ↦ some (d ∷ a, b) ]

-- The loop `while (start < size)` that looks for `sep` from `start`, handles the view up to there,
-- stops if there was none, and goes on behind it: the views that it handles, each with whether it
-- was the last. Behind a `sep` at the end there is nothing left to handle.
unfoldable pub walk : ℕ → Bytes → Bytes → List (Bytes × Bool)
walk sep current [] = (current, true) ∷ []
walk sep current (c ∷ s) =
    let behind = walk sep [] s in
    let further = walk sep (current ++ c ∷ []) s in
    if c == sep then (current, false) ∷ (if is_empty s then [] else behind) else further

unfoldable pub components : ℕ → Bytes → List (Bytes × Bool)
components sep s = if is_empty s then [] else walk sep [] s

-- `s.starts_with(p)`, and what is left behind the prefix.
unfoldable pub strip : Bytes → Bytes → Option Bytes
strip [] s = some s
strip (c ∷ p) [] = none
strip (c ∷ p) (d ∷ s) = if d == c then strip p s else none

abbrev pub starts_with : Bytes → Bytes → Bool
starts_with p s = is_some (strip p s)

-- The value of a sequence of digits, with no bound.
unfoldable pub decimal : ℕ → Bytes → ℕ
decimal value [] = value
decimal value (c ∷ s) = decimal (value * 10 + (c - b'0')) s

-- What `cut` finds is the first place.
pub cut_sound :
    (c : ℕ) (s a b : Bytes) → cut c s ≡ some (a, b) → (s ≡ a ++ c ∷ b) × (contains c a ≡ false)
unfolding cut
cut_sound c [] a b e = absurd (cc)
cut_sound c (d ∷ s) a b e = elim (Option-cases (cut c s)) [
  | inl missing ↦ ground (arith, missing)
  | inr (xy, found) ↦ ground (arith, found, cut_sound c s xy.0 xy.1 found)
]

pub contains-append : (c : ℕ) (a b : Bytes) → contains c (a ++ b) ≡ (contains c a || contains c b)
contains-append c [] b = refl
contains-append c (d ∷ a) b = ground (arith, contains-append c a b)

-- No view that the loop handles holds the separator.
pub walk_lacks :
    (sep : ℕ) (current s : Bytes)
    → contains sep current ≡ false
    → All (λ (p : Bytes × Bool). contains sep p.0 ≡ false) (walk sep current s)
unfolding walk
walk_lacks sep current [] h = (h, tt)
walk_lacks sep current (c ∷ s) h = ground (
  arith,
  contains-append sep current (c ∷ []),
  walk_lacks sep [] s refl,
  walk_lacks sep (current ++ c ∷ []) s,
)

pub walk-plain :
    (sep : ℕ) (current s : Bytes)
    → contains sep s ≡ false
    → walk sep current s ≡ (current ++ s, true) ∷ []
unfolding walk
walk-plain sep current [] h = rw append-nil
walk-plain sep current (c ∷ s) h =
    ground (arith, walk-plain sep (current ++ c ∷ []) s, append_assoc current (c ∷ []) s)

pub walk-cons :
    (sep : ℕ) (current s t : Bytes)
    → contains sep s ≡ false
    → walk sep current (s ++ sep ∷ t)
      ≡ (current ++ s, false) ∷ (if is_empty t then [] else walk sep [] t)
unfolding walk
walk-cons sep current [] t h = ground (arith, append-nil current)
walk-cons sep current (c ∷ s) t h =
    ground (arith, walk-cons sep (current ++ c ∷ []) s t, append_assoc current (c ∷ []) s)

-- `std::to_string` of a number with at most so many digits.
unfoldable pub decimal_text : ℕ → ℕ → Bytes
decimal_text zero n = []
decimal_text (suc digits) n =
    let front = decimal_text digits (n / 10) in
    (if ltb n 10 then [] else front) ++ (b'0' + n % 10) ∷ []
