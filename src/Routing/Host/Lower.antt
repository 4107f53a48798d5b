-- ===== src/Routing/Host/Lower.antt =====
-- src/routing/HostNormalizer.cpp: each part of the syntax in a name with its letters in lower case.
use mathlib.Core.List.{map, map-append}
use mathlib.Core.Option
use model_lib.Base.Bytes.{
  Bytes, to_lower, components, cut, ends_in, is_empty, remove_last, starts_in, walk,
}
use model_lib.Base.{ℕ, suc, ◌≡◌, refl, ap, Bool, [], ◌∷◌, ◌++◌, arith, ◌==◌, length, all, any}
use model_lib.Routing.Host.{cut_pair, lower}

-- A separator: no letter becomes it.
abbrev pub Caseless : ℕ → Type 0
Caseless c = (d : ℕ) → (to_lower d == c) ≡ (d == c)

pub dot : Caseless b'.'
dot d = ground arith

pub colon : Caseless b':'
colon d = ground arith

pub closing : Caseless b']'
closing d = ground arith

pub opening : Caseless b'['
opening d = ground arith

pub hyphen : Caseless b'-'
hyphen d = ground arith

pub is_empty-lower : (s : Bytes) → is_empty (lower s) ≡ is_empty s
is_empty-lower [] = refl
is_empty-lower (c ∷ s) = refl

pub length-lower : (s : Bytes) → length (lower s) ≡ length s
length-lower [] = refl
length-lower (c ∷ s) = ap suc (length-lower s)

pub ends_in-lower : (c : ℕ) (s : Bytes) → Caseless c → ends_in c (lower s) ≡ ends_in c s
unfolding ends_in
ends_in-lower c [] h = refl
ends_in-lower c (d ∷ []) h = h d
ends_in-lower c (d ∷ e ∷ s) h = ends_in-lower c (e ∷ s) h

pub starts_in-lower : (c : ℕ) (s : Bytes) → Caseless c → starts_in c (lower s) ≡ starts_in c s
starts_in-lower c [] h = refl
starts_in-lower c (d ∷ s) h = h d

pub remove_last-lower : (s : Bytes) → remove_last (lower s) ≡ lower (remove_last s)
unfolding remove_last
remove_last-lower [] = refl
remove_last-lower (c ∷ []) = refl
remove_last-lower (c ∷ d ∷ s) = ap (◌∷◌ (to_lower c)) (remove_last-lower (d ∷ s))

-- A test on bytes that does not tell the cases apart.
pub all-lower :
    (p : ℕ → Bool) (s : Bytes) → ((c : ℕ) → p (to_lower c) ≡ p c) → all p (lower s) ≡ all p s
all-lower p [] h = refl
all-lower p (c ∷ s) h = rw (h c, all-lower p s h)

pub any-lower :
    (p : ℕ → Bool) (s : Bytes) → ((c : ℕ) → p (to_lower c) ≡ p c) → any p (lower s) ≡ any p s
any-lower p [] h = refl
any-lower p (c ∷ s) h = rw (h c, any-lower p s h)

abbrev pub both : Bytes × Bytes → Bytes × Bytes
both (a, b) = (lower a, lower b)

pub cut-lower : (c : ℕ) (s : Bytes) → Caseless c → cut c (lower s) ≡ Option.map both (cut c s)
unfolding cut
cut-lower c [] h = refl
cut-lower c (d ∷ s) h = ground (arith, h d, cut-lower c s h)

pub cut_pair-lower : (s : Bytes) → cut_pair (lower s) ≡ Option.map both (cut_pair s)
unfolding cut_pair
cut_pair-lower [] = refl
cut_pair-lower (c ∷ []) = refl
cut_pair-lower (c ∷ d ∷ s) = ground (arith, colon c, colon d, cut_pair-lower (d ∷ s))

abbrev pub piece : Bytes × Bool → Bytes × Bool
piece (s, last) = (lower s, last)

pub walk-lower :
    (sep : ℕ) (current s : Bytes)
    → Caseless sep
    → walk sep (lower current) (lower s) ≡ map piece (walk sep current s)
unfolding walk
walk-lower sep current [] h = refl
walk-lower sep current (c ∷ s) h = ground (
  arith,
  h c,
  is_empty-lower s,
  walk-lower sep [] s h,
  walk-lower sep (current ++ c ∷ []) s h,
  map-append to_lower current (c ∷ []),
)

pub components-lower :
    (sep : ℕ) (s : Bytes) → Caseless sep → components sep (lower s) ≡ map piece (components sep s)
unfolding components
components-lower sep [] h = refl
components-lower sep (c ∷ s) h = walk-lower sep [] (c ∷ s) h
