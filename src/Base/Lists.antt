-- ===== src/Base/Lists.antt =====
-- Lists measured by native numbers, under the library's names.
use Prim.Native.Nat.{ℕ, zero, suc, ◌+◌, ◌≤◌}
use mathlib.Core.Path.{◌≡◌}
use mathlib.Core.Bool.{Bool, true, false, ◌&&◌, ◌||◌}
use mathlib.Core.List.{List, [], ◌∷◌, ◌++◌}
use native.Mathlib.Omega.{arith}

module _ {ℓ} {A : Type ℓ} where
  abbrev pub length : List A → ℕ
  length [] = 0
  length (x ∷ xs) = suc (length xs)

  pub length-append : (xs ys : List A) → length (xs ++ ys) ≡ length xs + length ys
  length-append [] ys = omega arith
  length-append (x ∷ xs) ys = omega (arith, length-append xs ys)

  abbrev pub take : ℕ → List A → List A
  take zero xs = []
  take (suc n) [] = []
  take (suc n) (x ∷ xs) = x ∷ take n xs

  pub length-take : (n : ℕ) (xs : List A) → length (take n xs) ≤ n
  length-take zero xs = omega arith
  length-take (suc n) [] = omega arith
  length-take (suc n) (x ∷ xs) = omega (arith, length-take n xs)

  abbrev pub drop : ℕ → List A → List A
  drop zero xs = xs
  drop (suc n) [] = []
  drop (suc n) (x ∷ xs) = drop n xs

  -- `std::all_of` and `std::any_of`.
  abbrev pub all : (A → Bool) → List A → Bool
  all p [] = true
  all p (x ∷ xs) = p x && all p xs

  abbrev pub any : (A → Bool) → List A → Bool
  any p [] = false
  any p (x ∷ xs) = p x || any p xs

  -- A predicate that holds of every element, by recursion.
  abbrev pub All {μ} : (A → Type μ) → List A → Type μ
  All Q [] = Unit
  All Q (y ∷ ys) = Q y × All Q ys

  pub All-append {μ} : (Q : A → Type μ) (ys zs : List A) → All Q ys → All Q zs → All Q (ys ++ zs)
  All-append Q [] zs none_left h = h
  All-append Q (y ∷ ys) zs (q, rest) h = (q, All-append Q ys zs rest h)

  pub All-mono {μ ν} :
      (Q : A → Type μ) (R : A → Type ν)
      → ((y : A) → Q y → R y)
      → (ys : List A) → All Q ys
      → All R ys
  All-mono Q R f [] h = tt
  All-mono Q R f (y ∷ ys) (q, rest) = (f y q, All-mono Q R f ys rest)
