-- ===== src/Core/Registry/Order.antt =====
-- The comparison of `snapshot`'s rows, and `std::sort` by it as insertion.
use model_lib.Base.{
  ℕ, suc, ◌≡◌, ◌≢◌, refl, inl, inr, Bool, true, List, [], ◌∷◌, ltb, ◌==◌, if◌then◌else◌, arith,
  length, All, All-mono, Bool-cases,
}

-- No two rows share a key.
abbrev pub Apart {ℓ} : {A : Type ℓ} → (A → ℕ) → List A → Type 0
Apart key [] = Unit
Apart key (x ∷ xs) = All (λ y. key x ≢ key y) xs × Apart key xs

module _ {ℓ} {A : Type ℓ} (time key : A → ℕ) where
  unfoldable pub before : A → A → Bool
  before x y = if time x == time y then ltb (key x) (key y) else ltb (time x) (time y)

  unfoldable pub place : A → List A → List A
  place x [] = x ∷ []
  place x (y ∷ ys) = if before x y then x ∷ y ∷ ys else y ∷ place x ys

  unfoldable pub sort : List A → List A
  sort [] = []
  sort (x ∷ xs) = place x (sort xs)

  -- Each row stands before all later ones.
  abbrev pub Sorted : List A → Type 0
  Sorted [] = Unit
  Sorted (x ∷ xs) = All (λ y. before x y ≡ true) xs × Sorted xs

  before_trans : (x y z : A) → before x y ≡ true → before y z ≡ true → before x z ≡ true
  unfolding before
  before_trans x y z p q = ground arith

  before_total : (x y : A) → key x ≢ key y → before x y ≢ true → before y x ≡ true
  unfolding before
  before_total x y apart later = ground arith

  pub place-All {κ} : (P : A → Type κ) (x : A) (ys : List A) → P x → All P ys → All P (place x ys)
  unfolding place
  place-All P x [] p h = (p, h)
  place-All P x (y ∷ ys) p h = elim (Bool-cases (before x y)) [
    | inl e ↦ rw e (p, h)
    | inr e ↦ rw e (h.0, place-All P x ys p h.1)
  ]

  pub sort-All {κ} : (P : A → Type κ) (xs : List A) → All P xs → All P (sort xs)
  unfolding sort
  sort-All P [] h = h
  sort-All P (x ∷ xs) h = place-All P x (sort xs) h.0 (sort-All P xs h.1)

  length-place : (x : A) (ys : List A) → length (place x ys) ≡ suc (length ys)
  unfolding place
  length-place x [] = refl
  length-place x (y ∷ ys) = ground (arith, length-place x ys)

  pub length-sort : (xs : List A) → length (sort xs) ≡ length xs
  unfolding sort
  length-sort [] = refl
  length-sort (x ∷ xs) = ground (arith, length-place x (sort xs), length-sort xs)

  place-Sorted :
      (x : A) (ys : List A) → All (λ y. key x ≢ key y) ys → Sorted ys → Sorted (place x ys)
  unfolding place
  place-Sorted x [] apart h = (tt, tt)
  place-Sorted x (y ∷ ys) apart h = elim (Bool-cases (before x y)) [
    | inl e ↦ rw e ((e, All-mono _ _ (λ z. before_trans x y z e) ys h.0), h)
    | inr e ↦ rw e (
      place-All (λ z. before y z ≡ true) x ys
          (before_total x y apart.0 (λ yes. absurd (cc (yes, e)))) h.0,
      place-Sorted x ys apart.1 h.1,
    )
  ]

  pub sort-Sorted : (xs : List A) → Apart key xs → Sorted (sort xs)
  unfolding sort
  sort-Sorted [] apart = tt
  sort-Sorted (x ∷ xs) apart =
      place-Sorted x (sort xs) (sort-All (λ y. key x ≢ key y) xs apart.0) (sort-Sorted xs apart.1)
