-- ===== src/Core/Registry/Listing.antt =====
-- The loop of `snapshot` over the rows, with its filter and its limit.
use model_lib.Base.Map.{Map, Entries, Distinct, Entries-mono, Entries-both, missing-Entries}
use model_lib.Base.{
  ℕ, zero, suc, ◌≡◌, ◌≢◌, inl, inr, Bool, true, List, [], ◌∷◌, if◌then◌else◌, arith, length, All,
  Bool-cases, min, nat_eq,
}
use model_lib.Core.Registry.Order.{Apart}

module _ {ℓ κ} {V : Type ℓ} {A : Type κ} (keep : V → Bool) (display : V → A) where
  unfoldable pub list_one : ℕ → V → (ℕ → List A) → List A
  list_one zero v rest = []
  list_one (suc limit) v rest = display v ∷ rest limit

  -- The rows that `keep` lets through, at most `limit` of them.
  unfoldable pub listing : ℕ → Map ℕ V → List A
  listing limit [] = []
  listing limit ((k, v) ∷ m) =
      if keep v then list_one limit v (λ l. listing l m) else listing limit m

  -- `std::count_if`.
  unfoldable pub count_rows : Map ℕ V → ℕ
  count_rows [] = 0
  count_rows ((k, v) ∷ m) = let rest = count_rows m in if keep v then suc rest else rest

  pub length-listing :
      (limit : ℕ) (m : Map ℕ V) → length (listing limit m) ≡ min limit (count_rows m)
  unfolding listing count_rows list_one
  length-listing limit [] = ground arith
  length-listing zero ((k, v) ∷ m) = ground (arith, length-listing zero m)
  length-listing (suc limit) ((k, v) ∷ m) =
      ground (arith, length-listing limit m, length-listing (suc limit) m)

  pub listing-All {μ} :
      (P : A → Type μ) (limit : ℕ) (m : Map ℕ V)
      → Entries (λ k v. keep v ≡ true → P (display v)) m
      → All P (listing limit m)
  unfolding listing list_one
  listing-All P limit [] h = tt
  listing-All P zero ((k, v) ∷ m) h = elim (Bool-cases (keep v)) [
    | inl e ↦ rw e tt
    | inr e ↦ rw e (listing-All P zero m h.1)
  ]
  listing-All P (suc limit) ((k, v) ∷ m) h = elim (Bool-cases (keep v)) [
    | inl e ↦ rw e (h.0 e, listing-All P limit m h.1)
    | inr e ↦ rw e (listing-All P (suc limit) m h.1)
  ]

  -- With the key of a row in the map as its key in the list, no two rows share it.
  pub listing-Apart :
      (key : A → ℕ) (limit : ℕ) (m : Map ℕ V)
      → Entries (λ k v. key (display v) ≡ k) m
      → Distinct m
      → Apart key (listing limit m)
  unfolding listing list_one
  listing-Apart key limit [] h d = tt
  listing-Apart key zero ((k, v) ∷ m) h d = elim (Bool-cases (keep v)) [
    | inl e ↦ rw e tt
    | inr e ↦ rw e (listing-Apart key zero m h.1 d.1)
  ]
  listing-Apart key (suc limit) ((k, v) ∷ m) h d = elim (Bool-cases (keep v)) [
    | inl e ↦ rw e (
      listing-All (λ a. key (display v) ≢ key a) limit m
          (Entries-mono _ _ (λ j w. others_differ j w) m
            (Entries-both _ _ m h.1 (missing-Entries k m d.0))),
      listing-Apart key limit m h.1 d.1,
    )
    | inr e ↦ rw e (listing-Apart key (suc limit) m h.1 d.1)
  ]
    where
      others_differ :
          (j : ℕ) (w : V)
          → (key (display w) ≡ j) × (k ≢ j)
          → keep w ≡ true
          → key (display v) ≢ key (display w)
      others_differ j w (at_j, apart) kept same = apart (omega (arith, h.0, at_j, same))
