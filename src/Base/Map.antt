-- ===== src/Base/Map.antt =====
-- `std::unordered_map` as an association list; the order of the list stands for the order of
-- iteration, of which the source relies on nothing.
use mathlib.Core.Path.{◌≡◌, refl, subst}
use mathlib.Core.Option.{Option, none, some}
use mathlib.Core.Logic.{inl, inr, ◌≢◌}
use mathlib.Core.List.{List, [], ◌∷◌}
use native.Mathlib.Omega.{arith}
use Prim.Native.Nat.{suc, ◌≤◌, ◌<◌}
use model_lib.Base.Lists.{length}
use model_lib.Base.Tests.{if◌then◌else◌, Eq, Bool-cases}

abbrev pub Map {ℓ κ} : Type ℓ → Type κ → Type (ℓ ⊔ κ)
Map K V = List (K × V)

module _ {ℓ κ} {K : Type ℓ} {V : Type κ} ⦃e : Eq K⦄ where
  unfoldable pub lookup : K → Map K V → Option V
  lookup k [] = none
  lookup k ((j, v) ∷ m) = if e.beq j k then some v else lookup k m

  -- `m[k] = v`, `insert_or_assign`.
  unfoldable pub insert : K → V → Map K V → Map K V
  insert k v [] = (k, v) ∷ []
  insert k v ((j, w) ∷ m) = if e.beq j k then (k, v) ∷ m else (j, w) ∷ insert k v m

  -- `m.erase(k)`.
  unfoldable pub erase : K → Map K V → Map K V
  erase k [] = []
  erase k ((j, v) ∷ m) = if e.beq j k then erase k m else (j, v) ∷ erase k m

  pub lookup-insert :
      (k j : K) (v : V) (m : Map K V)
      → lookup j (insert k v m) ≡ (if e.beq k j then some v else lookup j m)
  unfolding lookup insert
  lookup-insert k j v [] = refl
  lookup-insert k j v ((i, w) ∷ m) =
      ground (arith, e.beq_iff k j, e.beq_iff i k, e.beq_iff i j, lookup-insert k j v m)

  pub lookup-erase :
      (k j : K) (m : Map K V) → lookup j (erase k m) ≡ (if e.beq k j then none else lookup j m)
  unfolding lookup erase
  lookup-erase k j [] = ground arith
  lookup-erase k j ((i, w) ∷ m) =
      ground (arith, e.beq_iff k j, e.beq_iff i k, e.beq_iff i j, lookup-erase k j m)

  -- A property of every entry.
  abbrev pub Entries {μ} : (K → V → Type μ) → Map K V → Type μ
  Entries P [] = Unit
  Entries P ((k, v) ∷ m) = P k v × Entries P m

  pub Entries-mono {μ ν} :
      (P : K → V → Type μ) (Q : K → V → Type ν)
      → ((k : K) (v : V) → P k v → Q k v)
      → (m : Map K V) → Entries P m
      → Entries Q m
  Entries-mono P Q f [] h = tt
  Entries-mono P Q f ((k, v) ∷ m) h = (f k v h.0, Entries-mono P Q f m h.1)

  pub Entries-both {μ ν} :
      (P : K → V → Type μ) (Q : K → V → Type ν) (m : Map K V)
      → Entries P m
      → Entries Q m
      → Entries (λ k v. P k v × Q k v) m
  Entries-both P Q [] h i = tt
  Entries-both P Q ((k, v) ∷ m) h i = ((h.0, i.0), Entries-both P Q m h.1 i.1)

  pub insert-Entries {μ} :
      (P : K → V → Type μ) (k : K) (v : V) (m : Map K V)
      → P k v
      → Entries P m
      → Entries P (insert k v m)
  unfolding insert
  insert-Entries P k v [] p h = (p, tt)
  insert-Entries P k v ((j, w) ∷ m) p h = elim (Bool-cases (e.beq j k)) [
    | inl same ↦ rw same (p, h.1)
    | inr other ↦ rw other (h.0, insert-Entries P k v m p h.1)
  ]

  pub erase-Entries {μ} :
      (P : K → V → Type μ) (k : K) (m : Map K V) → Entries P m → Entries P (erase k m)
  unfolding erase
  erase-Entries P k [] h = tt
  erase-Entries P k ((j, w) ∷ m) h = elim (Bool-cases (e.beq j k)) [
    | inl same ↦ rw same (erase-Entries P k m h.1)
    | inr other ↦ rw other (h.0, erase-Entries P k m h.1)
  ]

  pub lookup-Entries {μ} :
      (P : K → V → Type μ) (k : K) (m : Map K V) {v : V} → Entries P m → lookup k m ≡ some v → P k v
  unfolding lookup
  lookup-Entries P k [] h found = absurd (cc found)
  lookup-Entries P k ((j, w) ∷ m) {v} h found = elim (Bool-cases (e.beq j k)) [
    | inl same ↦
        let at_k : j ≡ k = (e.beq_iff j k).0 same in
        let here : some w ≡ some v = rw same at found in
        let value : w ≡ v = cc in subst (λ (i : K). P i v) at_k (subst (P j) value h.0)
    | inr other ↦
        let later : lookup k m ≡ some v = rw other at found in lookup-Entries P k m h.1 later
  ]

  -- The keys of a map are distinct.
  abbrev pub Distinct : Map K V → Type κ
  Distinct [] = Unit
  Distinct ((k, v) ∷ m) = (lookup k m ≡ none) × Distinct m

  pub insert-Distinct : (k : K) (v : V) (m : Map K V) → Distinct m → Distinct (insert k v m)
  unfolding insert lookup
  insert-Distinct k v [] h = (refl, tt)
  insert-Distinct k v ((j, w) ∷ m) h =
      ground (arith, e.beq_iff j k, e.beq_iff k j, insert-Distinct k v m h.1, lookup-insert k j v m)

  pub erase-Distinct : (k : K) (m : Map K V) → Distinct m → Distinct (erase k m)
  unfolding erase
  erase-Distinct k [] h = tt
  erase-Distinct k ((j, w) ∷ m) h = ground (arith, erase-Distinct k m h.1, lookup-erase k j m)

  -- A key that the map lacks differs from each of its keys.
  pub missing-Entries : (k : K) (m : Map K V) → lookup k m ≡ none → Entries (λ j v. k ≢ j) m
  unfolding lookup
  missing-Entries k [] h = tt
  missing-Entries k ((j, w) ∷ m) h = elim (Bool-cases (e.beq j k)) [
    | inl same ↦ absurd (ground (arith, same, h))
    | inr other ↦
        let later : lookup k m ≡ none = rw other at h in
        (λ at_j. ground (arith, e.beq_iff j k, other, at_j), missing-Entries k m later)
  ]

  -- Of a map with distinct keys, each entry is the one that `lookup` finds.
  pub found-Entries : (m : Map K V) → Distinct m → Entries (λ k v. lookup k m ≡ some v) m
  unfolding lookup
  found-Entries [] d = tt
  found-Entries ((j, w) ∷ m) d = (
    ground (arith, e.beq_iff j j),
    Entries-mono _ _ (λ k v. behind k v) m
        (Entries-both _ _ m (found-Entries m d.1) (missing-Entries j m d.0)),
  )
    where
      behind :
          (k : K) (v : V)
          → (lookup k m ≡ some v) × (j ≢ k)
          → (if e.beq j k then some w else lookup k m) ≡ some v
      behind k v (found, apart) = ground (arith, e.beq_iff j k, found, apart)

  pub length-erase : (k : K) (m : Map K V) → length (erase k m) ≤ length m
  unfolding erase
  length-erase k [] = omega arith
  length-erase k ((j, w) ∷ m) = ground (arith, length-erase k m)

  pub length-erase_found :
      (k : K) (v : V) (m : Map K V) → lookup k m ≡ some v → length (erase k m) < length m
  unfolding erase lookup
  length-erase_found k v [] h = absurd (cc h)
  length-erase_found k v ((j, w) ∷ m) h = elim (Bool-cases (e.beq j k)) [
    | inl f ↦ rw f (omega (arith, length-erase k m))
    | inr f ↦
        rw f (
          let rest : lookup k m ≡ some v = rw f at h in
          omega (arith, length-erase_found k v m rest))
  ]

  pub length-insert_found :
      (k : K) (v w : V) (m : Map K V) → lookup k m ≡ some v → length (insert k w m) ≡ length m
  unfolding insert lookup
  length-insert_found k v w [] h = absurd (cc h)
  length-insert_found k v w ((j, u) ∷ m) h = elim (Bool-cases (e.beq j k)) [
    | inl f ↦ rw f refl
    | inr f ↦ rw f (
        let rest : lookup k m ≡ some v = rw f at h in
        omega (arith, length-insert_found k v w m rest))
  ]

  pub length-insert : (k : K) (w : V) (m : Map K V) → length (insert k w m) ≤ suc (length m)
  unfolding insert
  length-insert k w [] = omega arith
  length-insert k w ((j, u) ∷ m) = ground (arith, length-insert k w m)
