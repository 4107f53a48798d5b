-- ===== src/Core/Registry/Keys.antt =====
-- The ids of a registry: distinct, below the next one, and each the key of its row.
use model_lib.Base.Map.{
  Map, lookup, insert, erase, Entries, Distinct, insert-Entries, erase-Entries, insert-Distinct,
  erase-Distinct, lookup-Entries, Entries-mono,
}
use model_lib.Base.{
  ℕ, ◌+◌, ◌≡◌, ◌<◌, ◌^◌, refl, inl, inr, none, [], ◌∷◌, arith, Option-cases, nat_eq, ◌∙◌, inc64,
}
use model_lib.Core.Registry.{Registry, emplace_at, enlist, alter_found, alter, remove, clear}

module _ {ℓ κ} {V : Type ℓ} (P : ℕ → V → Type κ) where
  -- Every row is right for its id, and the next id is free.
  pub record WellFormed (r : Registry V) : Type (ℓ ⊔ κ) where
    pub distinct : Distinct r.rows
    pub below : Entries (λ k v. k < r.next_id) r.rows
    pub right : Entries P r.rows

  pub missing_from : (n : ℕ) (m : Map ℕ V) → Entries (λ k v. k < n) m → lookup n m ≡ none
  unfolding lookup
  missing_from n [] h = refl
  missing_from n ((k, v) ∷ m) h = ground (arith, missing_from n m h.1, h.0)

  -- The id of a new row was free, so that the row is stored.
  pub enlist_rows :
      (row : ℕ → V) (r : Registry V)
      → WellFormed r
      → (enlist row r).0.rows ≡ insert r.next_id (row r.next_id) r.rows
  unfolding enlist emplace_at
  enlist_rows row r w = rw (missing_from r.next_id r.rows w.below) refl

  pub enlist-WellFormed :
      (row : ℕ → V) (r : Registry V)
      → r.next_id + 1 < 2 ^ 64
      → P r.next_id (row r.next_id)
      → WellFormed r
      → WellFormed (enlist row r).0
  unfolding enlist emplace_at
  enlist-WellFormed row r word p w = rw (missing_from r.next_id r.rows w.below) record {
    distinct = insert-Distinct r.next_id (row r.next_id) r.rows w.distinct;
    below =
        insert-Entries (λ k v. k < inc64 r.next_id) r.next_id (row r.next_id) r.rows
          (omega (arith, word))
          (Entries-mono _ _ (λ k v (h : k < r.next_id). omega (arith, word, h)) r.rows w.below);
    right = insert-Entries P r.next_id (row r.next_id) r.rows p w.right;
  }

  pub alter-WellFormed :
      (id : ℕ) (f : V → V) (r : Registry V)
      → ((v : V) → P id v → P id (f v))
      → WellFormed r
      → WellFormed (alter id f r)
  unfolding alter alter_found
  alter-WellFormed id f r keeps w = elim (Option-cases (lookup id r.rows)) [
    | inl e ↦ rw e w
    | inr (v, e) ↦ rw e record {
      distinct = insert-Distinct id (f v) r.rows w.distinct;
      below =
          insert-Entries (λ k v. k < r.next_id) id (f v) r.rows
            (lookup-Entries (λ k v. k < r.next_id) id r.rows w.below e) w.below;
      right =
          insert-Entries P id (f v) r.rows (keeps v (lookup-Entries P id r.rows w.right e)) w.right;
    }
  ]

  pub remove-WellFormed : (id : ℕ) (r : Registry V) → WellFormed r → WellFormed (remove id r)
  unfolding remove
  remove-WellFormed id r w = record {
    distinct = erase-Distinct id r.rows w.distinct;
    below = erase-Entries (λ k v. k < r.next_id) id r.rows w.below;
    right = erase-Entries P id r.rows w.right;
  }

  pub clear-WellFormed : (r : Registry V) → WellFormed (clear r)
  unfolding clear
  clear-WellFormed r = record { distinct = tt; below = tt; right = tt }

-- Erasing forgets whatever was stored under the key.
module _ {ℓ} {V : Type ℓ} where
  erase-insert : (k : ℕ) (v : V) (m : Map ℕ V) → erase k (insert k v m) ≡ erase k m
  unfolding insert erase
  erase-insert k v [] = ground arith
  erase-insert k v ((j, w) ∷ m) = ground (arith, erase-insert k v m)

  pub erase_missing : (k : ℕ) (m : Map ℕ V) → lookup k m ≡ none → erase k m ≡ m
  unfolding lookup erase
  erase_missing k [] h = refl
  erase_missing k ((j, v) ∷ m) h = ground (arith, erase_missing k m)

  pub remove-alter :
      (id : ℕ) (f : V → V) (r : Registry V) → (remove id (alter id f r)).rows ≡ (remove id r).rows
  unfolding remove alter alter_found
  remove-alter id f r = elim (Option-cases (lookup id r.rows)) [
    | inl e ↦ rw e refl
    | inr (v, e) ↦ rw e (erase-insert id (f v) r.rows)
  ]

  pub remove-enlist {κ} :
      (P : ℕ → V → Type κ) (row : ℕ → V) (r : Registry V)
      → WellFormed P r
      → (remove (enlist row r).1 (enlist row r).0).rows ≡ r.rows
  unfolding remove enlist emplace_at
  remove-enlist P row r w =
      let free = missing_from P r.next_id r.rows w.below in
      rw free (erase-insert r.next_id (row r.next_id) r.rows ∙ erase_missing r.next_id r.rows free)
