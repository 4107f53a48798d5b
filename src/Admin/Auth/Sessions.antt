-- ===== src/Admin/Auth/Sessions.antt =====
-- src/admin/AuthService.cpp: purging and evicting sessions.
use model_lib.Base.Bytes.{Bytes, bytes_eq}
use model_lib.Base.Map.{Map, lookup, insert, erase, Distinct, erase-Distinct}
use model_lib.Base.{
  ℕ, suc, ◌≤◌, ◌<◌, ◌≡◌, ◌≢◌, refl, inl, inr, [], ◌∷◌, none, some, arith, length, Bool-cases,
  if◌then◌else◌, leb,
}
use model_lib.Admin.Auth.{purge, oldest_from, evict_oldest, make_room}

pub purge_missing :
    (now : ℕ) (k : Bytes) (m : Map Bytes ℕ) → lookup k m ≡ none → lookup k (purge now m) ≡ none
unfolding purge lookup
purge_missing now k [] h = h
purge_missing now k ((j, e) ∷ m) h = ground (arith, bytes_eq.beq_iff j k, h, purge_missing now k m)

pub purge-Distinct : (now : ℕ) (m : Map Bytes ℕ) → Distinct m → Distinct (purge now m)
unfolding purge
purge-Distinct now [] d = tt
purge-Distinct now ((j, e) ∷ m) d = elim (Bool-cases (leb e now)) [
  | inl f ↦ rw f (purge-Distinct now m d.1)
  | inr f ↦ rw f (purge_missing now j m d.0, purge-Distinct now m d.1)
]

-- Of a session that is there, purging asks whether it has expired.
pub lookup-purge :
    (now : ℕ) (k : Bytes) (e : ℕ) (m : Map Bytes ℕ)
    → Distinct m
    → lookup k m ≡ some e
    → lookup k (purge now m) ≡ (if leb e now then none else some e)
unfolding purge lookup
lookup-purge now k e [] d h = absurd (cc h)
lookup-purge now k e ((j, f) ∷ m) d h =
    ground
      (arith, bytes_eq.beq_iff j k, h, d.0, purge_missing now j m d.0, lookup-purge now k e m d.1)

pub length-purge : (now : ℕ) (m : Map Bytes ℕ) → length (purge now m) ≤ length m
unfolding purge
length-purge now [] = omega arith
length-purge now ((j, e) ∷ m) = ground (arith, length-purge now m)

pub length-erase : (k : Bytes) (m : Map Bytes ℕ) → length (erase k m) ≤ length m
unfolding erase
length-erase k [] = omega arith
length-erase k ((j, e) ∷ m) = ground (arith, length-erase k m)

length-erase_found :
    (k : Bytes) (m : Map Bytes ℕ) → lookup k m ≢ none → length (erase k m) < length m
unfolding erase lookup
length-erase_found k [] h = absurd (h refl)
length-erase_found k ((j, e) ∷ m) h = elim (Bool-cases (bytes_eq.beq j k)) [
  | inl f ↦ rw f (omega (arith, length-erase k m))
  | inr f ↦
      rw f (let rest : lookup k m ≢ none = rw f at h in omega (arith, length-erase_found k m rest))
]

pub length-insert : (k : Bytes) (e : ℕ) (m : Map Bytes ℕ) → length (insert k e m) ≤ suc (length m)
unfolding insert
length-insert k e [] = omega arith
length-insert k e ((j, f) ∷ m) = ground (arith, length-insert k e m)

oldest_there :
    (k : Bytes) (e : ℕ) (m : Map Bytes ℕ) → lookup (oldest_from k e m) ((k, e) ∷ m) ≢ none
unfolding oldest_from lookup
oldest_there k e [] = ground (arith, bytes_eq.beq_iff k k)
oldest_there k e ((j, f) ∷ m) = ground (
  arith,
  oldest_there j f m,
  oldest_there k e m,
  bytes_eq.beq_iff k (oldest_from k e m),
  bytes_eq.beq_iff j (oldest_from k e m),
)

pub length-make_room :
    (maximum : ℕ) (m : Map Bytes ℕ)
    → 0 < maximum
    → length m ≤ maximum
    → length (make_room maximum m) < maximum
unfolding make_room evict_oldest
length-make_room maximum [] room h = elim (Bool-cases (leb maximum 0)) [
  | inl f ↦ absurd (ground (arith, f, room))
  | inr f ↦ rw f room
]
length-make_room maximum ((k, e) ∷ m) room h =
    let smaller = length-erase_found (oldest_from k e m) ((k, e) ∷ m) (oldest_there k e m) in
    elim (Bool-cases (leb maximum (suc (length m)))) [
      | inl f ↦ rw f (omega (arith, smaller, h))
      | inr f ↦ rw f (ground (arith, f))
    ]

pub make_room-Distinct :
    (maximum : ℕ) (m : Map Bytes ℕ) → Distinct m → Distinct (make_room maximum m)
unfolding make_room evict_oldest
make_room-Distinct maximum [] d = ground arith
make_room-Distinct maximum ((k, e) ∷ m) d = elim (Bool-cases (leb maximum (suc (length m)))) [
  | inl f ↦ rw f (erase-Distinct (oldest_from k e m) ((k, e) ∷ m) d)
  | inr f ↦ rw f d
]
