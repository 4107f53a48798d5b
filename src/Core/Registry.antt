-- ===== src/Core/Registry.antt =====
-- src/core/ConnectionRegistry.{hpp,cpp}: what the two registries share. Both keep a map from ids
-- to rows and the next id; each call is one step under the mutex.
pub mod Order
pub mod Listing
pub mod Keys
pub mod Connections
pub mod Requests
pub mod Snapshot
pub mod Life
mod Tests
use model_lib.Base.Bytes.{Bytes}
use model_lib.Base.Map.{Map, lookup, insert, erase}
use model_lib.Base.{
  ℕ, ◌-◌, ◌/◌, ◌%◌, ◌^◌, Bool, List, [], ◌∷◌, Option, none, some, leb, if◌then◌else◌, inc64, take,
  length, nat_eq,
}

-- `ConnectionRegistry` and `HttpRequestRegistry`, by the type of their rows.
pub record Registry {ℓ} (V : Type ℓ) : Type ℓ where
  pub rows : Map ℕ V
  pub next_id : ℕ

-- `bounded`.
unfoldable pub bounded : Bytes → ℕ → Bytes
bounded value maximum = take maximum value

-- `duration_cast<seconds>(now - at).count()` of readings in nanoseconds, as a `std::uint64_t`. The
-- reading `now` is taken before the lock, so that it may be the earlier one.
unfoldable pub elapsed_seconds : ℕ → ℕ → ℕ
elapsed_seconds now at =
    if leb at now then (now - at) / 10 ^ 9 else (2 ^ 64 - (at - now) / 10 ^ 9) % 2 ^ 64

module _ {ℓ} {V : Type ℓ} where
  -- `emplace`, which leaves a key that is there alone.
  unfoldable pub emplace_at : Option V → ℕ → V → Map ℕ V → Map ℕ V
  emplace_at none id v m = insert id v m
  emplace_at (some old) id v m = m

  -- The end of `add`, by the row that the new id gets.
  unfoldable pub enlist : (ℕ → V) → Registry V → Registry V × ℕ
  enlist row r = (
    record {
      rows = emplace_at (lookup r.next_id r.rows) r.next_id (row r.next_id) r.rows;
      next_id = inc64 r.next_id;
    },
    r.next_id,
  )

  unfoldable pub alter_found : Option V → ℕ → (V → V) → Registry V → Registry V
  alter_found none id f r = r
  alter_found (some v) id f r = record { rows = insert id (f v) r.rows; next_id = r.next_id }

  -- The updates: nothing happens for an id that is not there.
  unfoldable pub alter : ℕ → (V → V) → Registry V → Registry V
  alter id f r = alter_found (lookup id r.rows) id f r

  unfoldable pub remove : ℕ → Registry V → Registry V
  remove id r = record { rows = erase id r.rows; next_id = r.next_id }

  unfoldable pub clear : Registry V → Registry V
  clear r = record { rows = []; next_id = r.next_id }
