-- ===== src/Core/Registry/Snapshot.antt =====
-- src/core/ConnectionRegistry.cpp: what a snapshot shows, and the life of one row.
use model_lib.Base.Map.{Map, lookup, Entries-mono, Entries-both, found-Entries}
use model_lib.Base.{
  ℕ, ◌≡◌, refl, sym, subst, Bool, true, [], ◌∷◌, Option, some, none, arith, length, All, min,
  nat_eq,
}
use model_lib.Core.Registry.Order.{Sorted, sort-Sorted, sort-All, length-sort}
use model_lib.Core.Registry.Listing.{
  listing, count_rows, length-listing, listing-All, listing-Apart,
}
use model_lib.Core.Registry.Keys.{WellFormed}
use model_lib.Core.Registry.Connections.{ConnectionRegistry, ConnectionFit}
use model_lib.Core.Registry.Connections
use model_lib.Core.Registry.Requests.{
  HttpRequestRegistry, HttpRequestInfo, RequestFit, StoredRequest, of_site,
}
use model_lib.Core.Registry.Requests

count_all :
    {A : Type 0} (display : Connections.StoredConnection → A)
    (m : Map ℕ Connections.StoredConnection)
    → count_rows (λ s. true) display m ≡ length m
unfolding count_rows
count_all display [] = refl
count_all display ((k, v) ∷ m) = omega (arith, count_all display m)

-- In a well-formed registry a snapshot of the connections is in strict order of the time of
-- arrival and then of the id, has as many rows as the limit and the number of connections allow,
-- and every row of it is a stored connection under its id, displayed at the time of the call.
pub snapshot_connections :
    (now limit : ℕ) (r : ConnectionRegistry)
    → WellFormed ConnectionFit r
    → Sorted (λ i. i.connected_at_unix_ms) (λ i. i.id) (Connections.snapshot now limit r)
      × (length (Connections.snapshot now limit r) ≡ min limit (Connections.size r))
      × All
          (λ i.
            (stored : Connections.StoredConnection) × (lookup i.id r.rows ≡ some stored)
            × (i ≡ Connections.displayed now stored))
          (Connections.snapshot now limit r)
unfolding Connections.snapshot Connections.size Connections.displayed
snapshot_connections now limit r w =
    let rows = listing (λ s. true) (Connections.displayed now) limit r.rows in
    (
      sort-Sorted (λ i. i.connected_at_unix_ms) (λ i. i.id) rows
          (listing-Apart (λ s. true) (Connections.displayed now) (λ i. i.id) limit r.rows
            (Entries-mono _ _ (λ k s (f : ConnectionFit k s). f.tagged) r.rows w.right) w.distinct),
      omega (
        arith,
        length-sort (λ i. i.connected_at_unix_ms) (λ i. i.id) rows,
        length-listing (λ s. true) (Connections.displayed now) limit r.rows,
        count_all (Connections.displayed now) r.rows,
      ),
      sort-All (λ i. i.connected_at_unix_ms) (λ i. i.id) Shown rows
          (listing-All (λ s. true) (Connections.displayed now) Shown limit r.rows
            (Entries-mono (λ k s. ConnectionFit k s × (lookup k r.rows ≡ some s))
              (λ k s. true ≡ true → Shown (Connections.displayed now s)) shown r.rows
              (Entries-both _ _ r.rows w.right (found-Entries r.rows w.distinct)))),
    )
  where
    Shown : Connections.ConnectionInfo → Type 0
    Shown i =
        (stored : Connections.StoredConnection) × (lookup i.id r.rows ≡ some stored)
        × (i ≡ Connections.displayed now stored)

    shown :
        (k : ℕ) (s : Connections.StoredConnection)
        → ConnectionFit k s × (lookup k r.rows ≡ some s)
        → true ≡ true
        → Shown (Connections.displayed now s)
    shown k s (fit, found) kept =
        (s, subst (λ j. lookup j r.rows ≡ some s) (sym fit.tagged) found, refl)

count_same :
    {A B : Type 0} (keep : StoredRequest → Bool) (f : StoredRequest → A) (g : StoredRequest → B)
    (m : Map ℕ StoredRequest)
    → count_rows keep f m ≡ count_rows keep g m
unfolding count_rows
count_same keep f g [] = refl
count_same keep f g ((k, v) ∷ m) = rw (count_same keep f g m) refl

count_any :
    {A : Type 0} (f : StoredRequest → A) (m : Map ℕ StoredRequest)
    → count_rows (of_site none) f m ≡ length m
unfolding count_rows of_site
count_any f [] = refl
count_any f ((k, v) ∷ m) = omega (arith, count_any f m)

size_counts :
    (now : ℕ) (site_id : Option ℕ) (r : HttpRequestRegistry)
    → count_rows (of_site site_id) (Requests.displayed now) r.rows ≡ Requests.size site_id r
unfolding Requests.size
size_counts now none r = count_any (Requests.displayed now) r.rows
size_counts now (some k) r =
    count_same (of_site (some k)) (Requests.displayed now) (Requests.displayed 0) r.rows

-- In a well-formed registry a snapshot of the requests, of one site or of all, is in strict order of
-- the time of arrival and then of the id, has as many rows as the limit and the `size` for the same
-- site allow, and every row of it is a stored request under its id that is of the site asked for,
-- displayed at the time of the call.
pub snapshot_requests :
    (now limit : ℕ) (site_id : Option ℕ) (r : HttpRequestRegistry)
    → WellFormed RequestFit r
    → Sorted (λ i. i.connected_at_unix_ms) (λ i. i.id) (Requests.snapshot now site_id limit r)
      × (length (Requests.snapshot now site_id limit r) ≡ min limit (Requests.size site_id r))
      × All
          (λ i.
            (stored : Requests.StoredRequest) × (lookup i.id r.rows ≡ some stored)
            × (of_site site_id stored ≡ true)
            × (i ≡ Requests.displayed now stored))
          (Requests.snapshot now site_id limit r)
unfolding Requests.snapshot Requests.size Requests.displayed
snapshot_requests now limit site_id r w =
    let rows = listing (of_site site_id) (Requests.displayed now) limit r.rows in
    (
      sort-Sorted (λ i. i.connected_at_unix_ms) (λ i. i.id) rows
          (listing-Apart (of_site site_id) (Requests.displayed now) (λ i. i.id) limit r.rows
            (Entries-mono _ _ (λ k s (f : RequestFit k s). f.tagged) r.rows w.right) w.distinct),
      omega (
        arith,
        length-sort (λ i. i.connected_at_unix_ms) (λ i. i.id) rows,
        length-listing (of_site site_id) (Requests.displayed now) limit r.rows,
        size_counts now site_id r,
      ),
      sort-All (λ i. i.connected_at_unix_ms) (λ i. i.id) Shown rows
          (listing-All (of_site site_id) (Requests.displayed now) Shown limit r.rows (
            Entries-mono (λ k s. RequestFit k s × (lookup k r.rows ≡ some s))
              (λ k s. of_site site_id s ≡ true → Shown (Requests.displayed now s)) shown r.rows
              (Entries-both _ _ r.rows w.right (found-Entries r.rows w.distinct)))),
    )
  where
    Shown : Requests.HttpRequestInfo → Type 0
    Shown i =
        (stored : Requests.StoredRequest) × (lookup i.id r.rows ≡ some stored)
        × (of_site site_id stored ≡ true)
        × (i ≡ Requests.displayed now stored)

    shown :
        (k : ℕ) (s : Requests.StoredRequest)
        → RequestFit k s × (lookup k r.rows ≡ some s)
        → of_site site_id s ≡ true
        → Shown (Requests.displayed now s)
    shown k s (fit, found) kept =
        (s, subst (λ j. lookup j r.rows ≡ some s) (sym fit.tagged) found, kept, refl)
