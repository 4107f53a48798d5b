-- ===== src/Core/Registry/Life.antt =====
-- src/core/ConnectionRegistry.cpp: a row from `add` to `remove`, as the dispatcher uses it.
use model_lib.Base.Bytes.{Bytes}
use model_lib.Base.{ℕ, ◌≡◌, ◌∙◌, refl, List, [], ◌∷◌}
use model_lib.Core.Registry.{remove}
use model_lib.Core.Registry.Keys.{WellFormed, remove-alter, remove-enlist}
use model_lib.Core.Registry.Requests.{
  HttpRequestRegistry, Arrival, RequestFit, new_request, add, with_site, with_status, update_site,
  update_status,
}

-- The calls about one request between its `add` and its `remove`.
pub data Update : Type 0 where
  site : ℕ → Bytes → Bytes → Bytes → Update
  status : Bytes → Update

unfoldable pub apply_updates : ℕ → List Update → HttpRequestRegistry → HttpRequestRegistry
apply_updates id [] r = r
apply_updates id (site site_id name host text ∷ us) r =
    apply_updates id us (update_site id site_id name host text r)
apply_updates id (status text ∷ us) r = apply_updates id us (update_status id text r)

remove-apply_updates :
    (id : ℕ) (us : List Update) (r : HttpRequestRegistry)
    → (remove id (apply_updates id us r)).rows ≡ (remove id r).rows
unfolding apply_updates update_site update_status
remove-apply_updates id [] r = refl
remove-apply_updates id (site site_id name host text ∷ us) r =
    remove-apply_updates id us (update_site id site_id name host text r)
    ∙ remove-alter id (with_site site_id name host text) r
remove-apply_updates id (status text ∷ us) r =
    remove-apply_updates id us (update_status id text r) ∙ remove-alter id (with_status text) r

-- In a well-formed registry, a request that is added, updated any number of times and removed by
-- the id that `add` returned leaves exactly the requests that were there before.
pub remove-add :
    (system_now steady_now : ℕ) (a : Arrival) (us : List Update) (r : HttpRequestRegistry)
    → WellFormed RequestFit r
    → (remove
        (add system_now steady_now a r).1
        (apply_updates (add system_now steady_now a r).1 us (add system_now steady_now a r).0)).rows
      ≡ r.rows
unfolding add
remove-add system_now steady_now a us r w =
    remove-apply_updates (add system_now steady_now a r).1 us (add system_now steady_now a r).0
    ∙ remove-enlist RequestFit (new_request system_now steady_now a) r w
