-- ===== src/Examples/Client.antt =====
-- The theorems about the clients at concrete sessions.
use mathlib.Core.List.{[], ◌∷◌}
use sonicwall_sdk.Prelude.{ℕ, ◌↔◌, true, ◌≡◌, ◌⊎◌, refl, false}
use sonicwall_sdk.Errors.{Error, ok, err, cancelled, builtin, runtime_error}
use sonicwall_sdk.Exec.{Exec}
use sonicwall_sdk.Transport.{Session}
use sonicwall_sdk.Auth.Manager.{is_authenticated}
use sonicwall_sdk.Client.{client_runs, with_client}
use sonicwall_sdk.Client.Pool
use sonicwall_sdk.Client.Pool.{PooledClient, pool_runs, single_use}
use sonicwall_sdk.Client.Singletons.{
  new_fields, access, access_all, access_again, address_objects, access_rules,
}
use sonicwall_sdk.Client.Lifecycle.{with_client_closed}
use sonicwall_sdk.SyncClient.{SyncClient, absent, stopped}
use sonicwall_sdk.Examples.Device.{runs, calm, logged_out}

abbrev counts : Exec Session ℕ
counts s = (ok 3, s)

abbrev fresh : SyncClient
fresh = record { session = logged_out; loop = absent }

abbrev left : SyncClient
left = record { session = logged_out; loop = stopped }

with_client_closed_example :
    (is_authenticated (with_client calm counts logged_out).1.auth ≡ false)
    × (((with_client calm counts logged_out).0 ≡ ok 3)
        ⊎ ((with_client calm counts logged_out).0 ≡ err cancelled))
unfolding runs client_runs
with_client_closed_example = with_client_closed calm counts logged_out refl

-- A body that gives a number, and what httpx raises on a closed pool.
abbrev pooled : Exec PooledClient ℕ
pooled c = (ok 3, c)

abbrev closed : Error
closed = builtin runtime_error "Cannot send a request, as the client has been closed."

abbrev opened : PooledClient
opened = record { session = logged_out; open_pool = true }

single_use_example :
    let left = (Pool.with_client closed calm pooled opened).1 in
    ((Pool.connect closed calm left).0 ≡ err closed)
    × ((Pool.with_client closed calm pooled left).0 ≡ err closed)
    × ((Pool.with_client closed calm pooled left).1.session.auth ≡ left.session.auth)
unfolding runs pool_runs
single_use_example = single_use closed calm pooled pooled opened refl

-- The address objects, before and after the access rules.
access_again_example :
    let c = new_fields 0 in
    let d = access_all (access_rules ∷ []) (access address_objects c).1 in
    (((access address_objects d).0 ≡ (access address_objects c).0)
      ↔ (address_objects ≡ address_objects))
    × (address_objects ≡ address_objects → (access address_objects d).1 ≡ d)
unfolding access_all
access_again_example = access_again 0 [] (access_rules ∷ []) address_objects address_objects
