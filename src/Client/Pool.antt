-- ===== src/Client/Pool.antt =====
-- The client with its connection pool, which `disconnect` closes: `aclose` of _http.py, and `connect`,
-- `disconnect` and `async with` of _client.py. What httpx raises on a closed pool is a parameter; the
-- log of the session has the requests that the pool was handed.
use sonicwall_sdk.Prelude.{Bool, false, ◌≡◌, refl, arith, if◌then◌else◌}
use sonicwall_sdk.Errors.{Error, Result, ok, err}
use sonicwall_sdk.Exec.{Exec, pure, raise, try_else, ◌>>=◌, ◌>>◌}
use sonicwall_sdk.Exec.Laws.{>>=-eq-ok, >>=-of_ok, >>=-of_err}
use sonicwall_sdk.Transport.{Env, Session, send}
use sonicwall_sdk.Auth.Manager.{authenticate, logout}
use sonicwall_sdk.Auth.Manager.Lifecycle.{authenticate_err}

pub record PooledClient : Type 0 where
  pub session : Session
  pub open_pool : Bool

-- What answers requests on a closed pool.
abbrev closed_env : Error → Env → Env
closed_env closed env = record env { server = λ l r. err closed }

module _ (closed : Error) (env : Env) where
  abbrev pool_env : Bool → Env
  pool_env open_pool = if open_pool then env else closed_env closed env

  -- An action of the client, on its pool.
  unfoldable pub on_pool : {A : Type 0} → (Env → Exec Session A) → Exec PooledClient A
  on_pool m c = let (r, s) = m (pool_env c.open_pool) c.session in (r, record c { session = s })

  -- `aclose`
  unfoldable pub aclose : Exec PooledClient (Unit {0})
  aclose c = (ok tt, record c { open_pool = false })

  -- `connect`
  unfoldable pub connect : Exec PooledClient (Unit {0})
  unfolding on_pool
  connect = on_pool authenticate

  -- `disconnect`
  unfoldable pub disconnect : Exec PooledClient (Unit {0})
  unfolding on_pool aclose
  disconnect = do on_pool logout; aclose

  module _ {A : Type 0} where
    unfoldable pub leave : Result A → Exec PooledClient A
    unfolding disconnect
    leave (ok a) = do disconnect; pure a
    leave (err e) = do disconnect; raise e

    -- `async with client: body`
    unfoldable pub with_client : Exec PooledClient A → Exec PooledClient A
    unfolding connect leave
    with_client body = do connect; try_else body (λ e. leave (err e)) (λ a. leave (ok a))

  authenticate_unpooled : (s : Session) → (authenticate (closed_env closed env) s).0 ≡ err closed
  unfolding authenticate send ◌>>=◌
  authenticate_unpooled s = refl

  -- A client whose pool is closed cannot connect: `connect` raises what httpx raises, and the login
  -- state is the one before.
  connect_unpooled :
      (c : PooledClient)
      → c.open_pool ≡ false
      → ((connect c).0 ≡ err closed) × ((connect c).1.session.auth ≡ c.session.auth)
  unfolding connect on_pool
  connect_unpooled c h = rw h (
    authenticate_unpooled c.session,
    (authenticate_err (closed_env closed env) c.session (authenticate_unpooled c.session)).0,
  )

  module _ {A : Type 0} where
    leave_ok :
        (r : Result A) (c : PooledClient) {a : A}
        → (leave r c).0 ≡ ok a
        → (leave r c).1.open_pool ≡ false
    unfolding leave disconnect on_pool aclose ◌>>=◌ pure
    leave_ok (ok b) c h = ground arith
    leave_ok (err e) c h = ground arith

    with_client_ok :
        (body : Exec PooledClient A) (c : PooledClient) {a : A}
        → (with_client body c).0 ≡ ok a
        → (with_client body c).1.open_pool ≡ false
    unfolding with_client try_else
    with_client_ok body c h =
        let (_, p, q) = >>=-eq-ok connect _ c h in
        rw (>>=-of_ok connect _ c p) (settled (body (connect c).1).0 (body (connect c).1).1 q)
      where
        settled :
            (r : Result A) (t : PooledClient) {a : A}
            → (try_else (λ _. (r, t)) (λ e. leave (err e)) (λ b. leave (ok b)) t).0 ≡ ok a
            → (try_else (λ _. (r, t)) (λ e. leave (err e)) (λ b. leave (ok b)) t).1.open_pool
              ≡ false
        settled (ok b) t h = leave_ok (ok b) t h
        settled (err e) t h = leave_ok (err e) t h

    with_client_raised :
        (body : Exec PooledClient A) (c : PooledClient)
        → (connect c).0 ≡ err closed
        → (connect c).1.session.auth ≡ c.session.auth
        → ((with_client body c).0 ≡ err closed)
          × ((with_client body c).1.session.auth ≡ c.session.auth)
    unfolding with_client
    with_client_raised body c p q = rw (>>=-of_err connect _ c p) (refl, q)

    -- A client is good for one block: after a block that returned, its pool is closed, and each
    -- `connect`, so each further block, raises what httpx raises on a closed pool, and leaves the
    -- login state alone.
    pub single_use :
        (body again : Exec PooledClient A) (c : PooledClient) {a : A}
        → (with_client body c).0 ≡ ok a
        → ((connect (with_client body c).1).0 ≡ err closed)
          × ((with_client again (with_client body c).1).0 ≡ err closed)
          × ((with_client again (with_client body c).1).1.session.auth
              ≡ (with_client body c).1.session.auth)
    single_use body again c h =
        let left = (with_client body c).1 in
        let (refused, same) = connect_unpooled left (with_client_ok body c h) in
        let (raised, auth_same) = with_client_raised again left refused same in
        (refused, raised, auth_same)

-- What a run unfolds.
unfoldable pub pool_runs : Unit {0}
unfolding on_pool aclose connect disconnect leave with_client
pool_runs = tt
