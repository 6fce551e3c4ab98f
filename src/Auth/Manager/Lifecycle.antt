-- ===== src/Auth/Manager/Lifecycle.antt =====
-- What the methods of `AuthManager` promise: the token, the flag and the requests sent.
use mathlib.Core.List.{◌∷◌}
use sonicwall_sdk.Prelude.{
  ◌+◌, ◌≤◌, ◌<◌, ◌⊎◌, ◌↔◌, true, false, not, ◌||◌, none, ◌≡◌, arith, length,
}
use sonicwall_sdk.Json.Value.{nonempty}
use sonicwall_sdk.Errors.{Error, ok, err, cancelled}
use sonicwall_sdk.Exec.{◌>>=◌}
use sonicwall_sdk.Transport.{Env, Session, AuthManager, send}
use sonicwall_sdk.Auth.Manager.{
  is_authenticated, authenticate, ensure_authenticated, reauthenticate, delete_auth, logout,
}

-- A session that counts as authenticated has a token that `_do_request` will send.
abbrev pub IsConsistent : AuthManager → Type 0
IsConsistent a = (not (is_authenticated a) || nonempty a.bearer_token) ≡ true

module _ (env : Env) (s : Session) where
  -- A handshake that returns has sent two requests, and has left a token that is no empty text and
  -- a session that counts as authenticated.
  pub authenticate_ok :
      (authenticate env s).0 ≡ ok tt
      → (is_authenticated (authenticate env s).1.auth ≡ true)
        × (nonempty (authenticate env s).1.auth.bearer_token ≡ true)
        × (length (authenticate env s).1.log ≡ length s.log + 2)
  unfolding authenticate is_authenticated send ◌>>=◌
  authenticate_ok h = ground arith

  -- A handshake that raises has sent one request or two, and has left the token and the flag alone.
  pub authenticate_err :
      {e : Error}
      → (authenticate env s).0 ≡ err e
      → ((authenticate env s).1.auth ≡ s.auth)
        × (length s.log < length (authenticate env s).1.log)
        × (length (authenticate env s).1.log ≤ length s.log + 2)
  unfolding authenticate send ◌>>=◌
  authenticate_err h = ground arith

  pub authenticate-length-le : length (authenticate env s).1.log ≤ length s.log + 2
  unfolding authenticate send ◌>>=◌
  authenticate-length-le = ground arith

  pub ensure_authenticated-length-le : length (ensure_authenticated env s).1.log ≤ length s.log + 2
  unfolding ensure_authenticated ◌>>=◌
  ensure_authenticated-length-le = ground (arith, authenticate-length-le)

  pub authenticate-IsConsistent : IsConsistent s.auth → IsConsistent (authenticate env s).1.auth
  unfolding authenticate is_authenticated send ◌>>=◌
  authenticate-IsConsistent h = ground arith

  pub ensure_authenticated_idle :
      is_authenticated s.auth ≡ true → ensure_authenticated env s ≡ (ok tt, s)
  unfolding ensure_authenticated ◌>>=◌
  ensure_authenticated_idle h = ground arith

  -- Where `ensure_authenticated` returns, the session counts as authenticated, and what was sent is
  -- nothing at all or one handshake of two requests.
  pub ensure_authenticated_ok :
      (ensure_authenticated env s).0 ≡ ok tt
      → (is_authenticated (ensure_authenticated env s).1.auth ≡ true)
        × ((length (ensure_authenticated env s).1.log ≡ length s.log)
            ⊎ (length (ensure_authenticated env s).1.log ≡ length s.log + 2))
  unfolding ensure_authenticated ◌>>=◌
  ensure_authenticated_ok h = ground (arith, authenticate_ok)

  -- `reauthenticate` gives up the old token at once: the session counts as authenticated exactly if
  -- the new handshake succeeds.
  pub reauthenticate_iff :
      (is_authenticated (reauthenticate env s).1.auth ≡ true) ↔ ((reauthenticate env s).0 ≡ ok tt)
  unfolding reauthenticate authenticate is_authenticated send ◌>>=◌
  reauthenticate_iff = (λ h. ground arith, λ h. ground arith)

  pub reauthenticate-length-le : length (reauthenticate env s).1.log ≤ length s.log + 2
  unfolding reauthenticate authenticate send ◌>>=◌
  reauthenticate-length-le = ground arith

  pub reauthenticate-IsConsistent : IsConsistent (reauthenticate env s).1.auth
  unfolding reauthenticate authenticate is_authenticated send ◌>>=◌
  reauthenticate-IsConsistent = ground arith

  pub ensure_authenticated-IsConsistent :
      IsConsistent s.auth → IsConsistent (ensure_authenticated env s).1.auth
  unfolding ensure_authenticated ◌>>=◌
  ensure_authenticated-IsConsistent h = ground (arith, authenticate-IsConsistent h)

  -- Whatever the device answers, `logout` ends with a session that is not authenticated, after one
  -- request at most; it raises nothing but a cancellation.
  pub logout_lem :
      (is_authenticated (logout env s).1.auth ≡ false)
      × (length (logout env s).1.log ≤ length s.log + 1)
      × (((logout env s).0 ≡ ok tt) ⊎ ((logout env s).0 ≡ err cancelled))
  unfolding logout is_authenticated send ◌>>=◌
  logout_lem = (ground arith, ground arith, ground arith)

  -- On an authenticated session `logout` sends the DELETE request with the session's token, and the
  -- token is gone whatever comes back, an exception or a cancellation included.
  pub logout_clears :
      is_authenticated s.auth ≡ true
      → ((logout env s).1.log ≡ delete_auth s.auth ∷ s.log)
        × ((logout env s).1.auth.bearer_token ≡ none)
  unfolding logout is_authenticated send ◌>>=◌
  logout_clears h = (ground arith, ground arith)
