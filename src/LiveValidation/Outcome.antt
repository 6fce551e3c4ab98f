-- ===== src/LiveValidation/Outcome.antt =====
-- What `run_smoke` and `run_write_crud` of _live_validation.py return, and the session they leave.
use sonicwall_sdk.Prelude.{
  ℕ, String, true, false, ◌≡◌, ◌⊎◌, refl, ap, ◌∙◌, arith, Bool-cases, inl, inr,
}
use sonicwall_sdk.Errors.{Error, Result, ok, err, is_sonicwall_error}
use sonicwall_sdk.Errors.Classes.{Result-cases}
use sonicwall_sdk.Exec.{Exec, raise, pure}
use sonicwall_sdk.Exec.Laws.{try_else-of_ok, try_else-of_err}
use sonicwall_sdk.Transport.{Env, Session}
use sonicwall_sdk.Auth.Manager.{is_authenticated}
use sonicwall_sdk.Auth.Manager.Lifecycle.{authenticate_err}
use sonicwall_sdk.Client.{new_client, connect, with_client}
use sonicwall_sdk.Client.Lifecycle.{with_client_returned, with_client_refused}
use sonicwall_sdk.LiveValidation.{Validation}
use sonicwall_sdk.LiveValidation.Smoke.{checks, smoke, count_login, run_smoke}
use sonicwall_sdk.LiveValidation.Counts.{failed_checks, checks_count}

-- With no login there is none after a failed one.
refused-is_authenticated :
    (env : Env) (s : Session) {x : Error}
    → is_authenticated s.auth ≡ false
    → (connect env s).0 ≡ err x
    → is_authenticated (connect env s).1.auth ≡ false
unfolding connect
refused-is_authenticated env s n p = ap is_authenticated (authenticate_err env s p).0 ∙ n

module _ (env : Env) (validation : Validation) (s : Session) where
  smoke_connected :
      (connect env s).0 ≡ ok tt
      → smoke env validation s ≡ with_client env (checks env validation) (connect env s).1
  unfolding smoke
  smoke_connected p = try_else-of_ok (connect env) _ _ s p

  smoke_refused :
      (x : Error)
      → (connect env s).0 ≡ err x
      → smoke env validation s ≡ count_login env validation x (connect env s).1
  unfolding smoke
  smoke_refused x p = try_else-of_err (connect env) _ _ s p

  -- A `with` block that returned has connected.
  connected_again :
      (body : Exec Session ℕ) {n : ℕ}
      → (with_client env body s).0 ≡ ok n
      → (connect env s).0 ≡ ok tt
  connected_again body h = elim (Result-cases (connect env s).0) [
    | inl (_, p) ↦ p
    | inr (x, p) ↦ cc (h, (with_client_refused env body s x p).0)
  ]

  count_login_returned :
      (x : Error) (t : Session) (n : ℕ)
      → (count_login env validation x t).0 ≡ ok n
      → (n ≡ 1) × (is_sonicwall_error x ≡ true) × ((count_login env validation x t).1 ≡ t)
  unfolding pure raise
  count_login_returned x t n e = elim (Bool-cases (is_sonicwall_error x)) [
    | inl y ↦ grind (arith, y)
    | inr y ↦ cc (rw y at e)
  ]

-- The login of `run_smoke` failed, which counts as one error.
abbrev pub NoLogin : Env → Session → ℕ → Type 0
NoLogin env s n =
    (n ≡ 1) × ((x : Error) × ((connect env s).0 ≡ err x) × (is_sonicwall_error x ≡ true))

-- Both logins of `run_smoke` went through, and each check that failed behind them counts.
abbrev pub Checked : Env → Validation → Session → ℕ → Type 0
Checked env validation s n =
    let first = connect env s in
    let second = connect env first.1 in
    (first.0 ≡ ok tt) × (second.0 ≡ ok tt) × (n ≡ failed_checks env validation second.1)

module _ (env : Env) (validation : Validation) (s : Session) where
  smoke_returned :
      (n : ℕ)
      → is_authenticated s.auth ≡ false
      → (smoke env validation s).0 ≡ ok n
      → (NoLogin env s n ⊎ Checked env validation s n)
        × (is_authenticated (smoke env validation s).1.auth ≡ false)
  smoke_returned n none e = elim (Result-cases (connect env s).0) [
    | inl (_, p) ↦
        let whole = rw (smoke_connected env validation s p) at e in
        let (given, out) =
          with_client_returned env (checks env validation) (connect env s).1 whole in
        let again =
          connected_again env validation (connect env s).1 (checks env validation) whole in
        rw (smoke_connected env validation s p)
          (inr (p, again, checks_count env validation _ n given), out)
    | inr (x, p) ↦
        let (one, kind, same) =
          count_login_returned env validation s x (connect env s).1 n
            (rw (smoke_refused env validation s x p) at e) in
        (
          inl (one, (x, p, kind)),
          ap (λ (q : Result ℕ × Session). is_authenticated q.1.auth)
                (smoke_refused env validation s x p)
              ∙ ap (λ (t : Session). is_authenticated t.auth) same
              ∙ refused-is_authenticated env s none p,
        )
  ]

module _ (env : Env) (validation : Validation) (host username password : String) where
  -- Where `run_smoke` returns, its login raised a `SonicWallError` and the count is one; or both its
  -- logins went through, and the count is the number of those of its seven checks that raised, each
  -- in the session that the one before left. Not counted are an error by which the firmware does not
  -- support the list of interfaces, the leases or the write test, and leases that are not found. The
  -- session that is left is not authenticated.
  pub run_smoke_returned :
      (n : ℕ)
      → (run_smoke env validation host username password).0 ≡ ok n
      → (NoLogin env (new_client host username password) n
          ⊎ Checked env validation (new_client host username password) n)
        × (is_authenticated (run_smoke env validation host username password).1.auth ≡ false)
  unfolding run_smoke new_client is_authenticated
  run_smoke_returned n e = smoke_returned env validation _ n refl e

  -- Where the first login succeeds and the second does not, `run_smoke` raises the error of the
  -- second, whatever it is: it counts no error of that login.
  pub run_smoke_second_login :
      (x : Error)
      → (connect env (new_client host username password)).0 ≡ ok tt
      → (connect env (connect env (new_client host username password)).1).0 ≡ err x
      → (run_smoke env validation host username password).0 ≡ err x
  unfolding run_smoke
  run_smoke_second_login x p q =
      let s = new_client host username password in
      rw (smoke_connected env validation s p)
        (with_client_refused env (checks env validation) (connect env s).1 x q).0
