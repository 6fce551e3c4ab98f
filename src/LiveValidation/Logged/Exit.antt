-- ===== src/LiveValidation/Logged/Exit.antt =====
-- The exit code of scripts/run_live_validation_logged.py, and what a login that is cut off leads to.
use mathlib.Core.List.{[], ◌∷◌}
use sonicwall_sdk.Prelude.{
  ℕ, String, Bool, true, false, none, some, List, ◌≡◌, refl, sym, ap, ◌∙◌, arith, Bool-cases, ◌⊎◌,
  inl, inr,
}
use sonicwall_sdk.Errors.{Error, Result, ok, err, builtin, timeout_error, cancelled}
use sonicwall_sdk.Errors.Classes.{Result-cases}
use sonicwall_sdk.Exec.{Exec, pure, gets, try_else, ◌>>=◌, ◌>>◌}
use sonicwall_sdk.Exec.Laws.{>>=-eq-ok, >>=-of_ok}
use sonicwall_sdk.Transport.{Env, Request}
use sonicwall_sdk.Auth.Manager.{is_authenticated}
use sonicwall_sdk.Client.{new_client, connect}
use sonicwall_sdk.LiveValidation.{Validation, Variables, LiveCredentials, resolve_live_credentials}
use sonicwall_sdk.LiveValidation.Clean.{Passed}
use sonicwall_sdk.LiveValidation.Logged.{
  Run, wait_for, step, connected_steps, exit_value, exit_code, after_login, login_failed, failed,
  on_session, validate, new_run, main, run,
}
use sonicwall_sdk.LiveValidation.Logged.Clean.{connected_clean, AllPassed}
use sonicwall_sdk.LiveValidation.Logged.Step.{step_clean, timed_ok}

exit_value_ok : (entries : List String) → ok (exit_value entries) ≡ ok 0 → entries ≡ []
exit_value_ok [] h = refl
exit_value_ok (e ∷ es) h = ground arith

exit_value-cases : (entries : List String) → (entries ≡ []) ⊎ (exit_value entries ≡ 1)
exit_value-cases [] = inl refl
exit_value-cases (e ∷ es) = inr refl

exit_code_zero : (r : Result ℕ) → exit_code r ≡ some 0 → r ≡ ok 0
exit_code_zero (ok n) h = ground arith
exit_code_zero (err (builtin timeout_error s)) h = ground arith
exit_code_zero (err cancelled) h = ground arith
exit_code_zero (err _) h = ground arith

recorded :
    (t : Run)
    → (gets failed >>= (λ entries. pure (exit_value entries))) t ≡ (ok (exit_value t.failures), t)
unfolding ◌>>=◌
recorded t = refl

-- The exit code by the failures
abbrev pub exit_of : Exec Run ℕ
exit_of = do entries ← gets failed; pure (exit_value entries)

read_failed : (f : List String → Exec Run ℕ) (t : Run) → (gets failed >>= f) t ≡ f t.failures t
unfolding ◌>>=◌
read_failed f t = refl

module _ (env : Env) (validation : Validation) (expired : List Request → Bool) where
  -- `async with client`, and the exit code by the failures
  abbrev pub after_steps : Exec Run ℕ
  after_steps = connected_steps env validation expired >> exit_of

  after_steps_clean :
      (t : Run)
      → (after_steps t).0 ≡ ok 0
      → ((connected_steps env validation expired t).0 ≡ ok tt)
        × ((connected_steps env validation expired t).1.failures ≡ [])
        × ((after_steps t).1 ≡ (connected_steps env validation expired t).1)
  after_steps_clean t p =
      let body = connected_steps env validation expired in
      let (_, a, b) = >>=-eq-ok body (λ _. exit_of) t p in
      let same : (after_steps t).1 ≡ (body t).1 =
        ap (λ (q : Result ℕ × Run). q.1)
          (>>=-of_ok body (λ _. exit_of) t a ∙ recorded (body t).1) in
      (
        a,
        exit_value_ok (body t).1.failures
            (sym (ap (λ (q : Result ℕ × Run). q.0) (recorded (body t).1)) ∙ b),
        same,
      )

  after_login_clean :
      (t : Run)
      → (after_login env validation expired t.failures t).0 ≡ ok 0
      → ((after_steps t).0 ≡ ok 0)
        × ((after_login env validation expired t.failures t).1 ≡ (after_steps t).1)
  unfolding pure
  after_login_clean t p = elim (Bool-cases (login_failed t.failures)) [
    | inl y ↦ absurd (ground (arith, rw y at p))
    | inr n ↦ (rw n at p, rw n refl)
  ]

  validate_login :
      (r : Run)
      → (step env expired "auth.connect" (connect env) r).0 ≡ ok tt
      → let t = (step env expired "auth.connect" (connect env) r).1 in
        validate env validation expired r ≡ after_login env validation expired t.failures t
  unfolding validate
  validate_login r p =
      let login = step env expired "auth.connect" (connect env) in
      >>=-of_ok login (λ _. gets failed >>= after_login env validation expired) r p
      ∙ read_failed (after_login env validation expired) (login r).1

  validate_clean :
      (r : Run)
      → (validate env validation expired r).0 ≡ ok 0
      → let first = connect env r.session in
        Passed env first.0
        × ((connect env first.1).0 ≡ ok tt)
        × AllPassed env validation expired (connect env first.1).1
        × (is_authenticated (validate env validation expired r).1.session.auth ≡ false)
  unfolding validate
  validate_clean r h =
      let login = step env expired "auth.connect" (connect env) in
      let (_, p, _) =
        >>=-eq-ok login (λ _. gets failed >>= after_login env validation expired) r h in
      let whole = validate_login r p in
      let (a, last) = after_login_clean (login r).1 (rw whole at h) in
      let (b, empty, last') = after_steps_clean (login r).1 a in
      let (empty', c, all, out) = connected_clean env validation expired (login r).1 b empty in
      let (_, passed, same) = step_clean env expired "auth.connect" (connect env) r p empty' in
      (
        passed,
        rw same at c,
        rw same at all,
        ap (λ (q : Result ℕ × Run). is_authenticated q.1.session.auth) whole
            ∙ ap (λ (t : Run). is_authenticated t.session.auth) (last ∙ last')
            ∙ out,
      )

  -- Where the process exits with 0, in time or not, there were credentials, both logins went through
  -- or the firmware refused the first as unsupported, each of the six reads and the write test passed,
  -- one after the other, and the client that is left is not authenticated.
  pub exit_zero :
      (overall : Bool) (getenv : Variables)
      → run env validation expired overall getenv ≡ some 0
      → (creds : LiveCredentials) × (resolve_live_credentials getenv none none none true ≡ ok creds)
        × (let first = connect env (new_client creds.host creds.username creds.password) in
            Passed env first.0
            × ((connect env first.1).0 ≡ ok tt)
            × AllPassed env validation expired (connect env first.1).1
            × (is_authenticated (validate env validation expired (new_run creds)).1.session.auth
                ≡ false))
  unfolding run main
  exit_zero overall getenv h =
      let returned = timed_ok overall (main env validation expired getenv) 0 (exit_code_zero _ h) in
      elim (Result-cases (resolve_live_credentials getenv none none none true)) [
        | inl (creds, c) ↦ (creds, c, validate_clean (new_run creds) (rw c at returned))
        | inr (e, c) ↦ absurd (ground (arith, rw c at returned))
      ]

  login_timeout_step :
      (creds : LiveCredentials)
      → let first = connect env (new_client creds.host creds.username creds.password) in
        first.0 ≡ err cancelled
        → expired first.1.log ≡ true
        → step env expired "auth.connect" (connect env) (new_run creds) ≡ (
          ok tt,
          record { session = first.1; failures = "auth.connect:timeout" ∷ []; skips = [] },
        )
  unfolding step wait_for new_run try_else connect
  login_timeout_step creds c d = rw (d, c) refl

  -- The run where its deadline has cut off the first login.
  abbrev cut_off_run : LiveCredentials → Run
  cut_off_run creds = record {
    session = (connect env (new_client creds.host creds.username creds.password)).1;
    failures = "auth.connect:timeout" ∷ [];
    skips = [];
  }

  login_goes_on :
      (creds : LiveCredentials)
      → let first = connect env (new_client creds.host creds.username creds.password) in
        first.0 ≡ err cancelled
        → expired first.1.log ≡ true
        → validate env validation expired (new_run creds) ≡ after_steps (cut_off_run creds)
  login_goes_on creds c d =
      let cut_off = login_timeout_step creds c d in
      validate_login (new_run creds) (ap (λ (q : Result (Unit {0}) × Run). q.0) cut_off)
      ∙ ap (λ (q : Result (Unit {0}) × Run). after_login env validation expired q.1.failures q.1)
          cut_off

  connect_refused :
      (t : Run) (x : Error)
      → (connect env t.session).0 ≡ err x
      → after_steps t ≡ (err x, record t { session = (connect env t.session).1 })
  unfolding connected_steps on_session ◌>>=◌
  connect_refused t x h = rw h refl

  -- With a failure on the list before the steps, the exit code behind them is 1.
  after_steps_failed :
      (t : Run) (entry : String) (entries : List String)
      → t.failures ≡ entry ∷ entries
      → ((after_steps t).0 ≡ ok 1) ⊎ ((e : Error) × ((after_steps t).0 ≡ err e))
  unfolding ◌>>=◌
  after_steps_failed t entry entries h =
      let body = connected_steps env validation expired in
      elim (Result-cases (body t).0) [
        | inl (_, p) ↦ elim (exit_value-cases (body t).1.failures) [
          | inl empty ↦ cc (h, (connected_clean env validation expired t p empty).0)
          | inr one ↦ inl (rw p (rw one refl))
        ]
        | inr (e, p) ↦ inr (e, rw p refl)
      ]

  -- Where a deadline cuts off the first login, the run logs in again. If that raises, the run raises
  -- the same error and ends in the session that the second login left, with the one failure
  -- "auth.connect:timeout" on its list; if it does not, the run ends with 1 or raises.
  pub login_timeout :
      (creds : LiveCredentials)
      → let first = connect env (new_client creds.host creds.username creds.password) in
        let second = connect env first.1 in
        let ended = validate env validation expired (new_run creds) in
        first.0 ≡ err cancelled
        → expired first.1.log ≡ true
        → ((x : Error) × (second.0 ≡ err x)
            × (ended ≡ (
              err x,
              record { session = second.1; failures = "auth.connect:timeout" ∷ []; skips = [] },
            )))
          ⊎ ((second.0 ≡ ok tt) × ((ended.0 ≡ ok 1) ⊎ ((e : Error) × (ended.0 ≡ err e))))
  login_timeout creds c d =
      let t = cut_off_run creds in
      elim (Result-cases (connect env t.session).0) [
        | inl (_, p) ↦ inr (p, rw (login_goes_on creds c d) (after_steps_failed t _ [] refl))
        | inr (x, p) ↦ inl (x, p, login_goes_on creds c d ∙ connect_refused t x p)
      ]
