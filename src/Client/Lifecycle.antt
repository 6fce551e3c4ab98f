-- ===== src/Client/Lifecycle.antt =====
-- What the context manager of the client promises.
use sonicwall_sdk.Prelude.{false, ◌≡◌, ◌⊎◌, inl, inr, refl, sym, ap, arith, ◌∙◌}
use sonicwall_sdk.Errors.{Error, Result, ok, err, cancelled}
use sonicwall_sdk.Errors.Classes.{Result-cases}
use sonicwall_sdk.Exec.{Exec, try_else, ◌>>=◌}
use sonicwall_sdk.Exec.Laws.{>>=-of_ok, >>=-of_err}
use sonicwall_sdk.Transport.{Env, Session}
use sonicwall_sdk.Auth.Manager.{is_authenticated, authenticate}
use sonicwall_sdk.Auth.Manager.Lifecycle.{authenticate_err, logout_lem}
use sonicwall_sdk.Client.{connect, disconnect, leave, with_client}

module _ {A : Type 0} (env : Env) where
  leave-is_authenticated :
      (r : Result A) (t : Session) → is_authenticated (leave env r t).1.auth ≡ false
  unfolding leave disconnect ◌>>=◌
  leave-is_authenticated (ok a) t = ground (arith, (logout_lem env t).0)
  leave-is_authenticated (err e) t = ground (arith, (logout_lem env t).0)

  leave_result :
      (r : Result A) (t : Session) → ((leave env r t).0 ≡ r) ⊎ ((leave env r t).0 ≡ err cancelled)
  unfolding leave disconnect ◌>>=◌
  leave_result (ok a) t = ground (arith, (logout_lem env t).2)
  leave_result (err e) t = ground (arith, (logout_lem env t).2)

  after_body :
      (r : Result A) (t : Session)
      → try_else (λ _. (r, t)) (λ e. leave env (err e)) (λ a. leave env (ok a)) t ≡ leave env r t
  unfolding try_else
  after_body (ok a) t = refl
  after_body (err e) t = refl

  module _ (body : Exec Session A) (s : Session) where
    -- A client that connects runs its body once, from the session that the login left, and is
    -- left by `disconnect`, whatever the body does.
    pub with_client_connected :
        (connect env s).0 ≡ ok tt
        → with_client env body s ≡ (let (r, t) = body (connect env s).1 in leave env r t)
    unfolding with_client try_else
    with_client_connected h =
        >>=-of_ok (connect env) _ s h
        ∙ after_body (body (connect env s).1).0 (body (connect env s).1).1

    -- A client that connects gives what its body gives, or a cancellation of the logout, and it
    -- leaves a session that is not authenticated, whatever the body and the device do.
    pub with_client_closed :
        (connect env s).0 ≡ ok tt
        → (is_authenticated (with_client env body s).1.auth ≡ false)
          × (((with_client env body s).0 ≡ (body (connect env s).1).0)
              ⊎ ((with_client env body s).0 ≡ err cancelled))
    with_client_closed h =
        let (r, t) = body (connect env s).1 in
        rw (with_client_connected h) (leave-is_authenticated r t, leave_result r t)

    -- A client that cannot connect raises the error of the login. Its body does not run, and its
    -- login state is the one before.
    pub with_client_refused :
        (e : Error)
        → (connect env s).0 ≡ err e
        → ((with_client env body s).0 ≡ err e)
          × ((with_client env body s).1 ≡ (connect env s).1)
          × ((with_client env body s).1.auth ≡ s.auth)
    unfolding with_client connect
    with_client_refused e h =
        let p =
          >>=-of_err (authenticate env)
            (λ _. try_else body (λ e'. leave env (err e')) (λ a. leave env (ok a))) s h in
        (
          ap (λ (q : Result A × Session). q.0) p,
          ap (λ (q : Result A × Session). q.1) p,
          ap (λ (q : Result A × Session). q.1.auth) p ∙ (authenticate_err env s h).0,
        )

    -- What a `with` block returns, its body returns, and it leaves a session that is not
    -- authenticated.
    pub with_client_returned :
        {a : A}
        → (with_client env body s).0 ≡ ok a
        → ((body (connect env s).1).0 ≡ ok a)
          × (is_authenticated (with_client env body s).1.auth ≡ false)
    with_client_returned e = elim (Result-cases (connect env s).0) [
      | inl (_, p) ↦
          let (out, given) = with_client_closed p in
          elim given [ inl q ↦ (sym q ∙ e, out) | inr q ↦ cc ]
      | inr (x, p) ↦ cc (e, (with_client_refused x p).0)
    ]
