-- ===== src/Http/Client/Retry.antt =====
-- What `HTTPClient.request` returns, and its single retry.
use mathlib.Core.List.{[], ◌∷◌}
use sonicwall_sdk.Prelude.{
  String, true, false, List, ◌≡◌, arith, Bool-cases, inl, inr, if◌then◌else◌,
}
use sonicwall_sdk.Exec.{gets, ◌>>=◌}
use sonicwall_sdk.Exec.Laws.{>>=-eq-ok}
use Prim.Native.String.{◌++◌}
use sonicwall_sdk.Errors.{connect_error, connection_error, ok, err}
use sonicwall_sdk.Json.Value.{Value, nonempty}
use sonicwall_sdk.Transport.{Env, Request, Response, Session, Body, safe_json, send}
use sonicwall_sdk.Auth.Manager.{
  is_authenticated, authenticate, ensure_authenticated, reauthenticate, post_auth,
}
use sonicwall_sdk.Auth.Manager.Lifecycle.{
  ensure_authenticated_idle, reauthenticate_iff, reauthenticate-IsConsistent,
}
use sonicwall_sdk.Http.Status.{raise_for_status}
use sonicwall_sdk.Http.Client.{
  url_of, api_request, needs_retry, do_request, conclude, finish, retry, on_first, request,
}

-- A response of the environment, with the call that it answers.
pub record Answered (env : Env) (p : Response) : Type 0 where
  pub before : List Request
  pub asked : Request
  pub answer : env.server before asked ≡ ok p

-- What `v` was read from.
pub record IsPayload (env : Env) (v : Value) : Type 0 where
  pub response : Response
  pub answered : Answered env response
  pub accepted : raise_for_status env response ≡ ok tt
  pub payload : v ≡ safe_json response

module _ (env : Env) where
  do_request-Answered :
      (method url : String) (body : Body) (s : Session) {p : Response}
      → (do_request env method url body s).0 ≡ ok p
      → Answered env p
  unfolding do_request send ◌>>=◌
  do_request-Answered method url body s h = record {
    before = s.log;
    asked = api_request s.auth.bearer_token method url body;
    answer = ground arith;
  }

  conclude-IsPayload :
      (r : Response) (s : Session) {v : Value}
      → Answered env r
      → (conclude env r s).0 ≡ ok v
      → IsPayload env v
  unfolding conclude ◌>>=◌
  conclude-IsPayload r s a h = record {
    response = r;
    answered = a;
    accepted = ground arith;
    payload = ground arith;
  }

  finish-IsPayload :
      (r : Response) (s : Session) {v : Value}
      → Answered env r
      → (finish env r s).0 ≡ ok v
      → IsPayload env v
  unfolding finish ◌>>=◌
  finish-IsPayload r s a h = record {
    response = r;
    answered = a;
    accepted = ground arith;
    payload = ground arith;
  }

  module _ (method url : String) (body : Body) where
    retry-IsPayload :
        (s : Session) {v : Value} → (retry env method url body s).0 ≡ ok v → IsPayload env v
    unfolding retry
    retry-IsPayload s h =
        let (_, _, h1) = >>=-eq-ok (reauthenticate env) _ s h in
        let (second, e, h2) = >>=-eq-ok (do_request env method url body) _ _ h1 in
        finish-IsPayload second _ (do_request-Answered method url body _ e) h2

    on_first-IsPayload :
        (r : Response) (s : Session) {v : Value}
        → Answered env r
        → (on_first env method url body r s).0 ≡ ok v
        → IsPayload env v
    unfolding on_first
    on_first-IsPayload r s a h = elim (Bool-cases (needs_retry r)) [
      | inl again ↦ retry-IsPayload s (rw again at h)
      | inr enough ↦ conclude-IsPayload r s a (rw enough at h)
    ]

  -- A value that `request` returns is the body of a response of the device that
  -- `_raise_for_status` accepted.
  pub request-IsPayload :
      (method path : String) (body : Body) (s : Session) {v : Value}
      → (request env method path body s).0 ≡ ok v
      → IsPayload env v
  unfolding request
  request-IsPayload method path body s h =
      let (base_url, _, h1) = >>=-eq-ok (gets (λ s. s.base_url)) _ s h in
      let (_, _, h2) = >>=-eq-ok (ensure_authenticated env) _ _ h1 in
      let url = url_of base_url path in
      let (first, e, h3) = >>=-eq-ok (do_request env method url body) _ _ h2 in
      on_first-IsPayload method url body first _ (do_request-Answered method url body _ e) h3

  do_request-log :
      (method url : String) (body : Body) (s : Session)
      → (do_request env method url body s).1
        ≡ record s { log = api_request s.auth.bearer_token method url body ∷ s.log }
  unfolding do_request send ◌>>=◌
  do_request-log method url body s = ground arith

  -- On an authenticated session a response that asks for no retry ends the call: one request was
  -- sent, with the session's token, and the token is still the same.
  pub request_once :
      (method path : String) (body : Body) (s : Session) {r : Response}
      → is_authenticated s.auth ≡ true
      → (do_request env method (url_of s.base_url path) body s).0 ≡ ok r
      → needs_retry r ≡ false
      → ((request env method path body s).1.log
          ≡ api_request s.auth.bearer_token method (url_of s.base_url path) body ∷ s.log)
        × ((request env method path body s).1.auth ≡ s.auth)
  unfolding request ◌>>=◌
  request_once method path body s a e n = ground (
    arith,
    ensure_authenticated_idle env s a,
    do_request-log method (url_of s.base_url path) body s,
  )

  -- On an authenticated session a response that asks for a retry is followed by a new handshake,
  -- and, if that succeeds, by one more request, which carries the new token.
  pub request_retries :
      (method path : String) (body : Body) (s : Session) {r : Response}
      → is_authenticated s.auth ≡ true
      → (do_request env method (url_of s.base_url path) body s).0 ≡ ok r
      → needs_retry r ≡ true
      → let t = (reauthenticate env (do_request env method (url_of s.base_url path) body s).1).1 in
        is_authenticated t.auth ≡ true
        → ((request env method path body s).1.log
            ≡ api_request t.auth.bearer_token method (url_of s.base_url path) body ∷ t.log)
          × (nonempty t.auth.bearer_token ≡ true)
  unfolding request ◌>>=◌
  request_retries method path body s a e n h =
      let url = url_of s.base_url path in
      let t = (reauthenticate env (do_request env method url body s).1).1 in
      ground (
        arith,
        ensure_authenticated_idle env s a,
        (reauthenticate_iff env (do_request env method url body s).1).0 h,
        reauthenticate-IsConsistent env (do_request env method url body s).1,
        do_request-log method url body t,
      )

  -- Where the device cannot be connected to, `request` raises a `ConnectionError` of the package with
  -- the text "Cannot connect to SonicWall at", the URL and httpx's text on an authenticated session,
  -- and httpx's own `ConnectError` where the session has to log in first.
  pub request_connect_error :
      (method path : String) (body : Body) (s : Session) {text : String}
      → ((l : List Request) (r : Request) → env.server l r ≡ err (connect_error text))
      → ((request env method path body s).0 ≡ (
          if is_authenticated s.auth
          then err (
              connection_error
                ("Cannot connect to SonicWall at " ++ (url_of s.base_url path ++ (": " ++ text))))
          else err (connect_error text)))
  unfolding request ensure_authenticated authenticate do_request send ◌>>=◌
  request_connect_error method path body s h = ground (
    arith,
    h s.log (post_auth s.auth []),
    h s.log (api_request s.auth.bearer_token method (url_of s.base_url path) body),
  )
