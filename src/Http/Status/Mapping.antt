-- ===== src/Http/Status/Mapping.antt =====
-- Which responses `_raise_for_status` lets pass, and the class of what it raises.
use sonicwall_sdk.Prelude.{
  ℕ, String, Bool, true, false, not, ◌&&◌, Option, none, some, ◌≡◌, ◌≢◌, ◌↔◌, ◌⊎◌, inl, inr, refl,
  arith, ◌==◌, Bool-cases, ==_iff,
}
use sonicwall_sdk.Json.Value.{Value, Items, ℤ, bool, truthy}
use sonicwall_sdk.Json.Access.{get, subscript, subscript_zero, to_int}
use sonicwall_sdk.Errors.{
  Result, ok, err, Error, http, HttpError, http_error, Kind, session_expired, is_not_found, ◌>>=◌,
}
use sonicwall_sdk.Firmware.{or_missing, info_list}
use sonicwall_sdk.Errors.Classes.{OnHttp, NotHttp, OnHttp-ok, OnHttp-bind, OnHttp-if, Result-cases}
use sonicwall_sdk.Auth.Token.{to_str}
use sonicwall_sdk.Transport.{Env, Response, is_success, safe_json}
use sonicwall_sdk.Http.Status.{
  code_of, extract_sonicos_code, extract_sonicos_message, is_code, raise_for_body, raise_for_401,
  success_of, on_success, on_failure, raise_for_code, raise_http_error, raise_for_status, or_text,
}

-- What the body says of the outcome: `success`, true where the body does not say.
abbrev pub reported : Value → Result Bool
reported body = do success ← success_of body; ok (truthy success)

get-NotHttp : (v : Value) (k : String) (d : Value) → NotHttp (get v k d)
unfolding get
get-NotHttp v k d e = λ h. ground arith

success_of-NotHttp : (v : Value) → NotHttp (success_of v)
unfolding success_of
success_of-NotHttp v = OnHttp-bind _ _ (get-NotHttp v "status" _) (λ s. get-NotHttp s "success" _)

subscript-NotHttp : (v : Value) (k : String) → NotHttp (subscript v k)
unfolding subscript
subscript-NotHttp v k e = λ h. ground arith

subscript_zero-NotHttp : (v : Value) → NotHttp (subscript_zero v)
unfolding subscript_zero
subscript_zero-NotHttp (Value.str String.[]) e = λ h. cc
subscript_zero-NotHttp (Value.str (String.◌∷◌ c s)) e = λ h. cc
subscript_zero-NotHttp (Value.arr Items.nil) e = λ h. cc
subscript_zero-NotHttp (Value.arr (Items.cons x xs)) e = λ h. cc
subscript_zero-NotHttp v e = λ h. cc

to_int-NotHttp : (v : Value) → NotHttp (to_int v)
unfolding to_int
to_int-NotHttp v e = λ h. ground arith

or_missing-NotHttp : {A : Type 0} (d : A) (r : Result A) → NotHttp r → NotHttp (or_missing d r)
unfolding or_missing
or_missing-NotHttp d r n e = λ h. ground (arith, n e)

info_list-NotHttp : (v : Value) → NotHttp (info_list v)
unfolding info_list
info_list-NotHttp v =
    OnHttp-bind _ _ (subscript-NotHttp v "status") (λ s. subscript-NotHttp s "info")

code_of-NotHttp : (v : Value) → NotHttp (code_of v)
code_of-NotHttp Value.null = OnHttp-ok _ none
code_of-NotHttp (bool b) = OnHttp-bind _ _ (to_int-NotHttp (bool b)) (λ n. OnHttp-ok _ (some n))
code_of-NotHttp v = OnHttp-bind _ _ (to_int-NotHttp v) (λ n. OnHttp-ok _ (some n))

code-NotHttp : (v : Value) → NotHttp (extract_sonicos_code v)
unfolding extract_sonicos_code
code-NotHttp v = or_missing-NotHttp none _ (
    OnHttp-bind _ _ (info_list-NotHttp v) λ info.
      OnHttp-if _ _ _
        (OnHttp-bind _ _ (subscript_zero-NotHttp info)
          λ first. OnHttp-bind _ _ (get-NotHttp first "code" Value.null) code_of-NotHttp)
        (OnHttp-ok _ none))

message-NotHttp : (env : Env) (v : Value) → NotHttp (extract_sonicos_message env v)
unfolding extract_sonicos_message
message-NotHttp env v = or_missing-NotHttp "" _ (
    OnHttp-bind _ _ (info_list-NotHttp v) λ info.
      OnHttp-if _ _ _
        (OnHttp-bind _ _ (subscript_zero-NotHttp info) λ first.
          OnHttp-bind _ _ (get-NotHttp first "message" (Value.str ""))
            λ message. OnHttp-ok _ (to_str env message))
        (OnHttp-ok _ ""))

-- The raised exception is of a class.
abbrev pub raises : (Error → Bool) → Result (Unit {0}) → Bool
raises p (ok _) = false
raises p (err e) = p e

abbrev is_expired_kind : Kind → Bool
is_expired_kind session_expired = true
is_expired_kind _ = false

-- `isinstance(exc, SessionExpiredError)`
abbrev pub is_session_expired_error : Error → Bool
is_session_expired_error (http e) = is_expired_kind e.kind
is_session_expired_error _ = false

builtin_raises :
    (x : Error)
    → ((e : HttpError) → ◌≢◌ {A = Result Value} (err x) (err (http e)))
    → (is_not_found x ≡ false) × (is_session_expired_error x ≡ false)
builtin_raises (http e) n = absurd (n e refl)
builtin_raises _ n = (refl, refl)

-- The classes that the branches raise, for any code, message and body.
module _ (status_code : ℕ) (msg : String) (body : Value) where
  raise_for_body-not_found :
      (code : Option ℤ)
      → raises is_not_found (raise_for_body status_code code msg body) ≡ is_code code 1030
  unfolding raise_for_body raise_http_error http_error
  raise_for_body-not_found code = ground arith

  raise_for_body-session_expired :
      (code : Option ℤ)
      → raises is_session_expired_error (raise_for_body status_code code msg body)
        ≡ is_code code 1085
  unfolding raise_for_body raise_http_error http_error
  raise_for_body-session_expired code = ground arith

  raise_for_body-ne-ok : (code : Option ℤ) → raise_for_body status_code code msg body ≢ ok tt
  unfolding raise_for_body raise_http_error http_error
  raise_for_body-ne-ok code = ground arith

  raise_for_code-not_found :
      raises is_not_found (raise_for_code status_code msg body) ≡ (status_code == 404)
  unfolding raise_for_code raise_http_error http_error
  raise_for_code-not_found = ground arith

  raise_for_code-session_expired :
      raises is_session_expired_error (raise_for_code status_code msg body) ≡ false
  unfolding raise_for_code raise_http_error http_error
  raise_for_code-session_expired = ground arith

  raise_for_code-ne-ok : raise_for_code status_code msg body ≢ ok tt
  unfolding raise_for_code raise_http_error http_error
  raise_for_code-ne-ok = ground arith

raise_for_401_lem :
    (code : Option ℤ) (msg : String) (body : Value)
    → (raises is_not_found (raise_for_401 code msg body) ≡ false)
      × (raises is_session_expired_error (raise_for_401 code msg body) ≡ is_code code 1085)
      × (raise_for_401 code msg body ≢ ok tt)
unfolding raise_for_401 http_error
raise_for_401_lem code msg body = (ground arith, ground arith, ground arith)

-- `_raise_for_status` returns exactly on a 2xx response whose body does not report a failure.
pub raise_for_status_ok_iff :
    (env : Env) (r : Response)
    → (raise_for_status env r ≡ ok tt)
      ↔ ((is_success r ≡ true) × (reported (safe_json r) ≡ ok true))
unfolding raise_for_status on_success on_failure raise_for_body raise_for_code raise_for_401
    raise_http_error http_error
raise_for_status_ok_iff env r = (λ h. ground arith, λ h. ground arith)

module _ (env : Env) (r : Response) {m : String} {code : Option ℤ}
    (readable : extract_sonicos_message env (safe_json r) ≡ ok m)
    (coded : extract_sonicos_code (safe_json r) ≡ ok code) where
  on_success-not_found :
      (success : Value)
      → raises is_not_found (on_success env r (safe_json r) success)
        ≡ (not (truthy success) && is_code code 1030)
  unfolding on_success
  on_success-not_found success =
      rw (coded, readable)
        (ground (
          arith,
          raise_for_body-not_found r.status_code (or_text m "API returned success=false")
              (safe_json r) code,
        ))

  on_success-session_expired :
      (success : Value)
      → raises is_session_expired_error (on_success env r (safe_json r) success)
        ≡ (not (truthy success) && is_code code 1085)
  unfolding on_success
  on_success-session_expired success =
      rw (coded, readable)
        (ground (
          arith,
          raise_for_body-session_expired r.status_code (or_text m "API returned success=false")
              (safe_json r) code,
        ))

  on_failure-not_found :
      (msg : String) → raises is_not_found (on_failure r (safe_json r) msg) ≡ (r.status_code == 404)
  unfolding on_failure
  on_failure-not_found msg = rw coded (
      ground (
        arith,
        raise_for_code-not_found r.status_code msg (safe_json r),
        raise_for_401_lem code msg (safe_json r),
      ))

  on_failure-session_expired :
      (msg : String)
      → raises is_session_expired_error (on_failure r (safe_json r) msg)
        ≡ (r.status_code == 401 && is_code code 1085)
  unfolding on_failure
  on_failure-session_expired msg = rw coded (
      ground (
        arith,
        raise_for_code-session_expired r.status_code msg (safe_json r),
        raise_for_401_lem code msg (safe_json r),
      ))

  -- For a body whose code and message can be read, `NotFoundError` is raised exactly for status 404,
  -- whatever the message, and for a 2xx whose body reports a failure with the code 1030. So "API not
  -- found" with status 404 is a `NotFoundError`, and no `UnsupportedEndpointError`.
  pub raise_for_status-not_found_iff : (raises is_not_found (raise_for_status env r) ≡ true) ↔ (
      (r.status_code ≡ 404)
      ⊎ ((is_success r ≡ true) × (reported (safe_json r) ≡ ok false) × (is_code code 1030 ≡ true)))
  unfolding raise_for_status
  raise_for_status-not_found_iff =
      let msg = or_text (or_text m r.reason_phrase) "Unknown error" in
      rw readable (elim (Result-cases (success_of (safe_json r))) [
        | inl (v, e) ↦ rw e (
          λ h. ground (arith, on_success-not_found v, on_failure-not_found msg),
          λ h. ground (arith, on_success-not_found v, on_failure-not_found msg),
        )
        | inr (x, e) ↦
            let plain = builtin_raises x (rw e at (success_of-NotHttp (safe_json r))) in
            rw e (
              λ h. ground (arith, plain, on_failure-not_found msg),
              λ h. ground (arith, plain, on_failure-not_found msg),
            )
      ])

  -- `SessionExpiredError` is raised exactly for the code 1085, in a 401 or in a 2xx whose body
  -- reports a failure; this is for a body whose code and message can be read.
  pub raise_for_status-session_expired_iff :
      (raises is_session_expired_error (raise_for_status env r) ≡ true) ↔ (
        (is_code code 1085 ≡ true)
        × ((r.status_code ≡ 401) ⊎ ((is_success r ≡ true) × (reported (safe_json r) ≡ ok false))))
  unfolding raise_for_status
  raise_for_status-session_expired_iff =
      let msg = or_text (or_text m r.reason_phrase) "Unknown error" in
      rw readable (elim (Result-cases (success_of (safe_json r))) [
        | inl (v, e) ↦ rw e (
          λ h. ground (arith, on_success-session_expired v, on_failure-session_expired msg),
          λ h. ground (arith, on_success-session_expired v, on_failure-session_expired msg),
        )
        | inr (x, e) ↦
            let plain = builtin_raises x (rw e at (success_of-NotHttp (safe_json r))) in
            rw e (
              λ h. ground (arith, plain, on_failure-session_expired msg),
              λ h. ground (arith, plain, on_failure-session_expired msg),
            )
      ])

abbrev OfStatus : ℕ → HttpError → Type 0
OfStatus n e = e.status_code ≡ n

raise_for_body-OfStatus :
    (n : ℕ) (code : Option ℤ) (msg : String) (body : Value)
    → OnHttp (OfStatus n) (raise_for_body n code msg body)
unfolding raise_for_body raise_http_error http_error
raise_for_body-OfStatus n code msg body e = λ h. ground arith

raise_for_401-OfStatus :
    (code : Option ℤ) (msg : String) (body : Value)
    → OnHttp (OfStatus 401) (raise_for_401 code msg body)
unfolding raise_for_401 http_error
raise_for_401-OfStatus code msg body e = λ h. ground arith

raise_for_code-OfStatus :
    (n : ℕ) (msg : String) (body : Value) → OnHttp (OfStatus n) (raise_for_code n msg body)
unfolding raise_for_code raise_http_error http_error
raise_for_code-OfStatus n msg body e = λ h. ground arith

on_failure-OfStatus :
    (r : Response) (body : Value) (msg : String)
    → OnHttp (OfStatus r.status_code) (on_failure r body msg)
unfolding on_failure
on_failure-OfStatus r body msg = elim (Bool-cases (r.status_code == 401)) [
  | inl same ↦ rw same (
      rw ((==_iff r.status_code 401).0 same)
        (OnHttp-bind _ _ (code-NotHttp body) (λ code. raise_for_401-OfStatus code msg body)))
  | inr other ↦ rw other (raise_for_code-OfStatus r.status_code msg body)
]

on_success-OfStatus :
    (env : Env) (r : Response) (body success : Value)
    → OnHttp (OfStatus r.status_code) (on_success env r body success)
unfolding on_success
on_success-OfStatus env r body success =
    OnHttp-if _ _ _
      (OnHttp-bind _ _ (code-NotHttp body) λ code.
        OnHttp-bind _ _ (message-NotHttp env body) λ msg. raise_for_body-OfStatus _ code _ body)
      (OnHttp-ok _ tt)

-- A `SonicWallHTTPError` that is raised for a response has the status of the response.
pub raise_for_status-status_code :
    (env : Env) (r : Response) {e : HttpError}
    → raise_for_status env r ≡ err (http e)
    → e.status_code ≡ r.status_code
unfolding raise_for_status
raise_for_status-status_code env r {e} =
    OnHttp-if (is_success r) _ _
      (OnHttp-bind _ _ (success_of-NotHttp (safe_json r)) (on_success-OfStatus env r (safe_json r)))
      (OnHttp-bind _ _ (message-NotHttp env (safe_json r))
        λ text. on_failure-OfStatus r (safe_json r) _)
      e
