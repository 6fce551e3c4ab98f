-- ===== src/Examples/Http.antt =====
-- The theorems about `HTTPClient` at concrete sessions and responses.
use mathlib.Core.List.{[], ◌∷◌}
use sonicwall_sdk.Prelude.{
  ℕ, ◌+◌, ◌≤◌, ◌⊎◌, ◌↔◌, true, false, ◌≡◌, refl, some, length, if◌then◌else◌,
}
use sonicwall_sdk.Json.Value.{Value, nonempty, dict, nat, bool, str, singleton, pos}
use sonicwall_sdk.Errors.{
  ok, err, connect_error, connection_error, is_not_found, HttpError, conflict, plain,
}
use sonicwall_sdk.Transport.{empty, is_success}
use sonicwall_sdk.Transport.Frame.{Frame, site}
use sonicwall_sdk.Auth.Manager.{is_authenticated, reauthenticate}
use sonicwall_sdk.Http.Client.{url_of, api_request, do_request, request}
use sonicwall_sdk.Http.Client.Requests.{IsAllowed, request-Frame, request-length-le}
use sonicwall_sdk.Http.Client.Retry.{
  IsPayload, request-IsPayload, request_once, request_retries, request_connect_error,
}
use sonicwall_sdk.Http.Status.{raise_for_status, is_code}
use sonicwall_sdk.Http.Status.Mapping.{
  reported, raises, is_session_expired_error, raise_for_status-not_found_iff,
  raise_for_status-session_expired_iff,
}
use sonicwall_sdk.Examples.Device.{
  status_of, runs, calm, expiring, unreachable, logged_in, logged_out, respond,
}

request-Frame_example :
    Frame
      (IsAllowed (site logged_out) "GET" "/version" empty)
      logged_out
      (request calm "GET" "/version" empty logged_out).1
request-Frame_example = request-Frame calm "GET" "/version" empty logged_out

request-IsPayload_example : IsPayload calm (dict [])
unfolding runs
request-IsPayload_example =
    request-IsPayload calm "GET" "/version" empty logged_out {v = dict []} refl

request_once_example :
    ((request calm "GET" "/version" empty logged_in).1.log
      ≡ api_request logged_in.auth.bearer_token "GET" (url_of logged_in.base_url "/version") empty
        ∷ logged_in.log)
    × ((request calm "GET" "/version" empty logged_in).1.auth ≡ logged_in.auth)
unfolding runs
request_once_example =
    request_once calm "GET" "/version" empty logged_in {r = respond 200 (dict [])} refl refl refl

request_retries_example :
    let t =
      (reauthenticate expiring
        (do_request expiring "GET" (url_of logged_in.base_url "/version") empty logged_in).1).1 in
    ((request expiring "GET" "/version" empty logged_in).1.log
      ≡ api_request t.auth.bearer_token "GET" (url_of logged_in.base_url "/version") empty ∷ t.log)
    × (nonempty t.auth.bearer_token ≡ true)
unfolding runs
request_retries_example =
    request_retries expiring "GET" "/version" empty logged_in {r = respond 401 (dict [])} refl refl
      refl refl

request-length-le_example :
    length (request expiring "GET" "/version" empty logged_out).1.log ≤ length logged_out.log + 6
request-length-le_example = request-length-le expiring "GET" "/version" empty logged_out

request_connect_error_example : (request unreachable "GET" "/version" empty logged_in).0 ≡ (
    if is_authenticated logged_in.auth
    then err
        (connection_error "Cannot connect to SonicWall at https://fw/api/sonicos/version: refused")
    else err (connect_error "refused"))
unfolding url_of
request_connect_error_example =
    request_connect_error unreachable "GET" "/version" empty logged_in (λ l r. refl)

-- A body that reports a failure with a code of SonicOS.
abbrev failure : ℕ → Value
failure code = dict (
    (
      "status",
      dict (
          ("success", bool false)
          ∷ ("info", singleton (dict (("code", nat code) ∷ ("message", str "no") ∷ [])))
          ∷ []),
    )
    ∷ [])

raise_for_status-not_found_iff_example :
    (raises is_not_found (raise_for_status calm (respond 200 (failure 1030))) ≡ true) ↔ (
      ((respond 200 (failure 1030)).status_code ≡ 404)
      ⊎ ((is_success (respond 200 (failure 1030)) ≡ true)
          × (reported (failure 1030) ≡ ok false)
          × (is_code (some (pos 1030)) 1030 ≡ true)))
unfolding runs
raise_for_status-not_found_iff_example =
    raise_for_status-not_found_iff calm (respond 200 (failure 1030)) {m = "no"}
      {code = some (pos 1030)} refl refl

raise_for_status-session_expired_iff_example :
    (raises is_session_expired_error (raise_for_status calm (respond 401 (failure 1085))) ≡ true)
    ↔ ((is_code (some (pos 1085)) 1085 ≡ true)
        × (((respond 401 (failure 1085)).status_code ≡ 401)
            ⊎ ((is_success (respond 401 (failure 1085)) ≡ true)
                × (reported (failure 1085) ≡ ok false))))
unfolding runs
raise_for_status-session_expired_iff_example =
    raise_for_status-session_expired_iff calm (respond 401 (failure 1085)) {m = "no"}
      {code = some (pos 1085)} refl refl

abbrev conflicting : HttpError
conflicting = record {
  kind = conflict;
  status_code = 409;
  message = "no";
  response_body = failure 1;
}

-- An error whose body has a code that is a text.
abbrev expired : HttpError
expired = record {
  kind = plain;
  status_code = 401;
  message = "";
  response_body = status_of ("code", str "1085");
}
