-- ===== src/Http/Status.antt =====
-- The mapping of responses to exceptions in _http.py.
pub mod Mapping
pub mod Code
use mathlib.Core.List.{[]}
use sonicwall_sdk.Prelude.{
  ℕ, String, Bool, true, false, not, Option, none, some, ◌==◌, str_eq, if◌then◌else◌,
}
use sonicwall_sdk.Json.Value.{Value, null, bool, str, dict, truthy, ℤ, pos}
use sonicwall_sdk.Json.Access.{get, subscript_zero, to_int}
use sonicwall_sdk.Errors.{
  Result, ok, err, Kind, plain, authentication, session_expired, authorization, not_found, conflict,
  rate_limit, unsupported, http_error, ◌>>=◌,
}
use sonicwall_sdk.Firmware.{firmware_limitation_message, or_missing, info_list}
use sonicwall_sdk.Auth.Token.{to_str}
use sonicwall_sdk.Transport.{Env, Response, is_success, safe_json}

abbrev pub code_of : Value → Result (Option ℤ)
code_of null = ok none
code_of v = do n ← to_int v; ok (some n)

-- `_extract_sonicos_code`
unfoldable pub extract_sonicos_code : Value → Result (Option ℤ)
unfolding or_missing info_list truthy subscript_zero get to_int
extract_sonicos_code body = or_missing none (do
  info ← info_list body
  if truthy info
      then (do first ← subscript_zero info; code ← get first "code" null; code_of code)
      else ok none)

-- `_extract_sonicos_message`
unfoldable pub extract_sonicos_message : Env → Value → Result String
unfolding or_missing info_list truthy subscript_zero get
extract_sonicos_message env body = or_missing "" (do
  info ← info_list body
  if truthy info
      then (do
        first ← subscript_zero info
        message ← get first "message" (str "")
        ok (to_str env message))
      else ok "")

-- `code == n`
abbrev pub is_code : Option ℤ → ℕ → Bool
is_code (some (pos m)) n = m == n
is_code _ n = false

-- `a or b` on texts
unfoldable pub or_text : String → String → String
or_text a b = if str_eq a "" then b else a

abbrev kind_for : Option String → Kind
kind_for none = plain
kind_for (some reason) = unsupported reason

-- `_raise_http_error`
unfoldable pub raise_http_error : ℕ → String → Value → Result (Unit {0})
unfolding http_error
raise_http_error status_code message body = err (
    http_error (kind_for (firmware_limitation_message status_code message)) status_code message
      body)

-- The branch of `_raise_for_status` on a body that says `success: false`.
unfoldable pub raise_for_body : ℕ → Option ℤ → String → Value → Result (Unit {0})
unfolding raise_http_error http_error
raise_for_body status_code code msg body =
    if is_code code 1030
    then err (http_error not_found status_code msg body)
    else if is_code code 1055
    then err (http_error conflict status_code msg body)
    else if is_code code 1085
    then err (http_error session_expired status_code "Session expired" body)
    else raise_http_error status_code msg body

-- The branch on 401.
unfoldable pub raise_for_401 : Option ℤ → String → Value → Result (Unit {0})
unfolding http_error
raise_for_401 code msg body =
    if is_code code 1085
    then err (http_error session_expired 401 "Session expired" body)
    else err (http_error authentication 401 msg body)

unfoldable pub raise_for_code : ℕ → String → Value → Result (Unit {0})
unfolding raise_http_error http_error
raise_for_code status_code msg body =
    if status_code == 403
    then err (http_error authorization 403 msg body)
    else if status_code == 404
    then err (http_error not_found 404 msg body)
    else if status_code == 409
    then err (http_error conflict 409 msg body)
    else if status_code == 429
    then err (http_error rate_limit 429 msg body)
    else raise_http_error status_code msg body

-- `body.get("status", {}).get("success", True)`
unfoldable pub success_of : Value → Result Value
success_of body = do status ← get body "status" (dict []); get status "success" (bool true)

-- The branch of `_raise_for_status` on a 2xx, with what the body says of success.
unfoldable pub on_success : Env → Response → Value → Value → Result (Unit {0})
on_success env r body success =
    if not (truthy success)
    then (do
      code ← extract_sonicos_code body
      msg ← extract_sonicos_message env body
      raise_for_body r.status_code code (or_text msg "API returned success=false") body)
    else ok tt

-- The branch on other statuses, with the message.
unfoldable pub on_failure : Response → Value → String → Result (Unit {0})
on_failure r body msg =
    if r.status_code == 401
    then (do code ← extract_sonicos_code body; raise_for_401 code msg body)
    else raise_for_code r.status_code msg body

-- `_raise_for_status`
unfoldable pub raise_for_status : Env → Response → Result (Unit {0})
raise_for_status env r =
    let body = safe_json r in
    if is_success r then (do success ← success_of body; on_success env r body success) else (do
      text ← extract_sonicos_message env body
      on_failure r body (or_text (or_text text r.reason_phrase) "Unknown error"))
