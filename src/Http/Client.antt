-- ===== src/Http/Client.antt =====
-- `HTTPClient.request`: authentication, one retry, and the mapping of the result.
pub mod Requests
pub mod Retry
pub mod Blind
use Prim.Native.String
use mathlib.Core.List.{[], ◌∷◌, ◌++◌}
use sonicwall_sdk.Prelude.{String, Bool, ◌||◌, Option, List, ◌==◌, if◌then◌else◌}
use sonicwall_sdk.Prelude.Text.{lstrip, is_slash}
use sonicwall_sdk.Json.Value.{Value}
use sonicwall_sdk.Errors.{Error, connection_error, connect_error, timeout}
use sonicwall_sdk.Exec.{Exec, pure, raise, lift, gets, try_except, ◌>>=◌, ◌>>◌}
use sonicwall_sdk.Transport.{Env, Request, Response, Session, Body, empty, safe_json, send}
use sonicwall_sdk.Auth.Manager.{
  ensure_authenticated, reauthenticate, auth_headers, check_response_for_session_expiry,
}
use sonicwall_sdk.Http.Status.{raise_for_status}

-- The header that a JSON body brings.
abbrev content_type : Body → List (String × String)
content_type empty = []
content_type _ = ("Content-Type", "application/json") ∷ []

-- `f"{self._base_url}/{path.lstrip('/')}"`
unfoldable pub url_of : String → String → String
unfolding lstrip
url_of base_url path = String.◌++◌ base_url (String.◌++◌ "/" (lstrip is_slash path))

-- The request that `_do_request` builds.
abbrev pub api_request : Option String → String → String → Body → Request
api_request token method url body = record {
  method = method;
  url = url;
  headers = (("Accept", "application/json") ∷ content_type body) ++ auth_headers token;
  body = body;
}

abbrev cannot_connect : String → String → String
cannot_connect url text =
    String.◌++◌ "Cannot connect to SonicWall at " (String.◌++◌ url (String.◌++◌ ": " text))

abbrev timed_out : String → String → String
timed_out url text = String.◌++◌ "Request to " (String.◌++◌ url (String.◌++◌ " timed out: " text))

-- The `except` clauses of `_do_request`.
abbrev pub as_connection_error : String → Error → Error
as_connection_error url (connect_error text) = connection_error (cannot_connect url text)
as_connection_error url (timeout text) = connection_error (timed_out url text)
as_connection_error url e = e

-- `_do_request`
unfoldable pub do_request : Env → String → String → Body → Exec Session Response
do_request env method url body = do
  token ← gets (λ s. s.auth.bearer_token)
  try_except (send env (api_request token method url body)) (λ e. raise (as_connection_error url e))

-- `_raise_for_status` and the `return` of the body
conclude : Env → Response → Exec Session Value
conclude env r = do lift (raise_for_status env r); pure (safe_json r)

-- The test for a retry.
abbrev pub needs_retry : Response → Bool
needs_retry r = r.status_code == 401 || check_response_for_session_expiry r

-- The end of `request` behind the second call of `_do_request`.
finish : Env → Response → Exec Session Value
unfolding conclude
finish env second =
    if second.status_code == 401
    then (do lift (raise_for_status env second); conclude env second)
    else conclude env second

-- The branch of `request` that authenticates again and retries.
retry : Env → String → String → Body → Exec Session Value
unfolding finish
retry env method url body = do
  reauthenticate env
  second ← do_request env method url body
  finish env second

-- `request` behind the first call of `_do_request`.
on_first : Env → String → String → Body → Response → Exec Session Value
unfolding retry
on_first env method url body first =
    if needs_retry first then retry env method url body else conclude env first

-- `request`
unfoldable pub request : Env → String → String → Body → Exec Session Value
unfolding on_first
request env method path body = do
  base_url ← gets (λ s. s.base_url)
  ensure_authenticated env
  first ← do_request env method (url_of base_url path) body
  on_first env method (url_of base_url path) body first
