-- ===== src/Examples/Device.antt =====
-- A scripted device: it asks for a digest, hands out a token, and answers the paths that it knows.
use mathlib.Core.List.{[], ◌∷◌}
use sonicwall_sdk.Prelude.{
  ℕ, String, Bool, true, false, Option, none, some, List, str_eq, if◌then◌else◌,
}
use sonicwall_sdk.Json.Value.{Value, str, dict, singleton}
use sonicwall_sdk.Errors.{Result, ok, err, connect_error, timeout, cancelled}
use sonicwall_sdk.Exec.{try_else, ◌>>=◌}
use sonicwall_sdk.Errors.{http_error, error_text}
use sonicwall_sdk.Prelude.Text.{lower, upper, contains}
use sonicwall_sdk.Json.Value.{lookup, truthy, equals_nat}
use sonicwall_sdk.Json.Access.{get, subscript, subscript_zero, iterate}
use sonicwall_sdk.Auth.Digest.{pick_challenge, build_digest_auth_header}
use sonicwall_sdk.Auth.Token.{extract_bearer_token, is_session_expired}
use sonicwall_sdk.Auth.Manager.{
  authenticate, ensure_authenticated, reauthenticate, logout, auth_headers, is_authenticated,
  check_response_for_session_expiry,
}
use sonicwall_sdk.Http.Status.{
  raise_for_status, success_of, on_success, on_failure, raise_for_body, raise_for_401,
  raise_for_code, raise_http_error, extract_sonicos_message, extract_sonicos_code, or_text,
}
use sonicwall_sdk.Commit.{
  try_request, try_paths, enter_config_mode, exit_config_mode_if_needed, aenter, on_clean,
  on_exception, aexit, leave, pending,
}
use sonicwall_sdk.Http.Client.{request, do_request, url_of}
use sonicwall_sdk.Transport.{Env, Request, Response, AuthManager, Session, get_list, send}

abbrev pub respond : ℕ → Value → Response
respond status_code payload = record {
  status_code = status_code;
  reason_phrase = "";
  headers = [];
  payload = some payload;
}

-- A body with one item under `status.info`.
abbrev pub status_of : String × Value → Value
status_of entry = dict (("status", dict (("info", singleton (dict (entry ∷ []))) ∷ [])) ∷ [])

abbrev pub challenge : Response
challenge = record {
  status_code = 401;
  reason_phrase = "Unauthorized";
  headers =
      ("www-authenticate", "Digest realm=\"r\", nonce=\"n\", qop=\"auth-int\", algorithm=MD5") ∷ [];
  payload = none;
}

abbrev pub welcome : Response
welcome = respond 200 (status_of ("bearer_token", str "t1"))

abbrev pub is_signed : List (String × String) → Bool
is_signed [] = false
is_signed ((k, v) ∷ l) = let rest = is_signed l in if str_eq k "Authorization" then true else rest

abbrev pub handshake : Request → Response
handshake r = if is_signed r.headers then welcome else challenge

-- Answers on `/auth`, and `answer` elsewhere.
abbrev pub device : (List Request → Request → Result Response) → Env
device answer = record {
  server =
      λ l r. if str_eq r.url "https://fw/api/sonicos/auth" then ok (handshake r) else answer l r;
  show = λ v. "?";
  sha256 = λ s. s;
  md5 = λ s. "d";
  urandom = λ l. "0123456789abcdef";
}

abbrev pub auth : Option String → Bool → AuthManager
auth token authenticated = record {
  base_url = "https://fw/api/sonicos";
  username = "admin";
  password = "secret";
  bearer_token = token;
  authenticated = authenticated;
}

abbrev pub session : Option String → Bool → ℕ → Session
session token authenticated depth = record {
  auth = auth token authenticated;
  base_url = "https://fw/api/sonicos";
  depth = depth;
  log = [];
}

abbrev pub logged_out : Session
logged_out = session none false 0

abbrev pub logged_in : Session
logged_in = session (some "t0") true 0

-- Everything is fine.
abbrev pub calm : Env
calm = device (λ l r. ok (respond 200 (dict [])))

-- No connection.
abbrev pub unreachable : Env
unreachable = record {
  server = λ l r. err (connect_error "refused");
  show = λ v. "?";
  sha256 = λ s. s;
  md5 = λ s. "d";
  urandom = λ l. "0123456789abcdef";
}

-- What a run unfolds.
unfoldable pub runs : Unit {0}
unfolding authenticate ensure_authenticated reauthenticate logout auth_headers is_authenticated
    check_response_for_session_expiry pick_challenge build_digest_auth_header extract_bearer_token
    is_session_expired lookup get subscript subscript_zero iterate truthy equals_nat send get_list
    request do_request url_of raise_for_status success_of on_success on_failure raise_for_body
    raise_for_401 raise_for_code raise_http_error extract_sonicos_message extract_sonicos_code
    or_text try_request try_paths enter_config_mode exit_config_mode_if_needed aenter on_clean
    on_exception aexit leave pending try_else ◌>>=◌ http_error error_text lower upper contains
runs = tt

-- The first request behind the handshake finds the session expired.
abbrev pub expiring : Env
expiring =
    device λ l r. elim l [ [] ↦ ok (respond 401 (dict [])) | _ ∷ _ ↦ ok (respond 200 (dict [])) ]

-- Commits and object requests run into the time limit.
abbrev pub slow : Env
slow = device λ l r.
    if str_eq r.url "https://fw/api/sonicos/config/mode"
    then ok (respond 200 (dict []))
    else err (timeout "slow")

-- Each request is cancelled.
abbrev pub cancelling : Env
cancelling = device (λ l r. err cancelled)
