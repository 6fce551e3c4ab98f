-- ===== src/Auth/Manager.antt =====
-- `AuthManager`: each method is an action on the session's state, as a task runs it that is alone.
-- Auth/Tasks has the lock.
pub mod Lifecycle
pub mod Requests
use Prim.Native.String
use mathlib.Core.List.{[], ◌∷◌, ◌++◌}
use sonicwall_sdk.Prelude.{
  String, Bool, true, false, not, ◌&&◌, Option, none, some, List, ◌==◌, if◌then◌else◌,
}
use sonicwall_sdk.Prelude.Text.{show_nat}
use sonicwall_sdk.Json.Value.{nonempty}
use sonicwall_sdk.Errors.{
  Error, Result, ok, err, http_error, authentication, session_expired, is_exception,
}
use sonicwall_sdk.Exec.{Exec, pure, raise, lift, gets, try_except, try_finally, ◌>>=◌, ◌>>◌}
use sonicwall_sdk.Transport.{
  Env, Request, Response, Session, AuthManager, content, empty, is_success, safe_json, send,
}
use sonicwall_sdk.Auth.Digest.{Params, pick_challenge, build_digest_auth_header}
use sonicwall_sdk.Auth.Token.{extract_bearer_token, is_session_expired}

-- `is_authenticated`
unfoldable pub is_authenticated : AuthManager → Bool
is_authenticated a = a.authenticated && (elim a.bearer_token [ none ↦ false | some _ ↦ true ])

abbrev pub auth_url : AuthManager → String
auth_url a = String.◌++◌ a.base_url "/auth"

abbrev pub post_auth : AuthManager → List (String × String) → Request
post_auth a headers = record {
  method = "POST";
  url = auth_url a;
  headers = ("Content-Type", "application/json") ∷ ("Accept", "application/json") ∷ headers;
  body = content "{}";
}

-- An `AuthenticationError` about a response.
abbrev auth_error : Response → String → Error
auth_error r message = http_error authentication r.status_code message (safe_json r)

abbrev set_token : Option String → Bool → Exec Session (Unit {0})
set_token token authenticated s = (
  ok tt,
  record s { auth = record s.auth { bearer_token = token; authenticated = authenticated } },
)

-- The end of `authenticate`, with the token of the response.
finish : Response → Option String → Exec Session (Unit {0})
finish r token =
    if nonempty token
    then set_token token true
    else raise (auth_error r "Authentication succeeded but no bearer_token in response body")

-- The checks on the second response.
on_reply : Env → Response → Exec Session (Unit {0})
unfolding finish
on_reply env r =
    if r.status_code == 401
    then raise (auth_error r "Authentication failed: invalid username or password")
    else if not (is_success r)
    then raise
        (auth_error r (String.◌++◌ "Authentication failed with status " (show_nat r.status_code)))
    else finish r (extract_bearer_token env r)

abbrev answer : Env → Params → Session → Result String
answer env challenge s =
    build_digest_auth_header env (env.urandom s.log) "POST" (auth_url s.auth) "{}" s.auth.username
      s.auth.password challenge

-- The second request, with the header for the challenge.
on_challenge : Env → Response → Option Params → Exec Session (Unit {0})
unfolding on_reply
on_challenge env r none =
    raise (auth_error r "Server returned 401 but no usable Digest auth-int challenge")
on_challenge env r (some challenge) = do
  s ← gets (λ s. s)
  header ← lift (answer env challenge s)
  response ← send env (post_auth s.auth (("Authorization", header) ∷ []))
  on_reply env response

-- `authenticate`
unfoldable pub authenticate : Env → Exec Session (Unit {0})
unfolding on_challenge
authenticate env = do
  a ← gets (λ s. s.auth)
  challenge_response ← send env (post_auth a [])
  if not (challenge_response.status_code == 401)
      then raise (
          auth_error challenge_response (
            String.◌++◌ "Expected 401 Digest challenge, got "
              (show_nat challenge_response.status_code)))
      else on_challenge env challenge_response (pick_challenge challenge_response)

-- `ensure_authenticated`
unfoldable pub ensure_authenticated : Env → Exec Session (Unit {0})
ensure_authenticated env = do
  a ← gets (λ s. s.auth)
  if is_authenticated a then pure tt else authenticate env

-- `reauthenticate`
unfoldable pub reauthenticate : Env → Exec Session (Unit {0})
reauthenticate env = do set_token none false; authenticate env

-- `_auth_headers`
unfoldable pub auth_headers : Option String → List (String × String)
auth_headers none = []
auth_headers (some token) =
    if nonempty (some token) then ("Authorization", String.◌++◌ "Bearer " token) ∷ [] else []

abbrev ignore : Error → Exec Session (Unit {0})
ignore e = if is_exception e then pure tt else raise e

abbrev pub delete_auth : AuthManager → Request
delete_auth a = record {
  method = "DELETE";
  url = auth_url a;
  headers = auth_headers a.bearer_token ++ (("Accept", "application/json") ∷ []);
  body = empty;
}

-- `logout`
unfoldable pub logout : Env → Exec Session (Unit {0})
logout env = do
  a ← gets (λ s. s.auth)
  if not (is_authenticated a)
      then pure tt
      else try_finally (try_except (do send env (delete_auth a); pure tt) ignore)
          (set_token none false)

-- `check_response_for_session_expiry`
unfoldable pub check_response_for_session_expiry : Response → Bool
check_response_for_session_expiry r =
    if r.status_code == 401 && is_session_expired r
    then true
    else if is_success r && is_session_expired r
    then true
    else false

-- `raise_if_session_expired`
unfoldable pub raise_if_session_expired : Response → Result (Unit {0})
unfolding check_response_for_session_expiry
raise_if_session_expired r =
    if check_response_for_session_expiry r
    then err (
        http_error session_expired r.status_code
          "SonicOS session expired; re-authentication required" (safe_json r))
    else ok tt
