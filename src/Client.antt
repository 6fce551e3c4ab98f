-- ===== src/Client.antt =====
-- `SonicWallClient` of _client.py: its construction, and its life as a context manager. The
-- connection pool is left to Client/Pool.
pub mod Host
pub mod Lifecycle
pub mod Pool
pub mod Singletons
use Prim.Native.String.{◌++◌}
use mathlib.Core.List.{[], ◌∷◌}
use sonicwall_sdk.Prelude.{
  String, Bool, true, false, not, Option, none, str_eq, if◌then◌else◌, ◌≡◌, refl,
}
use sonicwall_sdk.Prelude.Text.{codes, contains, strip, lstrip, rstrip, span, is_space, is_slash}
use sonicwall_sdk.Errors.{Result, ok, err}
use sonicwall_sdk.Exec.{Exec, pure, raise, try_else, ◌>>=◌, ◌>>◌}
use sonicwall_sdk.Transport.{Env, Session, AuthManager}
use sonicwall_sdk.Url.{urlparse}
use sonicwall_sdk.Auth.Manager.{authenticate, logout}

-- `a or b` on texts
abbrev or_text : String → String → String
or_text a b = if str_eq a "" then b else a

-- `s.strip().rstrip("/")`
unfoldable pub trim : String → String
unfolding lstrip rstrip
trim s = rstrip is_slash (strip s)

-- `s.split("/", 1)[0]`
unfoldable pub before_slash : String → String
unfolding span
before_slash s = (span (λ c. not (is_slash c)) s).0

-- The scheme and the host of a trimmed text, before the second trimming.
unfoldable pub split_host : String → String × String
unfolding contains urlparse
split_host raw =
    if contains (codes "://") (codes raw)
    then (let u = urlparse raw in (or_text u.scheme "https", or_text u.netloc u.path))
    else ("https", raw)

-- `_normalize_host`
unfoldable pub normalize_host : String → String × String
unfolding trim split_host before_slash
normalize_host host =
    let (scheme, host_part) = split_host (trim host) in (scheme, before_slash (trim host_part))

-- `f"{scheme}://{host_only}/api/sonicos"`
unfoldable pub base_url_of : String → String
unfolding normalize_host
base_url_of host =
    let (scheme, host_only) = normalize_host host in
    scheme ++ ("://" ++ (host_only ++ "/api/sonicos"))

-- `AuthManager.__init__`
unfoldable pub new_auth : String → String → String → AuthManager
unfolding rstrip
new_auth base_url username password = record {
  base_url = rstrip is_slash base_url;
  username = username;
  password = password;
  bearer_token = none;
  authenticated = false;
}

-- `SonicWallClient.__init__`, with `HTTPClient.__init__`
unfoldable pub new_client : String → String → String → Session
unfolding base_url_of new_auth rstrip
new_client host username password = record {
  auth = new_auth (base_url_of host) username password;
  base_url = rstrip is_slash (base_url_of host);
  depth = 0;
  log = [];
}

-- `connect`
unfoldable pub connect : Env → Exec Session (Unit {0})
connect env = authenticate env

-- `disconnect`
unfoldable pub disconnect : Env → Exec Session (Unit {0})
disconnect env = logout env

-- `async with client: body`
module _ {A : Type 0} (env : Env) where
  unfoldable pub leave : Result A → Exec Session A
  leave (ok a) = do disconnect env; pure a
  leave (err e) = do disconnect env; raise e

  unfoldable pub with_client : Exec Session A → Exec Session A
  unfolding leave
  with_client body = do connect env; try_else body (λ e. leave (err e)) (λ a. leave (ok a))

-- What a run unfolds.
unfoldable pub client_runs : Unit {0}
unfolding normalize_host base_url_of new_client connect disconnect with_client try_else ◌>>=◌
client_runs = tt

bare_host : base_url_of " 192.168.1.1/ " ≡ "https://192.168.1.1/api/sonicos"
unfolding client_runs
bare_host = refl

with_scheme : base_url_of "http://fw:8443/admin/x" ≡ "http://fw:8443/api/sonicos"
unfolding client_runs
with_scheme = refl
