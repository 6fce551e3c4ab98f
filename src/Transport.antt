-- ===== src/Transport.antt =====
-- What the client shares with the rest of the world: requests, responses, and the environment, which
-- is everything that the package calls and does not implement.
pub mod Frame
pub mod Blind
use sonicwall_sdk.Prelude.{
  ℕ, String, Bool, ◌&&◌, Option, none, some, List, [], ◌∷◌, leb, str_eq, if◌then◌else◌,
}
use sonicwall_sdk.Json.Value.{Value, dict}
use sonicwall_sdk.Errors.{Result}
use sonicwall_sdk.Exec.{Exec}

-- The body that a request carries: raw bytes, or what `json=` is given.
pub data Body : Type 0 where
  empty : Body
  content : String → Body
  json : Value → Body

pub record Request : Type 0 where
  pub method : String
  pub url : String
  pub headers : List (String × String)
  pub body : Body

-- `payload` is what `response.json()` returns, `none` if it raises. The names of headers are in
-- lower case.
pub record Response : Type 0 where
  pub status_code : ℕ
  pub reason_phrase : String
  pub headers : List (String × String)
  pub payload : Option Value

-- httpx's `Response.is_success`
abbrev pub is_success : Response → Bool
is_success r = leb 200 r.status_code && leb r.status_code 299

-- `headers.get_list(name)`
unfoldable pub get_list : String → List (String × String) → List String
get_list name [] = []
get_list name ((k, v) ∷ l) = let rest = get_list name l in if str_eq k name then v ∷ rest else rest

-- `_safe_json` of _auth.py and _http.py
abbrev pub safe_json : Response → Value
safe_json r = elim r.payload [ none ↦ dict [] | some v ↦ v ]

-- `server` stands for httpx, the network and the device: it answers a request, or fails with an
-- exception, by all requests that were sent before it (the newest first). `show` is Python's
-- `str()` on values that are no texts, `sha256` and `md5` are the hexadecimal digests of hashlib,
-- and `urandom` gives `os.urandom(8).hex()` after so many requests.
pub record Env : Type 0 where
  pub server : List Request → Request → Result Response
  pub show : Value → String
  pub sha256 : String → String
  pub md5 : String → String
  pub urandom : List Request → String

-- The fields of `AuthManager`.
pub record AuthManager : Type 0 where
  pub base_url : String
  pub username : String
  pub password : String
  pub bearer_token : Option String
  pub authenticated : Bool

-- A client's mutable state: its `AuthManager`, `HTTPClient._base_url`, the shared depth counter
-- of `CommitContext`, and the requests sent so far, the newest first.
pub record Session : Type 0 where
  pub auth : AuthManager
  pub base_url : String
  pub depth : ℕ
  pub log : List Request

-- httpx's `AsyncClient.request`: the request is sent, and answered or failed by the environment.
unfoldable pub send : Env → Request → Exec Session Response
send env r s = (env.server s.log r, record s { log = r ∷ s.log })
