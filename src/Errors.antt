-- ===== src/Errors.antt =====
-- _exceptions.py: the exceptions of the package, with those that it lets through.
pub mod Classes
use sonicwall_sdk.Prelude.{ℕ, String, Bool, true, false, Option, none, some, if◌then◌else◌}
use Prim.Native.String.{◌++◌}
use sonicwall_sdk.Prelude.Text.{show_nat}
use sonicwall_sdk.Json.Value.{Value, truthy, dict}
use mathlib.Core.List.{[]}

-- The class of a `SonicWallHTTPError`: `plain` is the base class, and `unsupported` holds `reason`.
pub data Kind : Type 0 where
  plain authentication session_expired authorization not_found conflict rate_limit : Kind
  unsupported : String → Kind

pub record HttpError : Type 0 where
  pub kind : Kind
  pub status_code : ℕ
  pub message : String
  pub response_body : Value

-- Python's own exceptions that the code can meet.
pub data Builtin : Type 0 where
  key_error index_error type_error attribute_error value_error assertion_error runtime_error
        timeout_error :
      Builtin

-- `http` to `connection_error` are the subclasses of `SonicWallError`; `connect_error`, `timeout`
-- and `transport` are those of httpx; `cancelled` is `asyncio.CancelledError`, which is no
-- `Exception`. Each carries the text that `str(exc)` gives.
pub data Error : Type 0 where
  http : HttpError → Error
  commit_error rollback_error connection_error : String → Error
  connect_error timeout transport : String → Error
  builtin : Builtin → String → Error
  cancelled : Error

pub data Result {ℓ} (A : Type ℓ) : Type ℓ where
  ok : A → Result A
  err : Error → Result A

infixl 5 ◌>>=◌
abbrev pub ◌>>=◌ {ℓ κ} : {A : Type ℓ} {B : Type κ} → Result A → (A → Result B) → Result B
ok a >>= f = f a
err e >>= f = err e

-- `response_body or {}`
abbrev body_or_empty : Value → Value
body_or_empty v = if truthy v then v else dict []

-- `SonicWallHTTPError.__init__`, which every subclass calls.
unfoldable pub http_error : Kind → ℕ → String → Value → Error
http_error kind status_code message body = http (record {
  kind = kind;
  status_code = status_code;
  message = message;
  response_body = body_or_empty body;
})

-- `str(exc)`
unfoldable pub error_text : Error → String
error_text (http e) = "HTTP " ++ (show_nat e.status_code ++ (": " ++ e.message))
error_text (commit_error s) = s
error_text (rollback_error s) = s
error_text (connection_error s) = s
error_text (connect_error s) = s
error_text (timeout s) = s
error_text (transport s) = s
error_text (builtin _ s) = s
error_text cancelled = ""

-- `isinstance(exc, Exception)`
abbrev pub is_exception : Error → Bool
is_exception cancelled = false
is_exception _ = true

-- `isinstance(exc, SonicWallError)`
abbrev pub is_sonicwall_error : Error → Bool
is_sonicwall_error (http _) = true
is_sonicwall_error (commit_error _) = true
is_sonicwall_error (rollback_error _) = true
is_sonicwall_error (connection_error _) = true
is_sonicwall_error _ = false

-- `isinstance(exc, SonicWallHTTPError)`
abbrev pub as_http_error : Error → Option HttpError
as_http_error (http e) = some e
as_http_error _ = none

abbrev pub is_not_found_kind : Kind → Bool
is_not_found_kind not_found = true
is_not_found_kind _ = false

-- `isinstance(exc, NotFoundError)`
abbrev pub is_not_found : Error → Bool
is_not_found (http e) = is_not_found_kind e.kind
is_not_found _ = false
