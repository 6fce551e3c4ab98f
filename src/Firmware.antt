-- ===== src/Firmware.antt =====
-- _firmware.py: which errors reflect a limitation of the firmware, with the properties of
-- `SonicWallHTTPError` in _exceptions.py.
use sonicwall_sdk.Prelude.{
  ℕ, zero, String, Bool, true, false, ◌&&◌, ◌||◌, Option, none, some, ◌==◌, if◌then◌else◌,
}
use sonicwall_sdk.Prelude.Text.{codes, contains, lower}
use sonicwall_sdk.Json.Value.{Value, int, ℤ, pos, str, truthy}
use sonicwall_sdk.Json.Access.{get, subscript, subscript_zero, to_int}
use sonicwall_sdk.Errors.{
  Error, http, HttpError, Result, ok, err, builtin, key_error, type_error, index_error, error_text,
  is_sonicwall_error, ◌>>=◌,
}
use sonicwall_sdk.Auth.Token.{to_str}
use sonicwall_sdk.Transport.{Env}

-- `firmware_limitation_message`, with the tests on `message.lower()`
unfoldable pub firmware_limitation_message : ℕ → String → Option String
unfolding contains lower
firmware_limitation_message status_code message =
    let mentions = λ (s : String). contains (codes s) (lower message) in
    if mentions "api not found"
    then some "api_not_found"
    else if mentions "endpoint is incomplete" || (status_code == 400 && mentions "incomplete")
    then some "endpoint_incomplete"
    else if mentions "command" && mentions "not found"
    then some "command_not_found"
    else if status_code == 405 && mentions "non config mode"
    then some "non_config_mode"
    else none

-- `except (KeyError, TypeError, IndexError): pass`, with the value that the code returns then
unfoldable pub or_missing {ℓ} : {A : Type ℓ} → A → Result A → Result A
or_missing d (err (builtin key_error _)) = ok d
or_missing d (err (builtin type_error _)) = ok d
or_missing d (err (builtin index_error _)) = ok d
or_missing d r = r

-- `body["status"]["info"]`
unfoldable pub info_list : Value → Result Value
unfolding subscript
info_list body = do status ← subscript body "status"; subscript status "info"

-- `SonicWallHTTPError.sonicos_message`
unfoldable pub sonicos_message : Env → HttpError → Result (Option String)
unfolding or_missing info_list truthy subscript_zero get
sonicos_message env e = or_missing none (do
  info ← info_list e.response_body
  if truthy info
      then (do
        first ← subscript_zero info
        message ← get first "message" (str "")
        ok (some (to_str env message)))
      else ok none)

-- `n or None`
abbrev pub nonzero : ℤ → Option ℤ
nonzero (pos zero) = none
nonzero n = some n

-- `SonicWallHTTPError.sonicos_code`
unfoldable pub sonicos_code : HttpError → Result (Option ℤ)
unfolding or_missing info_list truthy subscript_zero get to_int
sonicos_code e = or_missing none (do
  info ← info_list e.response_body
  if truthy info
      then (do
        first ← subscript_zero info
        code ← get first "code" (int (pos 0))
        n ← to_int code
        ok (nonzero n))
      else ok none)

abbrev or_empty : Option String → String
or_empty none = ""
or_empty (some s) = s

abbrev is_some : Option String → Bool
is_some none = false
is_some (some _) = true

-- `is_firmware_unsupported_error`; `sonicos_message` lets an `AttributeError` through
unfoldable pub is_firmware_unsupported_error : Env → Error → Result Bool
unfolding firmware_limitation_message sonicos_message error_text
is_firmware_unsupported_error env (http e) =
    if is_some (firmware_limitation_message e.status_code e.message) then ok true else (do
      message ← sonicos_message env e
      ok (is_some (firmware_limitation_message e.status_code (or_empty message))))
is_firmware_unsupported_error env e =
    if is_sonicwall_error e
    then ok (is_some (firmware_limitation_message 0 (error_text e)))
    else ok false
