-- ===== src/LiveValidation.antt =====
-- _live_validation.py: the credentials, and the checks against a live device. The environment
-- variables, with those that a `.env` file sets, are a parameter; what is printed is left out.
pub mod Smoke
pub mod WriteCrud
pub mod Counts
pub mod Outcome
pub mod Clean
pub mod Logged
pub mod LocalEnv
use mathlib.Core.List.{[], ◌∷◌}
use sonicwall_sdk.Prelude.{
  ℕ, String, Bool, true, false, not, ◌&&◌, ◌||◌, Option, none, some, List, str_eq, if◌then◌else◌,
}
use sonicwall_sdk.Prelude.Text.{codes, lower, strip, same_codes}
use sonicwall_sdk.Json.Value.{Value}
use sonicwall_sdk.Errors.{Error, Result, ok, err, builtin, value_error, is_sonicwall_error}
use sonicwall_sdk.Models.AddressObject.{AddressFields}
use sonicwall_sdk.Models.AccessRule.{AccessRule}
use sonicwall_sdk.Models.ServiceObject.{Pydantic}
use sonicwall_sdk.Models.NatPolicy.{NatPolicy}
use sonicwall_sdk.Models.Interface.{Interface}
use sonicwall_sdk.Models.Dhcp.{DhcpLease}

pub record LiveCredentials : Type 0 where
  pub host : String
  pub username : String
  pub password : String

-- `os.getenv`
abbrev pub Variables : Type 0
Variables = String → Option String

abbrev text_or : Option String → String → String
text_or none rest = rest
text_or (some value) rest = if not (str_eq value "") then value else rest

-- `_env_first`
unfoldable pub env_first : Variables → List String → String → String
env_first getenv [] default = default
env_first getenv (name ∷ names) default = text_or (getenv name) (env_first getenv names default)

abbrev given_or : Option String → String → String
given_or none rest = rest
given_or (some value) rest = value

-- `resolve_live_credentials`
unfoldable pub resolve_live_credentials :
    Variables → Option String → Option String → Option String → Bool → Result LiveCredentials
unfolding env_first
resolve_live_credentials getenv host username password require_password =
    let resolved_host =
      given_or host (env_first getenv ("SONICWALL_HOST" ∷ "SW_HOST" ∷ []) "192.168.0.1") in
    let resolved_user =
      given_or username (env_first getenv ("SONICWALL_USER" ∷ "SW_USER" ∷ []) "admin") in
    let resolved_password =
      given_or password
        (env_first getenv ("SONICWALL_PASS" ∷ "SONICWALL_PASSWORD" ∷ "SW_PASS" ∷ []) "") in
    if require_password && str_eq resolved_password ""
    then err (
        builtin value_error
          "Live device password required: pass --password, set SONICWALL_PASS (or SW_PASS), or add it to a .env file (see .env.example)")
    else ok
        (record { host = resolved_host; username = resolved_user; password = resolved_password })

abbrev returns : Result LiveCredentials → Bool
returns (ok _) = true
returns (err _) = false

-- `live_device_configured`; nothing but a `ValueError` is raised
unfoldable pub live_device_configured : Variables → Bool
unfolding resolve_live_credentials
live_device_configured getenv = returns (resolve_live_credentials getenv none none none true)

-- `integration_write_enabled`
unfoldable pub integration_write_enabled : Variables → Bool
unfolding lower same_codes
integration_write_enabled getenv =
    let value = lower (strip (given_or (getenv "SONICWALL_INTEGRATION_WRITE") "")) in
    same_codes value (codes "1")
    || same_codes value (codes "true")
    || same_codes value (codes "yes")
    || same_codes value (codes "on")

-- What pydantic makes of the arguments that the parsers of the models collect.
pub record Validation : Type 0 where
  pub fields : AddressFields
  pub rule : Value → Result AccessRule
  pub interface : Value → Result Interface
  pub policy : Value → Result NatPolicy
  pub lease : Value → Result DhcpLease
  pub service : Pydantic
