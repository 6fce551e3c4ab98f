-- ===== src/LiveValidation/Smoke.antt =====
-- `run_smoke` of _live_validation.py
use sonicwall_sdk.Prelude.{ℕ, ◌+◌, String, Bool, true, false, some, if◌then◌else◌}
use sonicwall_sdk.Errors.{Error, Result, ok, err, is_not_found, is_sonicwall_error}
use sonicwall_sdk.Errors
use sonicwall_sdk.Exec.{Exec, pure, raise, lift, try_else, ◌>>=◌, ◌>>◌}
use sonicwall_sdk.Transport.{Env, Session}
use sonicwall_sdk.Firmware.{is_firmware_unsupported_error}
use sonicwall_sdk.Client.{new_client, connect, with_client}
use sonicwall_sdk.Commit.{pending}
use sonicwall_sdk.Models.AddressObject.{AddressObject, AddressObjectType, blank, model}
use sonicwall_sdk.Resources.AddressObjects
use sonicwall_sdk.Resources.AccessRules
use sonicwall_sdk.Resources.Interfaces
use sonicwall_sdk.Resources.NatPolicies
use sonicwall_sdk.Resources.ServiceObjects
use sonicwall_sdk.Resources.Dhcp
use sonicwall_sdk.LiveValidation.{Validation}

-- The error count behind a check: `weigh` says what a `SonicWallError` of it adds.
unfoldable pub check : {A : Type 0} → Exec Session A → (Error → Result ℕ) → ℕ → Exec Session ℕ
check m weigh errors =
    try_else m
      (λ e.
        if is_sonicwall_error e
        then lift (Errors.◌>>=◌ (weigh e) (λ n. ok (errors + n)))
        else raise e)
      (λ _. pure errors)

-- `errors += 1`
abbrev pub fails : Error → Result ℕ
fails e = ok 1

abbrev pub one_unless : Bool → Result ℕ
one_unless true = ok 0
one_unless false = ok 1

-- `if is_firmware_unsupported_error(exc): skip(...)`, and `errors += 1` otherwise
unfoldable pub fails_if_supported : Env → Error → Result ℕ
unfolding is_firmware_unsupported_error
fails_if_supported env e = Errors.◌>>=◌ (is_firmware_unsupported_error env e) one_unless

-- `except NotFoundError` before that
unfoldable pub fails_if_found : Env → Error → Result ℕ
unfolding fails_if_supported
fails_if_found env e = if is_not_found e then ok 0 else fails_if_supported env e

abbrev test_name : String
test_name = "sdk-smoke-test-DO-NOT-USE"

-- The object of the write test, with the host 10.255.254.253.
abbrev test_object : AddressObject
test_object = record (blank test_name "LAN" AddressObjectType.host) { host = some 184549117 }

abbrev pub object_name : AddressObject → String
object_name o = o.name

module _ (env : Env) (validation : Validation) where
  -- The write test: create and delete an object in one context.
  unfoldable pub write_test : Exec Session (Unit {0})
  unfolding AddressObjects.create AddressObjects.delete
  write_test = pending env (do
    AddressObjects.create env (model validation.fields) object_name test_object
    AddressObjects.delete env (model validation.fields) object_name test_name)

  -- The body of `async with client`: the checks from 2 on
  unfoldable pub checks : Exec Session ℕ
  unfolding check fails_if_supported fails_if_found write_test
  checks = do
    a ← check (AddressObjects.list env (model validation.fields) object_name) fails 0
    b ← check (AccessRules.list env validation.rule) fails a
    c ← check (Interfaces.list env validation.interface) (fails_if_supported env) b
    d ← check (NatPolicies.list env validation.policy) fails c
    e ← check (ServiceObjects.list env validation.service) fails d
    f ← check (Dhcp.list_leases env validation.lease) (fails_if_found env) e
    check write_test (fails_if_supported env) f

  abbrev pub count_login : Error → Exec Session ℕ
  count_login e = if is_sonicwall_error e then pure 1 else raise e

  -- The checks with a client that has connected once; `async with` connects it again.
  unfoldable pub smoke : Exec Session ℕ
  unfolding checks
  smoke = try_else (connect env) count_login (λ _. with_client env checks)

  -- `run_smoke`
  unfoldable pub run_smoke : String → String → String → Result ℕ × Session
  unfolding smoke new_client
  run_smoke host username password = smoke (new_client host username password)
