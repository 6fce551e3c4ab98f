-- ===== src/LiveValidation/Logged.antt =====
-- scripts/run_live_validation_logged.py: the steps of a run, what a step records, and the exit code.
-- What is logged is left out.
pub mod Clean
pub mod Step
pub mod Exit
use Prim.Native.String.{◌++◌}
use mathlib.Core.List.{[], ◌∷◌, ◌++◌ as append}
use sonicwall_sdk.Prelude.{
  ℕ, String, Bool, true, false, Option, none, some, List, str_eq, if◌then◌else◌,
}
use sonicwall_sdk.Errors.{
  Error, Result, ok, err, builtin, timeout_error, cancelled, is_sonicwall_error,
}
use sonicwall_sdk.Exec.{Exec, pure, raise, lift, gets, try_else, except_exception, ◌>>=◌, ◌>>◌}
use sonicwall_sdk.Transport.{Env, Session, Request}
use sonicwall_sdk.Firmware.{is_firmware_unsupported_error}
use sonicwall_sdk.Client.{new_client, connect, disconnect}
use sonicwall_sdk.Models.AddressObject.{model}
use sonicwall_sdk.Resources.AddressObjects
use sonicwall_sdk.Resources.AccessRules
use sonicwall_sdk.Resources.Interfaces
use sonicwall_sdk.Resources.NatPolicies
use sonicwall_sdk.Resources.ServiceObjects
use sonicwall_sdk.Resources.Dhcp
use sonicwall_sdk.LiveValidation.{Validation, Variables, LiveCredentials, resolve_live_credentials}
use sonicwall_sdk.LiveValidation.Smoke.{object_name, write_test}

-- The client, and the lists that the steps add to.
pub record Run : Type 0 where
  pub session : Session
  pub failures : List String
  pub skips : List String

-- An action of the client in a run.
unfoldable pub on_session : {A : Type 0} → Exec Session A → Exec Run A
on_session m r = let (a, s) = m r.session in (a, record r { session = s })

-- `failures.append(entry)`
unfoldable pub fail : String → Exec Run (Unit {0})
fail entry r = (ok tt, record r { failures = append r.failures (entry ∷ []) })

-- `skips.append(name)`
unfoldable pub skip : String → Exec Run (Unit {0})
skip name r = (ok tt, record r { skips = append r.skips (name ∷ []) })

-- `asyncio.wait_for`: at the deadline the coroutine is cancelled, and where that ends it, a
-- `TimeoutError` stands for it. `expired` says, by the requests sent, whether it was this deadline
-- that cancelled it.
abbrev pub timed : {A : Type 0} → Bool → Result A → Result A
timed true (err cancelled) = err (builtin timeout_error "")
timed expired r = r

unfoldable pub wait_for : {A : Type 0} → (List Request → Bool) → Exec Session A → Exec Session A
wait_for expired m s = let (r, after) = m s in (timed (expired after.log) r, after)

-- `isinstance(exc, TimeoutError)`
abbrev pub is_timeout : Error → Bool
is_timeout (builtin timeout_error _) = true
is_timeout _ = false

-- `failures and failures[0] == "auth.connect"`
abbrev pub login_failed : List String → Bool
login_failed [] = false
login_failed (entry ∷ entries) = str_eq entry "auth.connect"

-- `1 if failures else 0`
abbrev pub exit_value : List String → ℕ
exit_value [] = 0
exit_value (entry ∷ entries) = 1

abbrev pub failed : Run → List String
failed r = r.failures

unfoldable pub new_run : LiveCredentials → Run
unfolding new_client
new_run creds = record {
  session = new_client creds.host creds.username creds.password;
  failures = [];
  skips = [];
}

-- The code that the process exits with, if `main` was cancelled at the end of its time or not;
-- `none` where a `CancelledError` goes on.
abbrev pub exit_code : Result ℕ → Option ℕ
exit_code (ok code) = some code
exit_code (err (builtin timeout_error _)) = some 124
exit_code (err cancelled) = none
exit_code (err _) = some 1

module _ (env : Env) where
  -- The `except` clauses of `step`
  unfoldable pub record_error : String → Error → Exec Run (Unit {0})
  unfolding fail skip
  record_error name e =
      if is_timeout e
      then fail (name ++ ":timeout")
      else if is_sonicwall_error e
      then (do
        unsupported ← lift (is_firmware_unsupported_error env e)
        if unsupported then skip name else fail name)
      else except_exception (λ _. fail name) e

  -- `async with client: steps`
  unfoldable pub leave : Result (Unit {0}) → Exec Run (Unit {0})
  unfolding on_session
  leave (ok a) = do on_session (disconnect env); pure a
  leave (err e) = do on_session (disconnect env); raise e

module _ (env : Env) (expired : List Request → Bool) where
  -- `step`
  unfoldable pub step : {A : Type 0} → String → Exec Session A → Exec Run (Unit {0})
  unfolding wait_for record_error on_session
  step name m = try_else (on_session (wait_for expired m)) (record_error env name) (λ _. pure tt)

module _ (env : Env) (validation : Validation) (expired : List Request → Bool) where
  -- The body of `async with client`
  unfoldable pub steps : Exec Run (Unit {0})
  steps = do
    step env expired "address_objects.list"
        (AddressObjects.list env (model validation.fields) object_name)
    step env expired "access_rules.list" (AccessRules.list env validation.rule)
    step env expired "interfaces.list" (Interfaces.list env validation.interface)
    step env expired "nat_policies.list" (NatPolicies.list env validation.policy)
    step env expired "service_objects.list" (ServiceObjects.list env validation.service)
    step env expired "dhcp.list_leases" (Dhcp.list_leases env validation.lease)
    step env expired "address_object.write_delete" (write_test env validation)

  unfoldable pub connected_steps : Exec Run (Unit {0})
  unfolding steps leave
  connected_steps = do
    on_session (connect env)
    try_else steps (λ e. leave env (err e)) (λ a. leave env (ok a))

  abbrev pub after_login : List String → Exec Run ℕ
  after_login failures =
      if login_failed failures
      then pure 1
      else (do connected_steps; entries ← gets failed; pure (exit_value entries))

  -- `main` with the credentials at hand
  unfoldable pub validate : Exec Run ℕ
  unfolding connected_steps
  validate = do
    step env expired "auth.connect" (connect env)
    failures ← gets failed
    after_login failures

  abbrev pub with_credentials : Result LiveCredentials → Result ℕ
  with_credentials (ok creds) = (validate (new_run creds)).0
  with_credentials (err e) = ok 2

  -- `main`; nothing but a `ValueError` is raised for the credentials
  unfoldable pub main : Variables → Result ℕ
  unfolding resolve_live_credentials validate new_run
  main getenv = with_credentials (resolve_live_credentials getenv none none none true)

  unfoldable pub run : Bool → Variables → Option ℕ
  unfolding main
  run overall getenv = exit_code (timed overall (main getenv))
