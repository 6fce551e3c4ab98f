-- ===== src/Examples/Live.antt =====
-- The checks of a live device, run against scripted devices.
use mathlib.Core.List.{[], ◌∷◌}
use sonicwall_sdk.Prelude.{
  some, none, str_eq, true, String, ◌⊎◌, false, ◌≡◌, refl, ltb, length, if◌then◌else◌,
}
use sonicwall_sdk.Json.Value.{dict}
use sonicwall_sdk.Errors.{cancelled, ok, err, http_error, authentication, Error}
use sonicwall_sdk.Transport.{Env, Response}
use sonicwall_sdk.Transport.Frame.{Sent, site}
use sonicwall_sdk.Commit.Requests.{HasMethod}
use sonicwall_sdk.Contract.{run}
use sonicwall_sdk.Contract.ReadOnly.{run-Sent}
use sonicwall_sdk.Auth.Manager.{is_authenticated}
use sonicwall_sdk.Client.{client_runs, new_client, connect}
use sonicwall_sdk.LiveValidation.{Validation, Variables, LiveCredentials, resolve_live_credentials}
use sonicwall_sdk.LiveValidation.Smoke.{
  run_smoke, smoke, checks, check, fails_if_found, fails_if_supported, write_test,
}
use sonicwall_sdk.LiveValidation.WriteCrud.{run_write_crud, write_crud}
use sonicwall_sdk.LiveValidation.Outcome.{NoLogin, Checked, run_smoke_returned}
use sonicwall_sdk.LiveValidation.Clean.{AllPassed, Passed, run_write_crud_clean}
use sonicwall_sdk.Resources.ServiceObjects.{write_any}
use sonicwall_sdk.Resources.ServiceObjects
use sonicwall_sdk.Resources.AddressObjects
use sonicwall_sdk.Resources.Interfaces
use sonicwall_sdk.Resources.Dhcp
use sonicwall_sdk.Resources.Dhcp.{leases_of}
use sonicwall_sdk.Resources.Base.{list_path, parse_items, is_schema_array_error}
use sonicwall_sdk.Models.AddressObject
use sonicwall_sdk.Resources.NatPolicies
use sonicwall_sdk.Resources.AccessRules
use sonicwall_sdk.Resources.Normalize.{normalize_get_from_plural, select}
use sonicwall_sdk.Models.ServiceObject.{from_api_response}
use sonicwall_sdk.Models.NatPolicy
use sonicwall_sdk.Url.{quote}
use sonicwall_sdk.LiveValidation.Logged.{
  run as logged_run, main, validate, step, connected_steps, new_run,
}
use sonicwall_sdk.LiveValidation.Logged.Clean as Exit
use sonicwall_sdk.LiveValidation.Logged.Exit.{exit_zero, login_timeout}
use sonicwall_sdk.Examples.Device.{runs, calm, respond, handshake}
use sonicwall_sdk.Examples.Objects.{fields, refused}

abbrev validation : Validation
validation = record {
  fields = fields;
  rule = λ v. refused;
  interface = λ v. refused;
  policy = λ v. refused;
  lease = λ v. refused;
  service = record { port_range = λ v. refused; icmp_spec = λ v. refused; text = λ v. refused };
}

-- Takes each request, and asks for no digest.
abbrev open_door : Env
open_door = record calm { server = λ l r. ok (respond 200 (dict [])) }

-- Asks for a digest once.
abbrev once : Env
once = record calm {
  server = λ l r. if ltb (length l) 2 then calm.server l r else ok (respond 200 (dict []));
}

abbrev no_challenge : Error
no_challenge = http_error authentication 200 "Expected 401 Digest challenge, got 200" (dict [])

-- What a run of the write checks unfolds.
crud_runs : Unit {0}
unfolding run_write_crud write_crud write_any ServiceObjects.get ServiceObjects.get_single quote
    normalize_get_from_plural from_api_response select NatPolicies.write_any NatPolicies.get
    NatPolicies.get_single NatPolicy.from_api_response AccessRules.post AccessRules.get
    AccessRules.get_single
crud_runs = tt

run_write_crud_clean_example :
    AllPassed calm validation "0" (connect calm (new_client "fw" "admin" "secret")).1
    × (is_authenticated (run_write_crud calm validation "0" "fw" "admin" "secret").1.auth ≡ false)
unfolding runs client_runs crud_runs
run_write_crud_clean_example = run_write_crud_clean calm validation "0" "fw" "admin" "secret" refl

-- A scripted device has no use for the text of a response.
abbrev no_text : Response → String
no_text r = ""

run-Sent_example :
    Sent
      (HasMethod (site (new_client "fw" "admin" "secret")) "GET")
      []
      (run calm no_text "fw" "admin" "secret").1.log
run-Sent_example = run-Sent calm no_text "fw" "admin" "secret"

-- Only the password is set.
abbrev variables : Variables
variables name = if str_eq name "SONICWALL_PASS" then some "secret" else none

abbrev credentials : LiveCredentials
credentials = record { host = "192.168.0.1"; username = "admin"; password = "secret" }

-- The device under the default address.
abbrev at_home : Env
at_home = record calm {
  server = λ l r.
      if str_eq r.url "https://192.168.0.1/api/sonicos/auth"
      then ok (handshake r)
      else calm.server l r;
}

logged_runs : Unit {0}
unfolding logged_run main validate step connected_steps write_test AddressObjects.list list_path
    parse_items AccessRules.list Interfaces.list NatPolicies.list ServiceObjects.list
    Dhcp.list_leases leases_of AddressObjects.post AddressObjects.get quote
    normalize_get_from_plural AddressObject.to_api_dict AddressObject.from_api_response
logged_runs = tt

-- A device that asks for a digest, and that fails on the collections of address objects and of NAT
-- policies: two lists and the write test.
abbrev partial_lists : Env
partial_lists = record calm {
  server = λ l r.
      if str_eq r.url "https://fw/api/sonicos/address-objects/ipv4"
      then ok (respond 500 (dict []))
      else if str_eq r.url "https://fw/api/sonicos/nat-policies/ipv4"
      then ok (respond 500 (dict []))
      else calm.server l r;
}

run_smoke_returned_example :
    let s = new_client "fw" "admin" "secret" in
    (NoLogin partial_lists s 3 ⊎ Checked partial_lists validation s 3)
    × (is_authenticated (run_smoke partial_lists validation "fw" "admin" "secret").1.auth ≡ false)
unfolding runs client_runs crud_runs logged_runs run_smoke smoke checks check fails_if_found
    fails_if_supported is_schema_array_error
run_smoke_returned_example =
    run_smoke_returned partial_lists validation "fw" "admin" "secret" 3 refl

exit_zero_example :
    (creds : LiveCredentials) × (resolve_live_credentials variables none none none true ≡ ok creds)
    × (let first = connect at_home (new_client creds.host creds.username creds.password) in
        Passed at_home first.0
        × ((connect at_home first.1).0 ≡ ok tt)
        × Exit.AllPassed at_home validation (λ log. false) (connect at_home first.1).1
        × (is_authenticated
              (validate at_home validation (λ log. false) (new_run creds)).1.session.auth
            ≡ false))
unfolding runs client_runs logged_runs select
exit_zero_example = exit_zero at_home validation (λ log. false) false variables refl

-- A network that never answers.
abbrev silent : Env
silent = record calm { server = λ l r. err cancelled }

login_timeout_example :
    let first = connect silent (new_client "192.168.0.1" "admin" "secret") in
    let second = connect silent first.1 in
    let ended = validate silent validation (λ log. true) (new_run credentials) in
    ((x : Error) × (second.0 ≡ err x)
      × (ended ≡ (
        err x,
        record { session = second.1; failures = "auth.connect:timeout" ∷ []; skips = [] },
      )))
    ⊎ ((second.0 ≡ ok tt) × ((ended.0 ≡ ok 1) ⊎ ((e : Error) × (ended.0 ≡ err e))))
unfolding runs client_runs
login_timeout_example = login_timeout silent validation (λ log. true) credentials refl refl
