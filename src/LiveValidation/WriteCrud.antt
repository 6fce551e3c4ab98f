-- ===== src/LiveValidation/WriteCrud.antt =====
-- `run_write_crud` of _live_validation.py
use Prim.Native.String.{◌++◌}
use sonicwall_sdk.Prelude.{ℕ, ◌+◌, ◌==◌, String, Bool, true, false, none, some, if◌then◌else◌}
use sonicwall_sdk.Errors.{Error, Result, ok, err, is_sonicwall_error}
use sonicwall_sdk.Errors
use sonicwall_sdk.Exec.{Exec, pure, raise, lift, try_else, ◌>>=◌, ◌>>◌}
use sonicwall_sdk.Transport.{Env, Session}
use sonicwall_sdk.Firmware.{is_firmware_unsupported_error}
use sonicwall_sdk.Client.{new_client, with_client}
use sonicwall_sdk.Commit.{pending}
use sonicwall_sdk.Models.AccessRule.{AccessRule, AccessRuleAction, RuleAddress}
use sonicwall_sdk.Models.NatPolicy.{NatPolicy}
use sonicwall_sdk.Models.ServiceObject.{ServiceObject}
use sonicwall_sdk.Resources.AccessRules
use sonicwall_sdk.Resources.NatPolicies
use sonicwall_sdk.Resources.ServiceObjects
use sonicwall_sdk.LiveValidation.{Validation}

-- The local counters of `run_write_crud`
pub record Tally : Type 0 where
  pub failures : ℕ
  pub unsupported : ℕ

abbrev pub count_error : Tally → Bool → Result Tally
count_error t true = ok (record t { unsupported = t.unsupported + 1 })
count_error t false = ok (record t { failures = t.failures + 1 })

-- The counters behind one area: every `SonicWallError` of it is counted, as unsupported or as
-- a failure.
unfoldable pub area : {A : Type 0} → Env → Exec Session A → Tally → Exec Session Tally
unfolding is_firmware_unsupported_error
area env m t =
    try_else m
      (λ e.
        if is_sonicwall_error e
        then lift (Errors.◌>>=◌ (is_firmware_unsupported_error env e) (count_error t))
        else raise e)
      (λ _. pure t)

abbrev service : String → ℕ → ServiceObject
service name port = record {
  name = name;
  protocol = record { tcp = some (record { begin = port; last = port }); udp = none; icmp = none };
}

abbrev policy : String → NatPolicy
policy name = record {
  name = some name;
  enabled = true;
  inbound_interface = "any";
  outbound_interface = "X1";
  original_source = "any";
  translated_source = "original";
  original_destination = "any";
  translated_destination = "original";
  original_service = "any";
  translated_service = "original";
  comment = none;
}

abbrev any_address : RuleAddress
any_address = record { any = true; name = none; group = none }

abbrev deny_rule : String → AccessRule
deny_rule name = record {
  name = some name;
  from_zone = "LAN";
  to_zone = "WAN";
  action = AccessRuleAction.deny;
  enabled = true;
  log = false;
  priority = record { auto = true; value = none };
  source_address = any_address;
  destination_address = any_address;
  service = record { any = true; name = none };
  comment = none;
}

module _ (env : Env) (validation : Validation) where
  unfoldable pub service_area : String → Exec Session (Unit {0})
  unfolding ServiceObjects.create ServiceObjects.update ServiceObjects.delete
  service_area name = pending env (do
    ServiceObjects.create env validation.service (service name 65000)
    ServiceObjects.update env validation.service name (service name 65001)
    ServiceObjects.delete env validation.service name)

  unfoldable pub policy_area : String → Exec Session (Unit {0})
  unfolding NatPolicies.create NatPolicies.update NatPolicies.delete
  policy_area name = pending env (do
    NatPolicies.create env validation.policy (policy name)
    NatPolicies.update env validation.policy name (policy name)
    NatPolicies.delete env validation.policy name)

  unfoldable pub rule_area : String → Exec Session (Unit {0})
  unfolding AccessRules.create AccessRules.update AccessRules.delete
  rule_area name = pending env (do
    AccessRules.create env validation.rule (deny_rule name)
    AccessRules.update env validation.rule "LAN" "WAN" name (deny_rule name)
    AccessRules.delete env validation.rule "LAN" "WAN" name)

  -- The body of `async with`; `suffix` is the time as a text.
  unfoldable pub areas : String → Exec Session Tally
  unfolding area service_area policy_area rule_area
  areas suffix = do
    a ← area env (service_area ("sdk-svc-" ++ suffix)) (record { failures = 0; unsupported = 0 })
    b ← area env (policy_area ("sdk-nat-" ++ suffix)) a
    area env (rule_area ("sdk-rule-" ++ suffix)) b

  -- `1 if failures else 0`
  abbrev pub exit_code : Tally → ℕ
  exit_code t = if t.failures == 0 then 0 else 1

  unfoldable pub write_crud : String → Exec Session ℕ
  unfolding areas
  write_crud suffix = do t ← with_client env (areas suffix); pure (exit_code t)

  -- `run_write_crud`
  unfoldable pub run_write_crud : String → String → String → String → Result ℕ × Session
  unfolding write_crud new_client
  run_write_crud suffix host username password =
      write_crud suffix (new_client host username password)
