-- ===== src/Examples/Objects.antt =====
-- The theorems about address objects and leases at concrete values.
use mathlib.Core.List.{[]}
use sonicwall_sdk.Prelude.{true, false, ℕ, String, Option, some, none, ◌≡◌, refl, arith, ap}
use sonicwall_sdk.Json.Value.{Value, str, dict, int, ℤ, pos}
use sonicwall_sdk.Errors.{Result, ok, err, builtin, value_error}
use sonicwall_sdk.Transport.{Env}
use sonicwall_sdk.Ip.{parse_address}
use sonicwall_sdk.Models.AddressObject.{AddressFields, to_api_dict, from_api_response}
use sonicwall_sdk.Models.AddressObject.Roundtrip.{
  Accepts, Shape, object_of, from_api_response-object_of,
}
use sonicwall_sdk.Models.AccessRule.{AccessRuleAction, to_api_dict as print_rule}
use sonicwall_sdk.Models.AccessRule.Parser.{RuleFields, from_api_response as rule_from_response}
use sonicwall_sdk.Models.AccessRule.Parts.{
  Parts, Priority, Side, Service, IsValid, rule_of, arguments,
}
use sonicwall_sdk.Models.AccessRule.Roundtrip.{Accepts as RuleAccepts, from_api_response-rule_of}
use sonicwall_sdk.Models.Dhcp.{DhcpLease}
use sonicwall_sdk.Resources.Dhcp.{candidate_paths, list_leases}
use sonicwall_sdk.Resources.Dhcp.Leases.{missing, all_missing, list_leases-missing}
use sonicwall_sdk.Examples.Device.{device, respond, logged_in}

abbrev pub refused : {A : Type 0} → Result A
refused = err (builtin value_error "")

abbrev text : Value → Result String
text (str s) = ok s
text _ = refused

abbrev parsed : Option ℕ → Result ℕ
parsed (some n) = ok n
parsed none = refused

abbrev address : Value → Result ℕ
address (str s) = parsed (parse_address s)
address _ = refused

abbrev pub fields : AddressFields
fields = record {
  name = text;
  text = text;
  address = address;
  show = λ v. "?";
  network_error = λ s. s;
}

fields-Accepts : Accepts fields
fields-Accepts = record { texts = λ s. refl; addresses = λ s n p. ap parsed p }

-- 192.168.0.0/16
abbrev office : Shape
office = Shape.network 3232235520 16

from_api_response-object_of_example :
    from_api_response fields (to_api_dict (object_of "office" "LAN" office))
    ≡ ok (object_of "office" "LAN" office)
from_api_response-object_of_example =
    from_api_response-object_of fields-Accepts "office" "LAN" office refl
      (omega arith, omega arith, refl)

-- A device that knows no leases.
abbrev bare : Env
bare = device (λ l r. ok (respond 404 (dict [])))

abbrev validate : Value → Result DhcpLease
validate v = refused

list_leases-missing_example :
    missing (list_leases bare validate logged_in).0 ≡ all_missing bare candidate_paths logged_in
list_leases-missing_example = list_leases-missing bare validate logged_in

abbrev integer : Value → Result ℤ
integer (int n) = ok n
integer _ = refused

-- A parser that refuses every rule: what it is handed is what counts.
abbrev rule_fields : RuleFields
rule_fields = record { int = integer; text = text; rule = λ a. refused }

rule_fields-Accepts : RuleAccepts rule_fields
rule_fields-Accepts = record { ints = λ n. refl; texts = λ s. refl }

-- A rule with a name and no comment, from a named host to anywhere.
abbrev block_ssh : Parts
block_ssh = record {
  name = some "block-ssh";
  from_zone = "WAN";
  to_zone = "LAN";
  action = AccessRuleAction.deny;
  enabled = true;
  log = false;
  priority = Priority.value (pos 3);
  source = Side.name "host";
  destination = Side.any;
  service = Service.name "SSH";
  comment = none;
}

block_ssh-IsValid : IsValid block_ssh
block_ssh-IsValid = record {
  name = refl;
  source = refl;
  destination = tt;
  service = refl;
  comment = tt;
}

from_api_response-rule_of_example :
    rule_from_response rule_fields (print_rule (rule_of block_ssh))
    ≡ rule_fields.rule (arguments block_ssh)
from_api_response-rule_of_example =
    from_api_response-rule_of rule_fields-Accepts block_ssh block_ssh-IsValid
