-- ===== src/Models/AccessRule/Roundtrip.antt =====
-- What is printed for an access rule is parsed back to it.
use mathlib.Core.List.{[], ◌∷◌, ◌++◌}
use sonicwall_sdk.Prelude.{String, Option, none, some, ◌≡◌, refl}
use sonicwall_sdk.Json.Value.{bool, int, str, ℤ, dict, lookup, truthy}
use sonicwall_sdk.Json.Access.{get}
use sonicwall_sdk.Errors.{ok, ◌>>=◌}
use sonicwall_sdk.Resources.Base.{unwrap}
use sonicwall_sdk.Models.AccessRule.{
  RuleAddress, RuleService, RulePriority, action_value, text_entry, priority_entry, address_entry,
  service_entry, to_api_dict,
}
use sonicwall_sdk.Models.AccessRule.Parser.{
  RuleFields, Arguments, parse_priority, parse_address, parse_service, arguments_of,
  from_api_response,
}
use sonicwall_sdk.Models.AccessRule.Parts.{
  Parts, Priority, Side, Service, IsSide, IsService, IsText, IsValid, priority_of, address_of,
  service_of, rule_of, priority_value, side_value, service_value, given, arguments,
}

text_entry-given : (key : String) (o : Option String) → IsText o → text_entry key o ≡ given key o
text_entry-given key none h = refl
text_entry-given key (some s) h = rw h refl

priority_entry-value :
    (p : Priority) → priority_entry (priority_of p) ≡ ("priority", priority_value p) ∷ []
unfolding priority_entry
priority_entry-value Priority.automatic = refl
priority_entry-value (Priority.value n) = refl

address_entry-value :
    (key : String) (side : Side)
    → IsSide side
    → address_entry key (address_of side) ≡ (key, side_value side) ∷ []
unfolding address_entry
address_entry-value key Side.any h = refl
address_entry-value key (Side.name s) h = rw h refl
address_entry-value key (Side.group s) h = rw h refl

service_entry-value :
    (service : Service)
    → IsService service
    → service_entry (service_of service) ≡ ("service", service_value service) ∷ []
unfolding service_entry
service_entry-value Service.any h = refl
service_entry-value (Service.name s) h = rw h refl

-- Pydantic takes an integer for an integer, and each text for a text.
pub record Accepts (fields : RuleFields) : Type 0 where
  pub ints : (n : ℤ) → fields.int (int n) ≡ ok n
  pub texts : (s : String) → fields.text (str s) ≡ ok s

module _ {fields : RuleFields} (accepts : Accepts fields) where
  parse_priority-value :
      (p : Priority) → parse_priority fields (priority_value p) ≡ ok (some (priority_of p))
  unfolding parse_priority lookup truthy
  parse_priority-value Priority.automatic = refl
  parse_priority-value (Priority.value n) = rw (accepts.ints n) refl

  parse_address-value :
      (side : Side)
      → IsSide side
      → parse_address fields (side_value side) ≡ ok (some (address_of side))
  unfolding parse_address get lookup truthy
  parse_address-value Side.any h = refl
  parse_address-value (Side.name s) h = rw h (rw (accepts.texts s) refl)
  parse_address-value (Side.group s) h = rw h (rw (accepts.texts s) refl)

  parse_service-value :
      (service : Service)
      → IsService service
      → parse_service fields (service_value service) ≡ ok (some (service_of service))
  unfolding parse_service lookup truthy
  parse_service-value Service.any h = refl
  parse_service-value (Service.name s) h = rw h (rw (accepts.texts s) refl)

  parse_parts :
      (x : Parts)
      → IsValid x
      → (make : Option RulePriority
          → Option RuleAddress
          → Option RuleAddress
          → Option RuleService
          → Arguments)
      → (do
        priority ← parse_priority fields (priority_value x.priority)
        source ← parse_address fields (side_value x.source)
        destination ← parse_address fields (side_value x.destination)
        service ← parse_service fields (service_value x.service)
        ok (make priority source destination service))
        ≡ ok (
            make
              (some (priority_of x.priority))
              (some (address_of x.source))
              (some (address_of x.destination))
              (some (service_of x.service)))
  parse_parts x v make = rw (parse_priority-value x.priority) (
      rw (parse_address-value x.source v.source) (
        rw (parse_address-value x.destination v.destination)
          (rw (parse_service-value x.service v.service) refl)))

  -- What the parser reads of the entries that a rule is printed to.
  read_back :
      (x : Parts) (name comment : Option String)
      → IsValid x
      → arguments_of fields (
          dict (
            ("from", str x.from_zone)
            ∷ ("to", str x.to_zone)
            ∷ ("action", str (action_value x.action))
            ∷ ("enabled", bool x.enabled)
            ∷ ("log", bool x.log)
            ∷ (given "name" name
                ++ (("priority", priority_value x.priority)
                    ∷ ("source", side_value x.source)
                    ∷ ("destination", side_value x.destination)
                    ∷ ("service", service_value x.service)
                    ∷ given "comment" comment))))
        ≡ ok (arguments (record x { name = name; comment = comment }))
  unfolding arguments_of get lookup
  read_back x none none v = parse_parts x v _
  read_back x none (some c) v = parse_parts x v _
  read_back x (some n) none v = parse_parts x v _
  read_back x (some n) (some c) v = parse_parts x v _

  -- A rule with a priority of its own or an automatic one, with sides and a service that are `any` or
  -- named, and with no empty texts, is printed so that the parser hands to `model_validate` its
  -- zones, action, flags and texts, and the very priority, addresses and service of the rule.
  pub from_api_response-rule_of :
      (x : Parts)
      → IsValid x
      → from_api_response fields (to_api_dict (rule_of x)) ≡ fields.rule (arguments x)
  unfolding from_api_response to_api_dict lookup unwrap
  from_api_response-rule_of x v = rw (text_entry-given "name" x.name v.name) (
      rw (text_entry-given "comment" x.comment v.comment) (
        rw (priority_entry-value x.priority) (
          rw (address_entry-value "source" x.source v.source) (
            rw (address_entry-value "destination" x.destination v.destination) (
              rw (service_entry-value x.service v.service)
                (rw (read_back x x.name x.comment v) refl))))))
