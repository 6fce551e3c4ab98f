-- ===== src/Models/AccessRule/Parts.antt =====
-- Rules by what they are made of: a priority, sides and a service that are printed in one way each.
use mathlib.Core.List.{[], ◌∷◌}
use sonicwall_sdk.Prelude.{String, Bool, true, false, Option, none, some, ◌≡◌, str_eq}
use sonicwall_sdk.Json.Value.{Value, null, bool, int, str, ℤ, dict}
use sonicwall_sdk.Models.AccessRule.{
  AccessRule, AccessRuleAction, RuleAddress, RuleService, RulePriority, Entries, action_value,
}
use sonicwall_sdk.Models.AccessRule.Parser.{Arguments}

pub data Priority : Type 0 where
  automatic : Priority
  value : ℤ → Priority

pub data Side : Type 0 where
  any : Side
  name group : String → Side

pub data Service : Type 0 where
  any : Service
  name : String → Service

abbrev pub priority_of : Priority → RulePriority
priority_of Priority.automatic = record { auto = true; value = none }
priority_of (Priority.value n) = record { auto = false; value = some n }

abbrev pub address_of : Side → RuleAddress
address_of Side.any = record { any = true; name = none; group = none }
address_of (Side.name s) = record { any = false; name = some s; group = none }
address_of (Side.group s) = record { any = false; name = none; group = some s }

abbrev pub service_of : Service → RuleService
service_of Service.any = record { any = true; name = none }
service_of (Service.name s) = record { any = false; name = some s }

-- A name is no empty text.
abbrev pub IsSide : Side → Type 0
IsSide Side.any = Unit {0}
IsSide (Side.name s) = str_eq s "" ≡ false
IsSide (Side.group s) = str_eq s "" ≡ false

abbrev pub IsService : Service → Type 0
IsService Service.any = Unit {0}
IsService (Service.name s) = str_eq s "" ≡ false

abbrev pub IsText : Option String → Type 0
IsText none = Unit {0}
IsText (some s) = str_eq s "" ≡ false

-- What is printed for each.
abbrev pub priority_value : Priority → Value
priority_value Priority.automatic = dict (("auto", bool true) ∷ [])
priority_value (Priority.value n) = dict (("value", int n) ∷ [])

abbrev pub side_value : Side → Value
side_value Side.any = dict (("address", dict (("any", bool true) ∷ [])) ∷ [])
side_value (Side.name s) = dict (("address", dict (("name", str s) ∷ [])) ∷ [])
side_value (Side.group s) = dict (("address", dict (("group", str s) ∷ [])) ∷ [])

abbrev pub service_value : Service → Value
service_value Service.any = dict (("any", bool true) ∷ [])
service_value (Service.name s) = dict (("name", str s) ∷ [])

abbrev pub given : String → Option String → Entries
given key none = []
given key (some s) = (key, str s) ∷ []

-- The parts of a rule.
pub record Parts : Type 0 where
  pub name : Option String
  pub from_zone : String
  pub to_zone : String
  pub action : AccessRuleAction
  pub enabled : Bool
  pub log : Bool
  pub priority : Priority
  pub source : Side
  pub destination : Side
  pub service : Service
  pub comment : Option String

abbrev pub rule_of : Parts → AccessRule
rule_of x = record {
  name = x.name;
  from_zone = x.from_zone;
  to_zone = x.to_zone;
  action = x.action;
  enabled = x.enabled;
  log = x.log;
  priority = priority_of x.priority;
  source_address = address_of x.source;
  destination_address = address_of x.destination;
  service = service_of x.service;
  comment = x.comment;
}

pub record IsValid (x : Parts) : Type 0 where
  pub name : IsText x.name
  pub source : IsSide x.source
  pub destination : IsSide x.destination
  pub service : IsService x.service
  pub comment : IsText x.comment

abbrev pub printed_text : Option String → Value
printed_text none = null
printed_text (some s) = str s

-- What `model_validate` should see of a rule: its zones, its action and its flags as JSON values,
-- its texts or `None`, and its priority, addresses and service as they are.
abbrev pub arguments : Parts → Arguments
arguments x = record {
  from_zone = str x.from_zone;
  to_zone = str x.to_zone;
  action = str (action_value x.action);
  enabled = bool x.enabled;
  log = bool x.log;
  name = printed_text x.name;
  comment = printed_text x.comment;
  priority = some (priority_of x.priority);
  source = some (address_of x.source);
  destination = some (address_of x.destination);
  service = some (service_of x.service);
}
