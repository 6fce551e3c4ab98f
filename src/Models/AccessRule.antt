-- ===== src/Models/AccessRule.antt =====
-- models/access_rule.py: the fields and `to_api_dict`.
pub mod Parser
pub mod Parts
pub mod Roundtrip
use mathlib.Core.List.{[], ◌∷◌, ◌++◌}
use sonicwall_sdk.Prelude.{String, Bool, true, Option, none, some, List, if◌then◌else◌}
use sonicwall_sdk.Json.Value.{Value, bool, int, str, ℤ, dict, nonempty}

pub data AccessRuleAction : Type 0 where
  allow deny discard : AccessRuleAction

-- `action.value`
abbrev pub action_value : AccessRuleAction → String
action_value allow = "allow"
action_value deny = "deny"
action_value discard = "discard"

pub record RuleAddress : Type 0 where
  pub any : Bool
  pub name : Option String
  pub group : Option String

pub record RuleService : Type 0 where
  pub any : Bool
  pub name : Option String

pub record RulePriority : Type 0 where
  pub auto : Bool
  pub value : Option ℤ

pub record AccessRule : Type 0 where
  pub name : Option String
  pub from_zone : String
  pub to_zone : String
  pub action : AccessRuleAction
  pub enabled : Bool
  pub log : Bool
  pub priority : RulePriority
  pub source_address : RuleAddress
  pub destination_address : RuleAddress
  pub service : RuleService
  pub comment : Option String

abbrev pub Entries : Type 0
Entries = List (String × Value)

-- `if s: d[key] = s`
abbrev pub text_entry : String → Option String → Entries
text_entry key none = []
text_entry key (some s) = if nonempty (some s) then (key, str s) ∷ [] else []

abbrev int_entry : Option ℤ → Entries
int_entry none = []
int_entry (some n) = ("priority", dict (("value", int n) ∷ [])) ∷ []

priority_entry : RulePriority → Entries
priority_entry p =
    if p.auto then ("priority", dict (("auto", bool true) ∷ [])) ∷ [] else int_entry p.value

abbrev in_address : String → Entries → Entries
in_address key [] = []
in_address key (e ∷ es) = (key, dict (("address", dict (e ∷ es)) ∷ [])) ∷ []

address_entry : String → RuleAddress → Entries
address_entry key a = in_address key (
    if a.any
    then ("any", bool true) ∷ []
    else if nonempty a.name
    then text_entry "name" a.name
    else text_entry "group" a.group)

abbrev in_service : Entries → Entries
in_service [] = []
in_service (e ∷ es) = ("service", dict (e ∷ es)) ∷ []

service_entry : RuleService → Entries
service_entry s = in_service (if s.any then ("any", bool true) ∷ [] else text_entry "name" s.name)

-- `to_api_dict`
unfoldable pub to_api_dict : AccessRule → Value
unfolding priority_entry address_entry service_entry
to_api_dict r =
    let inner =
      ("from", str r.from_zone)
      ∷ ("to", str r.to_zone)
      ∷ ("action", str (action_value r.action))
      ∷ ("enabled", bool r.enabled)
      ∷ ("log", bool r.log)
      ∷ (text_entry "name" r.name
          ++ (priority_entry r.priority
              ++ (address_entry "source" r.source_address
                  ++ (address_entry "destination" r.destination_address
                      ++ (service_entry r.service ++ text_entry "comment" r.comment))))) in
    dict (("access_rule", dict (("ipv4", dict inner) ∷ [])) ∷ [])
