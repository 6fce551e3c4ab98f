-- ===== src/Models/AccessRule/Parser.antt =====
-- `from_api_response` of models/access_rule.py. What pydantic makes of the keyword arguments is a
-- parameter.
use mathlib.Core.List.{[]}
use sonicwall_sdk.Prelude.{String, Bool, true, false, Option, none, some, if◌then◌else◌}
use sonicwall_sdk.Json.Value.{Value, null, bool, str, obj, ℤ, dict, lookup, truthy}
use sonicwall_sdk.Json.Access.{get}
use sonicwall_sdk.Errors.{Result, ok, ◌>>=◌}
use sonicwall_sdk.Resources.Base.{unwrap}
use sonicwall_sdk.Models.AccessRule.{AccessRule, RulePriority, RuleAddress, RuleService}

-- The keyword arguments that `from_api_response` collects: values as they come, or a model instance
-- where the code makes one.
pub record Arguments : Type 0 where
  pub from_zone : Value
  pub to_zone : Value
  pub action : Value
  pub enabled : Value
  pub log : Value
  pub name : Value
  pub comment : Value
  pub priority : Option RulePriority
  pub source : Option RuleAddress
  pub destination : Option RuleAddress
  pub service : Option RuleService

-- What pydantic makes of an instance's integer and texts, and of all arguments together.
pub record RuleFields : Type 0 where
  pub int : Value → Result ℤ
  pub text : Value → Result String
  pub rule : Arguments → Result AccessRule

abbrev truthy_opt : Option Value → Bool
truthy_opt none = false
truthy_opt (some v) = truthy v

abbrev or_null : Option Value → Value
or_null none = null
or_null (some v) = v

abbrev is_given : Option Value → Bool
is_given none = false
is_given (some _) = true

abbrev automatic : RulePriority
automatic = record { auto = true; value = none }

-- `RulePriority(auto=False, value=v)`, where `v` may be `None`
abbrev explicit : RuleFields → Value → Result (Option RulePriority)
explicit fields null = ok (some (record { auto = false; value = none }))
explicit fields v = do n ← fields.int v; ok (some (record { auto = false; value = some n }))

unfoldable pub parse_priority : RuleFields → Value → Result (Option RulePriority)
unfolding lookup truthy
parse_priority fields (obj fs) =
    if truthy_opt (lookup "auto" fs)
    then ok (some automatic)
    else if is_given (lookup "value" fs)
    then explicit fields (or_null (lookup "value" fs))
    else ok none
parse_priority fields v = ok none

abbrev any_address : RuleAddress
any_address = record { any = true; name = none; group = none }

abbrev name_address : RuleFields → Value → Result (Option RuleAddress)
name_address fields v = do
  s ← fields.text v
  ok (some (record { any = false; name = some s; group = none }))

abbrev group_address : RuleFields → Value → Result (Option RuleAddress)
group_address fields v = do
  s ← fields.text v
  ok (some (record { any = false; name = none; group = some s }))

-- The address of a rule's side: `data.get(key, {}).get("address", {})`
unfoldable pub parse_address : RuleFields → Value → Result (Option RuleAddress)
unfolding get truthy
parse_address fields side = do
  address ← get side "address" (dict [])
  any ← get address "any" null
  name ← get address "name" null
  group ← get address "group" null
  if truthy any
      then ok (some any_address)
      else if truthy name
      then name_address fields name
      else if truthy group
      then group_address fields group
      else ok none

abbrev any_service : RuleService
any_service = record { any = true; name = none }

abbrev name_service : RuleFields → Value → Result (Option RuleService)
name_service fields v = do s ← fields.text v; ok (some (record { any = false; name = some s }))

unfoldable pub parse_service : RuleFields → Value → Result (Option RuleService)
unfolding lookup truthy
parse_service fields (obj fs) =
    if truthy_opt (lookup "any" fs)
    then ok (some any_service)
    else if truthy_opt (lookup "name" fs)
    then name_service fields (or_null (lookup "name" fs))
    else ok none
parse_service fields v = ok none

-- What `from_api_response` passes to `model_validate`
unfoldable pub arguments_of : RuleFields → Value → Result Arguments
unfolding get parse_priority parse_address parse_service
arguments_of fields data' = do
  from_zone ← get data' "from" (str "")
  to_zone ← get data' "to" (str "")
  action ← get data' "action" (str "allow")
  enabled ← get data' "enabled" (bool true)
  log ← get data' "log" (bool false)
  name ← get data' "name" null
  comment ← get data' "comment" null
  priority_data ← get data' "priority" (dict [])
  priority ← parse_priority fields priority_data
  source_data ← get data' "source" (dict [])
  source ← parse_address fields source_data
  destination_data ← get data' "destination" (dict [])
  destination ← parse_address fields destination_data
  service_data ← get data' "service" (dict [])
  service ← parse_service fields service_data
  ok (record {
    from_zone = from_zone;
    to_zone = to_zone;
    action = action;
    enabled = enabled;
    log = log;
    name = name;
    comment = comment;
    priority = priority;
    source = source;
    destination = destination;
    service = service;
  })

-- `from_api_response`
unfoldable pub from_api_response : RuleFields → Value → Result AccessRule
unfolding unwrap arguments_of
from_api_response fields data' = do
  outer ← unwrap "access_rule" data'
  inner ← unwrap "ipv4" outer
  arguments ← arguments_of fields inner
  fields.rule arguments
