-- ===== src/Resources/AccessRules.antt =====
-- resources/access_rules.py, over the parser of models/access_rule.py.
pub mod Ordering
use Prim.Native.String
use mathlib.Core.List.{[], ◌∷◌}
use sonicwall_sdk.Prelude.{
  ℕ, zero, suc, ◌+◌, String, Bool, true, false, ◌&&◌, ◌||◌, Option, none, some, List, ◌==◌, str_eq,
  if◌then◌else◌,
}
use sonicwall_sdk.Json.Value.{
  Value, null, str, Fields, lookup, equals_str, opt_str, nonempty, ℤ, pos, negsuc,
}
use sonicwall_sdk.Errors.{Error, http, HttpError, Result, is_not_found, http_error, not_found}
use sonicwall_sdk.Exec.{Exec, pure, raise, lift, try_except, ◌>>=◌, ◌>>◌}
use sonicwall_sdk.Transport.{Env, Session}
use sonicwall_sdk.Url.{quote}
use sonicwall_sdk.Models.AccessRule.{AccessRule, RulePriority, to_api_dict}
use sonicwall_sdk.Resources.Normalize.{normalize_get_from_plural, unwrap_ipv4}
use sonicwall_sdk.Resources.Base.{
  get_path, post_path, put_path, delete_path, list_path, collection_payload, except_schema_error,
  except_any,
}

abbrev pub base : String
base = "/access-rules/ipv4"

-- `f"{self._BASE}/from/{from_enc}/to/{to_enc}/name/{name_enc}"`
abbrev pub rule_path : String → String → String → String
rule_path from_zone to_zone name = String.◌++◌ base (
    String.◌++◌ "/from/" (
      String.◌++◌ (quote from_zone)
        (String.◌++◌ "/to/" (String.◌++◌ (quote to_zone) (String.◌++◌ "/name/" (quote name))))))

abbrev or_null : Option Value → Value
or_null none = null
or_null (some v) = v

abbrev named : String → String → String → Option Fields → Bool
named from_zone to_zone name none = false
named from_zone to_zone name (some ipv4) =
    equals_str (or_null (lookup "from" ipv4)) from_zone
    && equals_str (or_null (lookup "to" ipv4)) to_zone
    && equals_str (or_null (lookup "name" ipv4)) name

-- The predicate of `_normalize_get_response`
unfoldable pub is_expected : String → String → String → Fields → Bool
unfolding unwrap_ipv4 lookup
is_expected from_zone to_zone name item =
    named from_zone to_zone name (unwrap_ipv4 item "access_rule")

abbrev is_name : Option String → String → Bool
is_name none name = false
is_name (some s) name = str_eq s name

-- The test of the loop of `get`
abbrev pub is_wanted : String → String → String → AccessRule → Bool
is_wanted from_zone to_zone name rule =
    str_eq rule.from_zone from_zone && str_eq rule.to_zone to_zone && is_name rule.name name

-- The loop of `get`
unfoldable pub find_rule : String → String → String → List AccessRule → Option AccessRule
find_rule from_zone to_zone name [] = none
find_rule from_zone to_zone name (rule ∷ rules) =
    let rest = find_rule from_zone to_zone name rules in
    if is_wanted from_zone to_zone name rule then some rule else rest

-- The `NotFoundError` that `get` raises
abbrev pub no_rule : String → String → String → Error
no_rule from_zone to_zone name =
    http_error not_found 404
      (String.◌++◌ "Access rule not found: "
        (String.◌++◌ from_zone (String.◌++◌ "->" (String.◌++◌ to_zone (String.◌++◌ ":" name)))))
      null

abbrev found_or : Error → Option AccessRule → Exec Session AccessRule
found_or e none = raise e
found_or e (some rule) = pure rule

-- The `except` clauses of `get`: whether the rules are listed
abbrev pub is_missing : Error → Bool
is_missing (http e) = is_not_found (http e) || e.status_code == 404
is_missing e = false

abbrev next : ℤ → ℤ
next (pos n) = pos (n + 1)
next (negsuc zero) = pos 0
next (negsuc (suc n)) = negsuc n

-- `rule.model_copy(update={"priority": RulePriority(auto=False, value=…)})`
abbrev pub with_priority : ℤ → AccessRule → AccessRule
with_priority value rule = record {
  name = rule.name;
  from_zone = rule.from_zone;
  to_zone = rule.to_zone;
  action = rule.action;
  enabled = rule.enabled;
  log = rule.log;
  priority = record { auto = false; value = some value };
  source_address = rule.source_address;
  destination_address = rule.destination_address;
  service = rule.service;
  comment = rule.comment;
}

abbrev move_value : (ℤ → ℤ) → Bool → Option ℤ → AccessRule → AccessRule
move_value f true value rule = rule
move_value f false none rule = rule
move_value f false (some value) rule = with_priority (f value) rule

-- The rule as it is placed by the priority of the target
abbrev pub moved : (ℤ → ℤ) → RulePriority → AccessRule → AccessRule
moved f priority rule = move_value f priority.auto priority.value rule

abbrev name_or : Option String → String → String
name_or none name = name
name_or (some s) name = if nonempty (some s) then s else name

module _ (env : Env) (parse : Value → Result AccessRule) where
  -- `list`
  unfoldable pub list : Exec Session (List AccessRule)
  list = list_path env base "access_rules" "access_rule" parse false

  -- The `try` of `get`
  unfoldable pub get_single : String → String → String → Exec Session AccessRule
  get_single from_zone to_zone name = do
    response ← get_path env (rule_path from_zone to_zone name)
    single ← lift (
        normalize_get_from_plural response "access_rules" "access_rule"
          (is_expected from_zone to_zone name))
    lift (parse single)

  -- What `get` does once the rule is not found by its name
  unfoldable pub get_listed : String → String → String → Exec Session AccessRule
  unfolding find_rule
  get_listed from_zone to_zone name = do
    rules ← list
    found_or (no_rule from_zone to_zone name) (find_rule from_zone to_zone name rules)

  abbrev on_missing : String → String → String → Error → Exec Session AccessRule
  on_missing from_zone to_zone name e =
      if is_missing e then get_listed from_zone to_zone name else raise e

  -- `get`
  unfoldable pub get : String → String → String → Exec Session AccessRule
  get from_zone to_zone name =
      try_except (get_single from_zone to_zone name) (on_missing from_zone to_zone name)

  abbrev collection : AccessRule → Value
  collection rule = collection_payload "access_rule" "access_rules" (to_api_dict rule)

  unfoldable pub post : AccessRule → Exec Session Value
  post rule =
      try_except (post_path env base (to_api_dict rule))
        (except_schema_error "access_rules" (post_path env base (collection rule)))

  abbrev read_back : AccessRule → Option String → Exec Session AccessRule
  read_back rule none = pure rule
  read_back rule (some name) =
      if nonempty (some name)
      then try_except (get rule.from_zone rule.to_zone name) (except_any (pure rule))
      else pure rule

  -- `create`
  unfoldable pub create : AccessRule → Exec Session AccessRule
  create rule = do post rule; read_back rule rule.name

  -- `update`
  unfoldable pub update : String → String → String → AccessRule → Exec Session AccessRule
  update from_zone to_zone name rule = do
    try_except (put_path env (rule_path from_zone to_zone name) (to_api_dict rule)) (
        except_schema_error "access_rules"
          (put_path env (rule_path from_zone to_zone name) (collection rule)))
    try_except (get rule.from_zone rule.to_zone (name_or rule.name name)) (except_any (pure rule))

  -- `delete`
  unfoldable pub delete : String → String → String → Exec Session (Unit {0})
  delete from_zone to_zone name = delete_path env (rule_path from_zone to_zone name)

  abbrev placed : (ℤ → ℤ) → AccessRule → String → Exec Session AccessRule
  placed f rule target_name = do
    target ← get rule.from_zone rule.to_zone target_name
    pure (moved f target.priority rule)

  abbrev on_no_target : AccessRule → Error → Exec Session AccessRule
  on_no_target rule e = if is_not_found e then pure rule else raise e

  -- `insert_before`: the new rule takes the target's own priority.
  unfoldable pub insert_before : AccessRule → String → Exec Session AccessRule
  insert_before rule before_name = do
    rule' ← try_except (placed (λ value. value) rule before_name) (on_no_target rule)
    create rule'

  -- `insert_after`
  unfoldable pub insert_after : AccessRule → String → Exec Session AccessRule
  insert_after rule after_name = do
    rule' ← try_except (placed next rule after_name) (on_no_target rule)
    create rule'
