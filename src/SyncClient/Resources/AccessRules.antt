-- ===== src/SyncClient/Resources/AccessRules.antt =====
-- `_SyncAccessRulesResource` of _client.py
use mathlib.Core.List.{List}
use sonicwall_sdk.Prelude.{String}
use sonicwall_sdk.Json.Value.{Value}
use sonicwall_sdk.Errors.{Result}
use sonicwall_sdk.Transport.{Env}
use sonicwall_sdk.Models.AccessRule.{AccessRule}
use sonicwall_sdk.Resources.AccessRules
use sonicwall_sdk.SyncClient.{Blocking, run}

module _ (env : Env) (parse : Value → Result AccessRule) where
  unfoldable pub list : Blocking (List AccessRule)
  unfolding run AccessRules.list
  list = run (AccessRules.list env parse)

  unfoldable pub get : String → String → String → Blocking AccessRule
  unfolding run AccessRules.get
  get from_zone to_zone name = run (AccessRules.get env parse from_zone to_zone name)

  unfoldable pub create : AccessRule → Blocking AccessRule
  unfolding run AccessRules.create
  create rule = run (AccessRules.create env parse rule)

  unfoldable pub update : String → String → String → AccessRule → Blocking AccessRule
  unfolding run AccessRules.update
  update from_zone to_zone name rule =
      run (AccessRules.update env parse from_zone to_zone name rule)

  unfoldable pub delete : String → String → String → Blocking (Unit {0})
  unfolding run AccessRules.delete
  delete from_zone to_zone name = run (AccessRules.delete env parse from_zone to_zone name)

  unfoldable pub insert_before : AccessRule → String → Blocking AccessRule
  unfolding run AccessRules.insert_before
  insert_before rule before_name = run (AccessRules.insert_before env parse rule before_name)

  unfoldable pub insert_after : AccessRule → String → Blocking AccessRule
  unfolding run AccessRules.insert_after
  insert_after rule after_name = run (AccessRules.insert_after env parse rule after_name)
