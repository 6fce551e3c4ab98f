-- ===== src/SyncClient/Resources/NatPolicies.antt =====
-- `_SyncNatPoliciesResource` of _client.py
use mathlib.Core.List.{List}
use sonicwall_sdk.Prelude.{String, Bool}
use sonicwall_sdk.Json.Value.{Value}
use sonicwall_sdk.Errors.{Result}
use sonicwall_sdk.Transport.{Env}
use sonicwall_sdk.Models.NatPolicy.{NatPolicy}
use sonicwall_sdk.Resources.NatPolicies
use sonicwall_sdk.SyncClient.{Blocking, run}

module _ (env : Env) (validate : Value → Result NatPolicy) where
  unfoldable pub list : Blocking (List NatPolicy)
  unfolding run NatPolicies.list
  list = run (NatPolicies.list env validate)

  unfoldable pub get : String → Blocking NatPolicy
  unfolding run NatPolicies.get
  get name = run (NatPolicies.get env validate name)

  unfoldable pub create : NatPolicy → Blocking NatPolicy
  unfolding run NatPolicies.create
  create policy = run (NatPolicies.create env validate policy)

  unfoldable pub update : String → NatPolicy → Blocking NatPolicy
  unfolding run NatPolicies.update
  update name policy = run (NatPolicies.update env validate name policy)

  unfoldable pub delete : String → Blocking (Unit {0})
  unfolding run NatPolicies.delete
  delete name = run (NatPolicies.delete env validate name)

  unfoldable pub ensure : NatPolicy → Blocking (NatPolicy × Bool)
  unfolding run NatPolicies.ensure
  ensure policy = run (NatPolicies.ensure env validate policy)
