-- ===== src/SyncClient/Resources/ServiceObjects.antt =====
-- `_SyncServiceObjectsResource` of _client.py
use mathlib.Core.List.{List}
use sonicwall_sdk.Prelude.{String, Bool}
use sonicwall_sdk.Transport.{Env}
use sonicwall_sdk.Models.ServiceObject.{ServiceObject, Pydantic}
use sonicwall_sdk.Resources.ServiceObjects
use sonicwall_sdk.SyncClient.{Blocking, run}

module _ (env : Env) (py : Pydantic) where
  unfoldable pub list : Blocking (List ServiceObject)
  unfolding run ServiceObjects.list
  list = run (ServiceObjects.list env py)

  unfoldable pub get : String → Blocking ServiceObject
  unfolding run ServiceObjects.get
  get name = run (ServiceObjects.get env py name)

  unfoldable pub create : ServiceObject → Blocking ServiceObject
  unfolding run ServiceObjects.create
  create object = run (ServiceObjects.create env py object)

  unfoldable pub update : String → ServiceObject → Blocking ServiceObject
  unfolding run ServiceObjects.update
  update name object = run (ServiceObjects.update env py name object)

  unfoldable pub delete : String → Blocking (Unit {0})
  unfolding run ServiceObjects.delete
  delete name = run (ServiceObjects.delete env py name)

  unfoldable pub ensure : ServiceObject → Blocking (ServiceObject × Bool)
  unfolding run ServiceObjects.ensure
  ensure object = run (ServiceObjects.ensure env py object)
