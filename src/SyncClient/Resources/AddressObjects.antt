-- ===== src/SyncClient/Resources/AddressObjects.antt =====
-- `_SyncAddressObjectsResource` of _client.py
use mathlib.Core.List.{List}
use sonicwall_sdk.Prelude.{String, Bool}
use sonicwall_sdk.Transport.{Env}
use sonicwall_sdk.Resources.Base.{Model}
use sonicwall_sdk.Resources.AddressObjects
use sonicwall_sdk.SyncClient.{Blocking, run}

module _ {T : Type 0} (env : Env) (model : Model T) (name_of : T → String) where
  unfoldable pub list : Blocking (List T)
  unfolding run AddressObjects.list
  list = run (AddressObjects.list env model name_of)

  unfoldable pub get : String → Blocking T
  unfolding run AddressObjects.get
  get name = run (AddressObjects.get env model name_of name)

  unfoldable pub create : T → Blocking T
  unfolding run AddressObjects.create
  create object = run (AddressObjects.create env model name_of object)

  unfoldable pub update : String → T → Blocking T
  unfolding run AddressObjects.update
  update name object = run (AddressObjects.update env model name_of name object)

  unfoldable pub delete : String → Blocking (Unit {0})
  unfolding run AddressObjects.delete
  delete name = run (AddressObjects.delete env model name_of name)

  unfoldable pub ensure : T → Blocking (T × Bool)
  unfolding run AddressObjects.ensure
  ensure object = run (AddressObjects.ensure env model name_of object)
