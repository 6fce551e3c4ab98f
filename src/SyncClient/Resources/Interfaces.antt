-- ===== src/SyncClient/Resources/Interfaces.antt =====
-- `_SyncInterfacesResource` of _client.py
use mathlib.Core.List.{List}
use sonicwall_sdk.Prelude.{String}
use sonicwall_sdk.Json.Value.{Value}
use sonicwall_sdk.Errors.{Result}
use sonicwall_sdk.Transport.{Env}
use sonicwall_sdk.Models.Interface.{Interface}
use sonicwall_sdk.Resources.Interfaces
use sonicwall_sdk.SyncClient.{Blocking, run}

module _ (env : Env) (validate : Value → Result Interface) where
  unfoldable pub list : Blocking (List Interface)
  unfolding run Interfaces.list
  list = run (Interfaces.list env validate)

  unfoldable pub get : String → Blocking Interface
  unfolding run Interfaces.get
  get name = run (Interfaces.get env validate name)
