-- ===== src/Resources/Interfaces.antt =====
-- resources/interfaces.py
use Prim.Native.String
use sonicwall_sdk.Prelude.{String, false, List}
use sonicwall_sdk.Json.Value.{Value}
use sonicwall_sdk.Errors.{Result}
use sonicwall_sdk.Exec.{Exec, lift, ◌>>=◌}
use sonicwall_sdk.Transport.{Env, Session}
use sonicwall_sdk.Url.{quote}
use sonicwall_sdk.Models.Interface.{Interface, from_api_response}
use sonicwall_sdk.Resources.Base.{get_path, list_path}

abbrev base : String
base = "/interfaces"

module _ (env : Env) (validate : Value → Result Interface) where
  -- `list`
  unfoldable pub list : Exec Session (List Interface)
  list = list_path env base "interfaces" "interface" (from_api_response validate) false

  -- `get`
  unfoldable pub get : String → Exec Session Interface
  get name = do
    response ← get_path env (String.◌++◌ base (String.◌++◌ "/name/" (quote name)))
    lift (from_api_response validate response)
