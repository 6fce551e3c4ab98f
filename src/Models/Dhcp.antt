-- ===== src/Models/Dhcp.antt =====
-- models/dhcp.py. `model_validate` is a parameter of the parser.
use mathlib.Core.List.{[], ◌∷◌}
use sonicwall_sdk.Prelude.{ℕ, String, Option}
use sonicwall_sdk.Json.Value.{Value, null, str, dict}
use sonicwall_sdk.Json.Access.{get}
use sonicwall_sdk.Errors.{Result, ok, ◌>>=◌}

-- A lease; its expiry time is a number of seconds.
pub record DhcpLease : Type 0 where
  pub ip : ℕ
  pub mac : String
  pub hostname : Option String
  pub expires : Option ℕ
  pub interface : Option String

-- The keyword arguments of `from_api_response`
unfoldable pub keyword_arguments : Value → Result Value
unfolding get
keyword_arguments data' = do
  ip ← get data' "ip" null
  mac ← get data' "mac" (str "")
  hostname ← get data' "hostname" null
  expires ← get data' "expires" null
  interface ← get data' "interface" null
  ok (
      dict (
        ("ip", ip)
        ∷ ("mac", mac)
        ∷ ("hostname", hostname)
        ∷ ("expires", expires)
        ∷ ("interface", interface)
        ∷ []))

-- `from_api_response`
unfoldable pub from_api_response : (Value → Result DhcpLease) → Value → Result DhcpLease
unfolding keyword_arguments
from_api_response validate data' = do arguments ← keyword_arguments data'; validate arguments
